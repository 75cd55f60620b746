-- ===== src/Emulation.antt =====
-- The emulated network of lwip_py/emulation: the ethernet bus, the hosts, and the network of both.
pub mod EthernetBus
pub mod Host
pub mod Network
mod Tests
