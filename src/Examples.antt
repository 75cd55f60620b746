-- ===== src/Examples.antt =====
-- The applications of lwip_py/examples/examples.py.
pub mod UdpPingPong
pub mod IcmpPing
mod Tests
