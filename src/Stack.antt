-- ===== src/Stack.antt =====
-- The wrappers of lwip_py/stack around the lwIP library.
pub mod Lwip
pub mod Address
pub mod Allocator
pub mod UdpSocket
pub mod NetIf
pub mod LwipStack
pub mod PingClient
pub mod Errors
pub mod Functions
pub mod Makers
mod Tests
