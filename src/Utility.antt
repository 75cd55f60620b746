-- ===== src/Utility.antt =====
-- The helpers of lwip_py/utility that are no scheduler.
pub mod Address
pub mod Ctypes
pub mod Loader
mod Tests
