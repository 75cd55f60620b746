-- ===== src/Stack/Address.antt =====
-- IpV4Addr and IpAddr of lwip_py/stack/ip_address.py.
use py_lwip.Prelude.{ℕ, ◌-◌, ◌%◌, Option, none, some}
use py_lwip.Prelude.Int.{ℤ, pos, negsuc}
use py_lwip.Stack.Lwip.{Ip4}
use py_lwip.Utility.Address.{Str, int_ip_from_string}

-- What a field of type c_uint32 keeps of an int.
abbrev pub uint32 : ℤ → ℕ
uint32 (pos n) = n % 4294967296
uint32 (negsuc n) = 4294967295 - n % 4294967296

abbrev addr_of : Option ℤ → Option Ip4
addr_of none = none
addr_of (some n) = some (uint32 n)

-- `IpV4Addr(ip_str)`; `none` is ValueError.
abbrev pub ip_v4_addr : Str → Option Ip4
ip_v4_addr ip_str = addr_of (int_ip_from_string ip_str)

-- An object given to IpAddr: an IpV4Addr, an IpV6Addr, or of another type.
pub data AddrArgument : Type 0 where
  v4 : Ip4 → AddrArgument
  v6 : (addr : ℕ) → (zone : ℕ) → AddrArgument
  no_address : AddrArgument

pub record IpAddr : Type 0 where
  pub ip4 : Ip4
  pub addr_type : ℕ

-- Both tests of the code are for IpV4Addr, so the second branch is never reached; `none` is
-- ValueError.
abbrev pub ip_addr : AddrArgument → Option IpAddr
ip_addr (v4 a) = some (record { ip4 = a; addr_type = 0 })
ip_addr (v6 a zone) = none
ip_addr no_address = none
