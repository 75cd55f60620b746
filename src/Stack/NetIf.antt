-- ===== src/Stack/NetIf.antt =====
-- NetIf of lwip_py/stack/netif.py: the fields of its lwIP structure that the program reads or
-- writes, and its callbacks.
pub mod Text
pub mod Printed
pub mod Flags
use py_lwip.Prelude.{
  ℕ, ◌+◌, ◌/◌, ◌%◌, Bool, true, false, Option, none, some, List, [], ◌∷◌, length, ◌==◌,
  if◌then◌else◌,
}
use py_lwip.Prelude.Dict.{Str}
use py_lwip.Prelude.Ran.{Ran, done, and_then}
use py_lwip.Stack.Lwip.{Bytes, Ip4, Lwip}
use py_lwip.Stack.Allocator.{allocate_raw_pbuf_from_data}
use py_lwip.Utility.Address.{int_ip_to_string, bitwise, or_bit}

-- `name` is the human-readable name, `low_name` the two characters in the structure. The callbacks
-- are known by an identity; `link_output` is false until set_output_callbacks has set one.
pub record NetIf : Type 0 where
  pub name : Str
  pub low_name : Str
  pub ip_addr : Ip4
  pub netmask : Ip4
  pub gw : Ip4
  pub hwaddr : Bytes
  pub flags : ℕ
  pub link_output : Bool
  pub status_callback : Option ℕ
  pub link_status : Option ℕ

-- What the library's calls do to the structure.
pub record NetIfCalls : Type 0 where
  pub netif_add : Option Ip4 → Option Ip4 → Option Ip4 → NetIf → NetIf
  pub netif_set_up : NetIf → NetIf
  pub netif_set_down : NetIf → NetIf
  pub netif_set_link_up : NetIf → NetIf
  pub netif_set_link_down : NetIf → NetIf
  pub netif_set_default : NetIf → NetIf

abbrev pub new_netif : Str → NetIf
new_netif name = record {
  name = name;
  low_name = [];
  ip_addr = 0;
  netmask = 0;
  gw = 0;
  hwaddr = [];
  flags = 0;
  link_output = false;
  status_callback = none;
  link_status = none;
}

abbrev pub set_name : Str → NetIf → NetIf
set_name name n = record n { low_name = name }

abbrev pub set_output_callbacks : NetIf → NetIf
set_output_callbacks n = record n { link_output = true }

abbrev pub set_status_callbacks : Option ℕ → Option ℕ → NetIf → NetIf
set_status_callbacks status link n = record n { status_callback = status; link_status = link }

-- `flags | 8`, in a field of 8 bits.
abbrev pub set_etharp_flag : NetIf → NetIf
set_etharp_flag n = record n { flags = bitwise or_bit (n.flags + 8) n.flags 8 % 256 }

module _ (calls : NetIfCalls) where
  -- What the library made of the flags is overwritten.
  abbrev pub add : Option Ip4 → Option Ip4 → Option Ip4 → NetIf → NetIf
  add ip netmask gateway n = record (calls.netif_add ip netmask gateway n) {
    hwaddr = 10 ∷ 11 ∷ 12 ∷ 13 ∷ 14 ∷ 15 ∷ [];
    flags = 8;
  }

  abbrev pub set_up : NetIf → NetIf
  set_up n = calls.netif_set_up n

  abbrev pub set_down : NetIf → NetIf
  set_down n = calls.netif_set_down n

  abbrev pub set_link_up : NetIf → NetIf
  set_link_up n = calls.netif_set_link_up n

  abbrev pub set_link_down : NetIf → NetIf
  set_link_down n = calls.netif_set_link_down n

  abbrev pub set_default : NetIf → NetIf
  set_default n = calls.netif_set_default n

abbrev pub get_address : NetIf → Str
get_address n = int_ip_to_string n.ip_addr

-- The names of the flags that are set, `flag` being a power of two, with a comma between two.
abbrev pub flag_set : (flags flag : ℕ) → Bool
flag_set flags flag = flags / flag % 2 == 1

abbrev pub set_names : ℕ → List (ℕ × Str) → List Str
set_names flags [] = []
set_names flags ((flag, name) ∷ rest) =
    let names = set_names flags rest in if flag_set flags flag then name ∷ names else names

-- UP, BROADCAST, ETH_ARP, ETH, LINK and IGMP.
abbrev pub flag_names : List (ℕ × Str)
flag_names =
    (1, 85 ∷ 80 ∷ [])
    ∷ (2, 66 ∷ 82 ∷ 79 ∷ 65 ∷ 68 ∷ 67 ∷ 65 ∷ 83 ∷ 84 ∷ [])
    ∷ (8, 69 ∷ 84 ∷ 72 ∷ 95 ∷ 65 ∷ 82 ∷ 80 ∷ [])
    ∷ (16, 69 ∷ 84 ∷ 72 ∷ [])
    ∷ (4, 76 ∷ 73 ∷ 78 ∷ 75 ∷ [])
    ∷ (32, 73 ∷ 71 ∷ 77 ∷ 80 ∷ [])
    ∷ []

module _ {L : Type 0} where
  -- `input` is the library's ethernet_input, which `add` sets; what it returns is dropped.
  abbrev pub pass_input : (input : ℕ → L → L × ℕ) → (pbuf : ℕ) → L → L
  pass_input input pbuf w = (input pbuf w).0

module _ {W : Type 0} (call : ℕ → NetIf → W → Ran W (Unit {0})) where
  -- The callback that the user has set, if any, is called with the interface.
  abbrev pub callback_internal : Option ℕ → NetIf → W → Ran W (Unit {0})
  callback_internal none n w = done w tt
  callback_internal (some callback) n w = call callback n w

  abbrev pub status_callback_internal : NetIf → W → Ran W (Unit {0})
  status_callback_internal n w = callback_internal n.status_callback n w

  abbrev pub link_status_callback_internal : NetIf → W → Ran W (Unit {0})
  link_status_callback_internal n w = callback_internal n.link_status n w

module _ {L : Type 0} (lwip : Lwip L) where
  abbrev pub input_data : (input : ℕ → L → L × ℕ) → Bytes → L → Ran L (Unit {0})
  input_data input incoming_data w =
      and_then (allocate_raw_pbuf_from_data lwip incoming_data (some (length incoming_data)) w)
        (λ pbuf w'. done (pass_input input pbuf w') tt)

  -- `_link_output_wrapper`: the payload is copied, and given to the user's callback with the
  -- interface. Without a callback the function returns None.
  abbrev pub link_output_wrapper :
      Option (Bytes → L → Ran L (Unit {0})) → (pbuf : ℕ) → L → Ran L (Option ℕ)
  link_output_wrapper none pbuf w = done w none
  link_output_wrapper (some user_link_output) pbuf w =
      and_then (user_link_output (lwip.payload w pbuf) w) (λ u w'. done w' (some 0))
