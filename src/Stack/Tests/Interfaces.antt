-- ===== src/Stack/Tests/Interfaces.antt =====
-- The text of an interface of lwip_py/stack/netif.py.
use py_lwip.Prelude.{true, false, ◌≡◌, refl, some, none, [], ◌∷◌, arith}
use py_lwip.Utility.Address.{decimal, int_ip_to_string}
use py_lwip.Stack.NetIf.{NetIf, new_netif, set_status_callbacks, set_names, flag_names}
use py_lwip.Stack.NetIf.Text.{to_text}
use py_lwip.Stack.NetIf.Printed.{IsPrintable, to_text-injective}
use py_lwip.Stack.NetIf.Flags.{FlagBits, names_of, set_names-names_of}

program : Unit {0}
unfolding decimal int_ip_to_string
program = tt

-- The interface 'e0' with the flags ETH_ARP and LINK.
abbrev e0 : NetIf
e0 = record (new_netif (101 ∷ 48 ∷ [])) { flags = 12; ip_addr = 16777226 }

-- The same interface after a callback was set, which the text does not show.
abbrev watched : NetIf
watched = set_status_callbacks (some 1) none e0

-- 'e0: flags=12<ETH_ARP, LINK> inet 10.0.0.1 netmask 0.0.0.0 gw 0.0.0.0'.
e0_text :
    to_text e0
    ≡ 101 ∷ 48 ∷ 58 ∷ 32 ∷ 102 ∷ 108 ∷ 97 ∷ 103 ∷ 115 ∷ 61 ∷ 49 ∷ 50 ∷ 60 ∷ 69 ∷ 84 ∷ 72 ∷ 95 ∷ 65
      ∷ 82 ∷ 80 ∷ 44 ∷ 32 ∷ 76 ∷ 73 ∷ 78 ∷ 75 ∷ 62 ∷ 32 ∷ 105 ∷ 110 ∷ 101 ∷ 116 ∷ 32 ∷ 49 ∷ 48 ∷ 46
      ∷ 48 ∷ 46 ∷ 48 ∷ 46 ∷ 49 ∷ 32 ∷ 110 ∷ 101 ∷ 116 ∷ 109 ∷ 97 ∷ 115 ∷ 107 ∷ 32 ∷ 48 ∷ 46 ∷ 48
      ∷ 46 ∷ 48 ∷ 46 ∷ 48 ∷ 32 ∷ 103 ∷ 119 ∷ 32 ∷ 48 ∷ 46 ∷ 48 ∷ 46 ∷ 48 ∷ 46 ∷ 48 ∷ []
unfolding program
e0_text = refl

e0-IsPrintable : IsPrintable e0
e0-IsPrintable = record {
  ip_addr = omega arith;
  netmask = omega arith;
  gw = omega arith;
  name = (omega arith, (omega arith, tt));
}

watched-IsPrintable : IsPrintable watched
watched-IsPrintable = record {
  ip_addr = omega arith;
  netmask = omega arith;
  gw = omega arith;
  name = (omega arith, (omega arith, tt));
}

to_text-injective_example :
    (watched.name ≡ e0.name)
    × (watched.flags ≡ e0.flags)
    × (watched.ip_addr ≡ e0.ip_addr)
    × (watched.netmask ≡ e0.netmask)
    × (watched.gw ≡ e0.gw)
to_text-injective_example = to_text-injective watched e0 watched-IsPrintable e0-IsPrintable refl

-- 12 is ETHARP and LINK_UP, and 64 a bit without a name.
abbrev etharp_link : FlagBits
etharp_link = record {
  up = false;
  broadcast = false;
  link_up = true;
  etharp = true;
  ethernet = false;
  igmp = false;
  others = 1;
}

set_names-names_of_example : set_names 76 flag_names ≡ names_of etharp_link
set_names-names_of_example = set_names-names_of etharp_link
