-- ===== src/Stack/NetIf/Text.antt =====
-- NetIf.__str__ of lwip_py/stack/netif.py.
use py_lwip.Prelude.{ℕ, List, [], ◌∷◌, ◌++◌}
use py_lwip.Prelude.Dict.{Str}
use py_lwip.Utility.Address.{str, int_ip_to_string}
use py_lwip.Stack.NetIf.{NetIf, set_names, flag_names}

-- `', '.join`.
abbrev pub join_commas : List Str → Str
join_commas [] = []
join_commas (s ∷ []) = s
join_commas (s ∷ t ∷ ss) = s ++ 44 ∷ 32 ∷ join_commas (t ∷ ss)

abbrev pub colon : ℕ
colon = 58

abbrev pub space : ℕ
space = 32

abbrev pub less : ℕ
less = 60

-- ' flags=', '> inet ', 'netmask ' and 'gw '.
abbrev pub flags_label : Str
flags_label = 32 ∷ 102 ∷ 108 ∷ 97 ∷ 103 ∷ 115 ∷ 61 ∷ []

abbrev pub inet_label : Str
inet_label = 62 ∷ 32 ∷ 105 ∷ 110 ∷ 101 ∷ 116 ∷ 32 ∷ []

abbrev pub netmask_label : Str
netmask_label = 110 ∷ 101 ∷ 116 ∷ 109 ∷ 97 ∷ 115 ∷ 107 ∷ 32 ∷ []

abbrev pub gw_label : Str
gw_label = 103 ∷ 119 ∷ 32 ∷ []

-- The text behind the names of the flags.
abbrev pub after_names : NetIf → Str
after_names n =
    inet_label
    ++ (int_ip_to_string n.ip_addr
        ++ space
          ∷ (netmask_label
              ++ (int_ip_to_string n.netmask ++ space ∷ (gw_label ++ int_ip_to_string n.gw))))

-- '{0}: flags={1}<{2}> inet {3} netmask {4} gw {5}'.
abbrev pub to_text : NetIf → Str
to_text n =
    n.name
    ++ colon
      ∷ (flags_label
          ++ (str n.flags ++ less ∷ (join_commas (set_names n.flags flag_names) ++ after_names n)))
