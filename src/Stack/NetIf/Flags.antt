-- ===== src/Stack/NetIf/Flags.antt =====
-- The names of the flags in NetIf.__str__ of lwip_py/stack/netif.py, against the bits of the field.
use py_lwip.Prelude.{
  ℕ, ◌+◌, ◌*◌, ◌%◌, ◌/◌, ◌≤◌, ◌≡◌, refl, ap, Bool, true, false, List, [], ◌∷◌, arith,
}
use py_lwip.Prelude.Dict.{Str}
use py_lwip.Stack.NetIf.{set_names, flag_names}

-- The bits of the field as lwIP's netif.h numbers them, the lowest first: NETIF_FLAG_UP,
-- BROADCAST, LINK_UP, ETHARP, ETHERNET and IGMP. `others` are the bits above.
pub record FlagBits : Type 0 where
  pub up : Bool
  pub broadcast : Bool
  pub link_up : Bool
  pub etharp : Bool
  pub ethernet : Bool
  pub igmp : Bool
  pub others : ℕ

abbrev bit : Bool → ℕ
bit true = 1
bit false = 0

abbrev pub field_of : FlagBits → ℕ
field_of b =
    bit b.up
    + 2 * bit b.broadcast
    + 4 * bit b.link_up
    + 8 * bit b.etharp
    + 16 * bit b.ethernet
    + 32 * bit b.igmp
    + 64 * b.others

-- The name before others, if the bit is set.
abbrev named : Bool → Str → List Str → List Str
named true name names = name ∷ names
named false name names = names

-- 'UP', 'BROADCAST', 'ETH_ARP', 'ETH', 'LINK' and 'IGMP'.
abbrev pub names_of : FlagBits → List Str
names_of b = named b.up (85 ∷ 80 ∷ []) (
    named b.broadcast (66 ∷ 82 ∷ 79 ∷ 65 ∷ 68 ∷ 67 ∷ 65 ∷ 83 ∷ 84 ∷ []) (
      named b.etharp (69 ∷ 84 ∷ 72 ∷ 95 ∷ 65 ∷ 82 ∷ 80 ∷ []) (
        named b.ethernet (69 ∷ 84 ∷ 72 ∷ [])
          (named b.link_up (76 ∷ 73 ∷ 78 ∷ 75 ∷ []) (named b.igmp (73 ∷ 71 ∷ 77 ∷ 80 ∷ []) [])))))

set_names-cons :
    (flags flag : ℕ) (name : Str) (table : List (ℕ × Str)) (b : Bool) (names : List Str)
    → flags / flag % 2 ≡ bit b
    → set_names flags table ≡ names
    → set_names flags ((flag, name) ∷ table) ≡ named b name names
set_names-cons flags flag name table true names on later = rw on (ap (λ l. name ∷ l) later)
set_names-cons flags flag name table false names off later = rw off later

bit-le : (b : Bool) → bit b ≤ 1
bit-le true = omega arith
bit-le false = omega arith

-- Each power of two reads its bit.
field_bits :
    (u b l e t i others : ℕ)
    → u ≤ 1
    → b ≤ 1
    → l ≤ 1
    → e ≤ 1
    → t ≤ 1
    → i ≤ 1
    → let n = u + 2 * b + 4 * l + 8 * e + 16 * t + 32 * i + 64 * others in
      (n / 1 % 2 ≡ u)
      × (n / 2 % 2 ≡ b)
      × (n / 4 % 2 ≡ l)
      × (n / 8 % 2 ≡ e)
      × (n / 16 % 2 ≡ t)
      × (n / 32 % 2 ≡ i)
field_bits u b l e t i others u_le b_le l_le e_le t_le i_le =
    (omega arith, omega arith, omega arith, omega arith, omega arith, omega arith)

-- The parts of the table behind each flag.
abbrev below_link : List (ℕ × Str)
below_link = (32, 73 ∷ 71 ∷ 77 ∷ 80 ∷ []) ∷ []

abbrev below_ethernet : List (ℕ × Str)
below_ethernet = (4, 76 ∷ 73 ∷ 78 ∷ 75 ∷ []) ∷ below_link

abbrev below_etharp : List (ℕ × Str)
below_etharp = (16, 69 ∷ 84 ∷ 72 ∷ []) ∷ below_ethernet

abbrev below_broadcast : List (ℕ × Str)
below_broadcast = (8, 69 ∷ 84 ∷ 72 ∷ 95 ∷ 65 ∷ 82 ∷ 80 ∷ []) ∷ below_etharp

abbrev below_up : List (ℕ × Str)
below_up = (2, 66 ∷ 82 ∷ 79 ∷ 65 ∷ 68 ∷ 67 ∷ 65 ∷ 83 ∷ 84 ∷ []) ∷ below_broadcast

-- __str__ names exactly the flags that are set, in a fixed order, whatever the other bits.
pub set_names-names_of : (b : FlagBits) → set_names (field_of b) flag_names ≡ names_of b
set_names-names_of b =
    let n = field_of b in
    let (up, broadcast, link_up, etharp, ethernet, igmp) =
      field_bits (bit b.up) (bit b.broadcast) (bit b.link_up) (bit b.etharp) (bit b.ethernet)
        (bit b.igmp) b.others (bit-le b.up) (bit-le b.broadcast) (bit-le b.link_up)
        (bit-le b.etharp) (bit-le b.ethernet) (bit-le b.igmp) in
    set_names-cons n 1 _ below_up b.up _ up (
      set_names-cons n 2 _ below_broadcast b.broadcast _ broadcast (
        set_names-cons n 8 _ below_etharp b.etharp _ etharp (
          set_names-cons n 16 _ below_ethernet b.ethernet _ ethernet (
            set_names-cons n 4 _ below_link b.link_up _ link_up
              (set_names-cons n 32 _ [] b.igmp _ igmp refl)))))
