-- ===== src/Utility/Address.antt =====
-- lwip_py/utility/address_helpers.py, with the parts of Python's str and int that it uses. A
-- string is the list of its ASCII codes.
pub mod Numerals
pub mod Bits
pub mod RoundTrip
pub mod Lengths
use py_lwip.Prelude.{
  ℕ, zero, suc, ◌+◌, ◌-◌, ◌*◌, ◌/◌, ◌%◌, ◌≡◌, Bool, true, false, not, ◌&&◌, ◌||◌, Option, none,
  some, List, [], ◌∷◌, ◌++◌, ◌==◌, ltb, leb, if◌then◌else◌,
}
pub use py_lwip.Prelude.Dict.{Str}
use py_lwip.Prelude.Int.{ℤ, pos, negsuc}

abbrev pub dot : ℕ
dot = 46

abbrev pub is_digit : ℕ → Bool
is_digit c = leb 48 c && leb c 57

abbrev pub is_space : ℕ → Bool
is_space c = (leb 9 c && leb c 13) || (leb 28 c && leb c 32)

abbrev pub all_space : Str → Bool
all_space [] = true
all_space (c ∷ cs) = is_space c && all_space cs

-- The digits of an int literal: one underscore may stand between two digits, and spaces behind.
unfoldable pub int_digits : Str → (value : ℕ) → (after_digit : Bool) → Option ℕ
int_digits [] value after = if after then some value else none
int_digits (c ∷ cs) value after =
    let digit = int_digits cs (value * 10 + (c - 48)) true in
    let underscore = int_digits cs value false in
    if is_digit c
    then digit
    else if not after
    then none
    else if c == 95
    then underscore
    else if all_space (c ∷ cs)
    then some value
    else none

abbrev pub negate : ℕ → ℤ
negate zero = pos 0
negate (suc n) = negsuc n

abbrev pub positive : Option ℕ → Option ℤ
positive none = none
positive (some n) = some (pos n)

abbrev pub negative : Option ℕ → Option ℤ
negative none = none
negative (some n) = some (negate n)

-- Python's int of a string; `none` is ValueError.
unfoldable pub int_of : Str → Option ℤ
unfolding int_digits
int_of [] = none
int_of (c ∷ cs) =
    let later = int_of cs in
    if is_space c
    then later
    else if c == 43
    then positive (int_digits cs 0 false)
    else if c == 45
    then negative (int_digits cs 0 false)
    else positive (int_digits (c ∷ cs) 0 false)

abbrev pub to_first : ℕ → List Str → List Str
to_first c [] = (c ∷ []) ∷ []
to_first c (s ∷ ss) = (c ∷ s) ∷ ss

abbrev pub split : Str → List Str
split [] = [] ∷ []
split (c ∷ cs) = let rest = split cs in if c == dot then [] ∷ rest else to_first c rest

abbrev pub reversed {ℓ} : {A : Type ℓ} → List A → List A
reversed [] = []
reversed (x ∷ xs) = reversed xs ++ x ∷ []

-- Operations on bits, of numbers that are at most `fuel` together.
unfoldable pub bitwise : (ℕ → ℕ → ℕ) → (fuel : ℕ) → ℕ → ℕ → ℕ
bitwise op zero a b = 0
bitwise op (suc fuel) a b = elim (a + b == 0) [
  | true ↦ 0
  | false ↦ op (a % 2) (b % 2) + 2 * bitwise op fuel (a / 2) (b / 2)
]

abbrev pub or_bit : ℕ → ℕ → ℕ
or_bit x y = if x == 0 then y else 1

abbrev pub and_bit : ℕ → ℕ → ℕ
and_bit x y = if x == 0 then 0 else y

abbrev pub and_not_bit : ℕ → ℕ → ℕ
and_not_bit x y = if y == 0 then x else 0

-- `|` in two's complement, where `negsuc n` is the complement of n.
abbrev pub or_ℤ : ℤ → ℤ → ℤ
or_ℤ (pos a) (pos b) = pos (bitwise or_bit (a + b) a b)
or_ℤ (pos a) (negsuc n) = negsuc (bitwise and_not_bit (n + a) n a)
or_ℤ (negsuc n) (pos b) = negsuc (bitwise and_not_bit (n + b) n b)
or_ℤ (negsuc n) (negsuc m) = negsuc (bitwise and_bit (n + m) n m)

-- `<< 8`.
abbrev pub shift_left : ℤ → ℤ
shift_left (pos a) = pos (a * 256)
shift_left (negsuc n) = negsuc (n * 256 + 255)

abbrev pub joined : ℤ → ℤ → ℤ
joined hi lo = or_ℤ (shift_left hi) lo

-- `reduce` over `map int`; `map` is lazy, and nothing shows how far it came.
unfoldable pub reduce_segments : ℤ → List Str → Option ℤ
reduce_segments hi [] = some hi
reduce_segments hi (s ∷ ss) = elim (int_of s) [
  | none ↦ none
  | some lo ↦ reduce_segments (joined hi lo) ss
]

unfoldable pub int_ip_from_string : Str → Option ℤ
int_ip_from_string ip_string = reduce_segments (pos 0) (reversed (split ip_string))

-- Python's str of a number, in as many digits as `fuel` allows; n has at most n + 1.
unfoldable pub decimal : (fuel : ℕ) → ℕ → Str
decimal zero n = (48 + n % 10) ∷ []
decimal (suc fuel) n = elim (ltb n 10) [
  | true ↦ (48 + n) ∷ []
  | false ↦ decimal fuel (n / 10) ++ (48 + n % 10) ∷ []
]

abbrev pub str : ℕ → Str
str n = decimal n n

abbrev pub join_dots : List Str → Str
join_dots [] = []
join_dots (s ∷ []) = s
join_dots (s ∷ t ∷ ss) = s ++ dot ∷ join_dots (t ∷ ss)

-- `(ip_int >> shift) & 0xFF` for the four shifts.
unfoldable pub int_ip_to_string : ℕ → Str
int_ip_to_string ip_int = join_dots (
    str (ip_int % 256)
    ∷ str (ip_int / 256 % 256)
    ∷ str (ip_int / 65536 % 256)
    ∷ str (ip_int / 16777216 % 256)
    ∷ [])
