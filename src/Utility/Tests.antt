-- ===== src/Utility/Tests.antt =====
-- Addresses as strings, and the theorems about them at single addresses.
use py_lwip.Utility.Address.Lengths.{int_ip_to_string-length}
use py_lwip.Prelude.{length, ◌≤◌, ℕ, ◌≡◌, ◌<◌, refl, none, some, [], ◌∷◌, arith}
use py_lwip.Prelude.Int.{pos, negsuc}
use py_lwip.Utility.Address.{
  int_digits, int_of, bitwise, or_ℤ, reduce_segments, decimal, int_ip_from_string, int_ip_to_string,
}
use py_lwip.Utility.Address.RoundTrip.{
  dotted, int_ip_from_string-int_ip_to_string, int_ip_to_string-int_ip_from_string,
}

program : Unit {0}
unfolding int_digits int_of bitwise reduce_segments decimal int_ip_from_string int_ip_to_string
program = tt

-- '127.3.2.1'.
text : dotted 127 3 2 1 ≡ 49 ∷ 50 ∷ 55 ∷ 46 ∷ 51 ∷ 46 ∷ 50 ∷ 46 ∷ 49 ∷ []
unfolding program
text = refl

-- ' -1_0 ' is -10, and '1__0' is no number.
minus_ten : int_of (32 ∷ 45 ∷ 49 ∷ 95 ∷ 48 ∷ 32 ∷ []) ≡ some (negsuc 9)
unfolding program
minus_ten = refl

no_number : int_of (49 ∷ 95 ∷ 95 ∷ 48 ∷ []) ≡ none
unfolding program
no_number = refl

-- A segment over 255 runs into the next: '1.256' is 256 * 256 | 1.
overlap : int_ip_from_string (49 ∷ 46 ∷ 50 ∷ 53 ∷ 54 ∷ []) ≡ some (pos 65537)
unfolding program
overlap = refl

-- -2 | 5 is -1.
or_negative : or_ℤ (negsuc 1) (pos 5) ≡ negsuc 0
unfolding program
or_negative = refl

int_ip_from_string-int_ip_to_string_example :
    int_ip_from_string (int_ip_to_string 16909183) ≡ some (pos 16909183)
int_ip_from_string-int_ip_to_string_example =
    int_ip_from_string-int_ip_to_string 16909183 (omega arith)

int_ip_to_string-int_ip_from_string_example :
    (ip : ℕ) × (int_ip_from_string (dotted 127 3 2 1) ≡ some (pos ip))
    × (ip < 4294967296)
    × (int_ip_to_string ip ≡ dotted 127 3 2 1)
int_ip_to_string-int_ip_from_string_example =
    int_ip_to_string-int_ip_from_string 127 3 2 1 (omega arith) (omega arith) (omega arith)
      (omega arith)

int_ip_to_string-length_example :
    (7 ≤ length (int_ip_to_string 16909183)) × (length (int_ip_to_string 16909183) ≤ 15)
int_ip_to_string-length_example = int_ip_to_string-length 16909183
