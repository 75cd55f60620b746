-- ===== src/Utility/Address/Lengths.antt =====
-- How long the text of an address is.
use py_lwip.Prelude.{
  ℕ, zero, suc, ◌+◌, ◌/◌, ◌%◌, ◌≤◌, ◌<◌, ◌≡◌, refl, [], ◌∷◌, length, length-append, ltb, inl, inr,
  Bool-cases, true, false, arith,
}
use py_lwip.Utility.Address.{Str, dot, str, decimal, int_ip_to_string, join_dots}

decimal-short : (fuel n : ℕ) → n < 10 → length (decimal fuel n) ≡ 1
unfolding decimal
decimal-short zero n small = refl
decimal-short (suc fuel) n small = let s : ltb n 10 ≡ true = ground arith in rw (s, decimal) refl

decimal-more :
    (fuel n : ℕ) → 9 < n → length (decimal (suc fuel) n) ≡ length (decimal fuel (n / 10)) + 1
unfolding decimal
decimal-more fuel n large =
    let s : ltb n 10 ≡ false = ground arith in
    rw (s, decimal) (length-append (decimal fuel (n / 10)) _)

-- One digit more than the tenth, which there is fuel for.
decimal-next :
    (fuel n k : ℕ)
    → n ≤ fuel
    → 1 ≤ k
    → ((m : ℕ) (f : ℕ)
        → m ≤ f
        → m ≡ n / 10
        → 9 < n
        → (1 ≤ length (decimal f m)) × (length (decimal f m) ≤ k))
    → (1 ≤ length (decimal fuel n)) × (length (decimal fuel n) ≤ k + 1)
decimal-next zero n k enough some_digits tenth =
    let short = decimal-short zero n (omega arith) in omega arith
decimal-next (suc fuel) n k enough some_digits tenth = elim (Bool-cases (ltb n 10)) [
  | inl small ↦ let short = decimal-short (suc fuel) n (ground arith) in omega arith
  | inr large ↦
      let more : 9 < n = ground arith in
      let longer = decimal-more fuel n more in
      let rest = tenth (n / 10) fuel (omega arith) refl more in omega arith
]

-- A byte has one to three digits.
byte-length :
    (fuel n : ℕ)
    → n ≤ fuel
    → n < 256
    → (1 ≤ length (decimal fuel n)) × (length (decimal fuel n) ≤ 3)
byte-length fuel n enough byte =
    decimal-next fuel n 2 enough (omega arith) (λ m f enough' same more.
      decimal-next f m 1 enough' (omega arith)
        (λ l g enough'' same' more'. let short = decimal-short g l (omega arith) in omega arith))

str-length : (n : ℕ) → n < 256 → (1 ≤ length (str n)) × (length (str n) ≤ 3)
str-length n byte = byte-length n n (omega arith) byte

length-join_dots :
    (a b c d : Str)
    → length (join_dots (a ∷ b ∷ c ∷ d ∷ [])) ≡ length a + length b + length c + length d + 3
length-join_dots a b c d = omega (
  arith,
  length-append a (dot ∷ join_dots (b ∷ c ∷ d ∷ [])),
  length-append b (dot ∷ join_dots (c ∷ d ∷ [])),
  length-append c (dot ∷ d),
)

-- An address is printed in 7 to 15 characters, whatever its number.
pub int_ip_to_string-length :
    (ip : ℕ) → (7 ≤ length (int_ip_to_string ip)) × (length (int_ip_to_string ip) ≤ 15)
unfolding int_ip_to_string
int_ip_to_string-length ip =
    let a = str-length (ip % 256) (omega arith) in
    let b = str-length (ip / 256 % 256) (omega arith) in
    let c = str-length (ip / 65536 % 256) (omega arith) in
    let d = str-length (ip / 16777216 % 256) (omega arith) in
    let whole : length (int_ip_to_string ip)
        ≡ length (str (ip % 256))
          + length (str (ip / 256 % 256))
          + length (str (ip / 65536 % 256))
          + length (str (ip / 16777216 % 256))
          + 3 =
      length-join_dots (str (ip % 256)) (str (ip / 256 % 256)) (str (ip / 65536 % 256))
        (str (ip / 16777216 % 256)) in
    omega arith
