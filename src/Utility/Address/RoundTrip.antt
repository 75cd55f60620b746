-- ===== src/Utility/Address/RoundTrip.antt =====
-- Addresses in both directions.
use py_lwip.Prelude.{
  ℕ, ◌+◌, ◌*◌, ◌/◌, ◌%◌, ◌<◌, ◌≡◌, refl, ap, ◌∙◌, some, List, [], ◌∷◌, ◌++◌, arith,
}
use py_lwip.Prelude.Int.{pos}
use py_lwip.Utility.Address.{
  Str, dot, reversed, split, str, reduce_segments, int_ip_from_string, int_ip_to_string, join_dots,
}
use py_lwip.Utility.Address.Numerals.{AreDigits, int_of-str, str-AreDigits}
use py_lwip.Utility.Address.Bits.{joined-byte}

split-digits : (s : Str) → AreDigits s → split s ≡ s ∷ []
split-digits [] all = refl
split-digits (c ∷ cs) (d, all) = let rest = split-digits cs all in ground arith

split-segment : (s t : Str) → AreDigits s → split (s ++ dot ∷ t) ≡ s ∷ split t
split-segment [] t all = refl
split-segment (c ∷ cs) t (d, all) = let rest = split-segment cs t all in ground arith

-- The string of four numbers, and the address that they make.
abbrev pub dotted : ℕ → ℕ → ℕ → ℕ → Str
dotted a b c d = join_dots (str a ∷ str b ∷ str c ∷ str d ∷ [])

split-dotted : (a b c d : ℕ) → split (dotted a b c d) ≡ str a ∷ str b ∷ str c ∷ str d ∷ []
split-dotted a b c d =
    split-segment (str a) _ (str-AreDigits a)
    ∙ ap (λ r. str a ∷ r)
        (split-segment (str b) _ (str-AreDigits b)
          ∙ ap (λ r. str b ∷ r)
              (split-segment (str c) _ (str-AreDigits c)
                ∙ ap (λ r. str c ∷ r) (split-digits (str d) (str-AreDigits d))))

reduce-byte :
    (hi lo : ℕ) (ss : List Str)
    → lo < 256
    → reduce_segments (pos hi) (str lo ∷ ss) ≡ reduce_segments (pos (hi * 256 + lo)) ss
unfolding reduce_segments
reduce-byte hi lo ss byte =
    rw (int_of-str lo, reduce_segments) (ap (λ h. reduce_segments h ss) (joined-byte hi lo byte))

-- Four bytes in decimal are read as the address with the first byte lowest.
pub int_ip_from_string_lem :
    (a b c d : ℕ)
    → a < 256
    → b < 256
    → c < 256
    → d < 256
    → int_ip_from_string (dotted a b c d) ≡ some (pos (a + 256 * b + 65536 * c + 16777216 * d))
unfolding int_ip_from_string reduce_segments
int_ip_from_string_lem a b c d ha hb hc hd =
    ap (λ ss. reduce_segments (pos 0) (reversed ss)) (split-dotted a b c d)
    ∙ reduce-byte 0 d (str c ∷ str b ∷ str a ∷ []) hd
    ∙ reduce-byte (0 * 256 + d) c (str b ∷ str a ∷ []) hc
    ∙ reduce-byte ((0 * 256 + d) * 256 + c) b (str a ∷ []) hb
    ∙ reduce-byte (((0 * 256 + d) * 256 + c) * 256 + b) a [] ha
    ∙ ap (λ n. some (pos n)) (omega arith)

-- An address of 32 bits that int_ip_to_string prints is read back by int_ip_from_string.
pub int_ip_from_string-int_ip_to_string :
    (ip : ℕ) → ip < 4294967296 → int_ip_from_string (int_ip_to_string ip) ≡ some (pos ip)
unfolding int_ip_to_string
int_ip_from_string-int_ip_to_string ip h =
    int_ip_from_string_lem (ip % 256) (ip / 256 % 256) (ip / 65536 % 256) (ip / 16777216 % 256)
      (omega arith) (omega arith) (omega arith) (omega arith)
    ∙ ap (λ n. some (pos n)) (omega arith)

-- Four bytes in decimal are the string that int_ip_to_string prints for the address read from them.
pub int_ip_to_string-int_ip_from_string :
    (a b c d : ℕ)
    → a < 256
    → b < 256
    → c < 256
    → d < 256
    → (ip : ℕ) × (int_ip_from_string (dotted a b c d) ≡ some (pos ip))
      × (ip < 4294967296)
      × (int_ip_to_string ip ≡ dotted a b c d)
unfolding int_ip_to_string
int_ip_to_string-int_ip_from_string a b c d ha hb hc hd =
    let ip = a + 256 * b + 65536 * c + 16777216 * d in
    let first : ip % 256 ≡ a = omega arith in
    let second : ip / 256 % 256 ≡ b = omega arith in
    let third : ip / 65536 % 256 ≡ c = omega arith in
    let fourth : ip / 16777216 % 256 ≡ d = omega arith in
    (ip, int_ip_from_string_lem a b c d ha hb hc hd, omega arith, cc)
