-- ===== src/Utility/Address/Bits.antt =====
-- The bitwise or of numbers that share no bit is their sum.
use py_lwip.Prelude.{ℕ, zero, suc, ◌+◌, ◌*◌, ◌/◌, ◌%◌, ◌≤◌, ◌<◌, ◌≡◌, ap, ◌∙◌, arith}
use py_lwip.Prelude.Int.{pos}
use py_lwip.Utility.Address.{bitwise, or_bit, joined}

-- l has at most j bits.
abbrev Fits : (j l : ℕ) → Type 0
Fits zero l = l ≡ 0
Fits (suc j) l = Fits j (l / 2)

-- The j lowest bits of a are clear.
abbrev Clear : (j a : ℕ) → Type 0
Clear zero a = Unit
Clear (suc j) a = (a % 2 ≡ 0) × Clear j (a / 2)

or-zero : (fuel a : ℕ) → a ≤ fuel → bitwise or_bit fuel a 0 ≡ a
unfolding bitwise
or-zero zero a enough = omega arith
or-zero (suc fuel) a enough = let rest = or-zero fuel (a / 2) (omega arith) in ground arith

or-disjoint :
    (fuel j a l : ℕ) → a + l ≤ fuel → Clear j a → Fits j l → bitwise or_bit fuel a l ≡ a + l
unfolding bitwise
or-disjoint zero j a l enough clear fits = omega arith
or-disjoint (suc fuel) zero a l enough clear fits =
    ap (bitwise or_bit (suc fuel) a) fits ∙ or-zero (suc fuel) a (omega arith) ∙ omega arith
or-disjoint (suc fuel) (suc j) a l enough (even, clear) fits =
    let rest = or-disjoint fuel j (a / 2) (l / 2) (omega arith) clear fits in ground arith

pub joined-byte : (h l : ℕ) → l < 256 → joined (pos h) (pos l) ≡ pos (h * 256 + l)
joined-byte h l byte =
    ap pos (or-disjoint (h * 256 + l) 8 (h * 256) l (omega arith) (omega arith) (omega arith))
