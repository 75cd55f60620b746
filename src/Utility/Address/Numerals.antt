-- ===== src/Utility/Address/Numerals.antt =====
-- Numbers in decimal: what str prints, int reads.
use mathlib.Core.Path.{subst}
use py_lwip.Prelude.{
  ℕ, zero, suc, ◌+◌, ◌-◌, ◌*◌, ◌/◌, ◌%◌, ◌≤◌, ◌≡◌, sym, ap, ◌∙◌, Bool, true, false, some, [], ◌∷◌,
  ◌++◌, ltb, inl, inr, Bool-cases, arith,
}
use py_lwip.Prelude.Int.{pos}
use py_lwip.Utility.Address.{Str, int_digits, int_of, decimal, str}

abbrev pub IsDigit : ℕ → Type 0
IsDigit c = (48 ≤ c) × (c ≤ 57)

abbrev pub AreDigits : Str → Type 0
AreDigits [] = Unit
AreDigits (c ∷ cs) = IsDigit c × AreDigits cs

AreDigits-snoc : (xs : Str) (c : ℕ) → AreDigits xs → IsDigit c → AreDigits (xs ++ c ∷ [])
AreDigits-snoc [] c all d = (d, tt)
AreDigits-snoc (x ∷ xs) c (d', all) d = (d', AreDigits-snoc xs c all d)

int_digits-cons :
    (c : ℕ) (cs : Str) (value : ℕ) (after : Bool)
    → IsDigit c
    → int_digits (c ∷ cs) value after ≡ int_digits cs (value * 10 + (c - 48)) true
unfolding int_digits
int_digits-cons c cs value after d = ground arith

-- One more digit behind the others.
int_digits-snoc :
    (xs : Str) (c value : ℕ) (after : Bool) (n : ℕ)
    → AreDigits xs
    → IsDigit c
    → int_digits xs value after ≡ some n
    → int_digits (xs ++ c ∷ []) value after ≡ some (n * 10 + (c - 48))
unfolding int_digits
int_digits-snoc [] c value after n all d h = ground arith
int_digits-snoc (x ∷ xs) c value after n (d', all) d h =
    int_digits-cons x (xs ++ c ∷ []) value after d'
    ∙ int_digits-snoc xs c (value * 10 + (x - 48)) true n all d
        (sym (int_digits-cons x xs value after d') ∙ h)

decimal-small : (fuel n : ℕ) → ltb n 10 ≡ true → decimal (suc fuel) n ≡ (48 + n) ∷ []
unfolding decimal
decimal-small fuel n small = rw (small, decimal)

decimal-large :
    (fuel n : ℕ)
    → ltb n 10 ≡ false
    → decimal (suc fuel) n ≡ decimal fuel (n / 10) ++ (48 + n % 10) ∷ []
unfolding decimal
decimal-large fuel n large = rw (large, decimal)

decimal-AreDigits : (fuel n : ℕ) → n ≤ fuel → AreDigits (decimal fuel n)
unfolding decimal
decimal-AreDigits zero n enough = (omega arith, tt)
decimal-AreDigits (suc fuel) n enough = elim (Bool-cases (ltb n 10)) [
  | inl small ↦ subst AreDigits (sym (decimal-small fuel n small)) (ground arith, tt)
  | inr large ↦ subst AreDigits (sym (decimal-large fuel n large)) (
      AreDigits-snoc (decimal fuel (n / 10)) (48 + n % 10)
        (decimal-AreDigits fuel (n / 10) (omega arith)) (omega arith))
]

int_digits-decimal : (fuel n : ℕ) → n ≤ fuel → int_digits (decimal fuel n) 0 false ≡ some n
unfolding decimal int_digits
int_digits-decimal zero n enough = ground arith
int_digits-decimal (suc fuel) n enough = elim (Bool-cases (ltb n 10)) [
  | inl small ↦ ap (λ s. int_digits s 0 false) (decimal-small fuel n small) ∙ ground arith
  | inr large ↦
      ap (λ s. int_digits s 0 false) (decimal-large fuel n large)
      ∙ int_digits-snoc (decimal fuel (n / 10)) (48 + n % 10) 0 false (n / 10)
          (decimal-AreDigits fuel (n / 10) (omega arith)) (omega arith)
          (int_digits-decimal fuel (n / 10) (omega arith))
      ∙ ap some (omega arith)
]

int_of-digits :
    (s : Str) (n : ℕ) → AreDigits s → int_digits s 0 false ≡ some n → int_of s ≡ some (pos n)
unfolding int_of
int_of-digits [] n all h = cc
int_of-digits (c ∷ cs) n (d, all) h = ground arith

-- What str prints, int reads.
pub int_of-str : (n : ℕ) → int_of (str n) ≡ some (pos n)
int_of-str n =
    int_of-digits (str n) n (decimal-AreDigits n n (omega arith))
      (int_digits-decimal n n (omega arith))

pub str-AreDigits : (n : ℕ) → AreDigits (str n)
str-AreDigits n = decimal-AreDigits n n (omega arith)
