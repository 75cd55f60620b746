-- ===== src/Prelude/Totals.antt =====
-- Sums over a list: of a weight that each item has, such as 1 for those that pass a test.
use mathlib.Core.Path.{◌≡◌, refl, ◌∙◌}
use mathlib.Core.Logic.{∥∥₁_elim}
use mathlib.Core.List.{List, [], ◌∷◌, ◌++◌, Perm, Permᴰ}
use native.Mathlib.Omega.{arith}
use native.Mathlib.Nat.{ℕ_set}
use Prim.Native.Nat.{ℕ, ◌+◌}

module _ {A : Type 0} (weight : A → ℕ) where
  abbrev pub total : List A → ℕ
  total [] = 0
  total (x ∷ xs) = weight x + total xs

  pub total-append : (xs ys : List A) → total (xs ++ ys) ≡ total xs + total ys
  total-append [] ys = omega arith
  total-append (x ∷ xs) ys = omega (arith, total-append xs ys)

  Permᴰ-total : {xs ys : List A} → Permᴰ xs ys → total xs ≡ total ys
  Permᴰ-total Permᴰ.nil = refl
  Permᴰ-total (Permᴰ.cons {a = x} {b = y} e p) = ground (arith, Permᴰ-total p)
  Permᴰ-total (Permᴰ.swap e e') = ground arith
  Permᴰ-total (Permᴰ.trans p q) = Permᴰ-total p ∙ Permᴰ-total q

  pub total-perm : {xs ys : List A} → Perm xs ys → total xs ≡ total ys
  total-perm p = ∥∥₁_elim p (ℕ_set _ _) Permᴰ-total
