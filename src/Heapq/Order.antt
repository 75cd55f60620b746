-- ===== src/Heapq/Order.antt =====
-- The order behind the comparisons, and the heap property.
use mathlib.Core.Logic.{∥∥₁_elim}
use mathlib.Core.List.{Mem}
use py_lwip.Prelude.{
  ℕ, zero, suc, ◌<◌, ◌≤◌, ◌≡◌, Option, none, some, List, ◌∷◌, Bool, true, false, inl, inr,
  get_elem?, arith, Option-cases, get_elem?-none, get_elem?-none-le, mem-get_elem?,
}
use py_lwip.Heapq.{parent}

-- What a comparison tells: with the answer true the first item is before the second, with false
-- the second is before the first. Nothing is said of a comparison that raises.
pub record Comparison {ℓ} {A : Type ℓ} (lt : A → A → Option Bool) : Type (ℓ + 1) where
  pub Le : A → A → Type ℓ
  pub le_refl : (a : A) → Le a a
  pub le_trans : (a b c : A) → Le a b → Le b c → Le a c
  pub lt_true : (a b : A) → lt a b ≡ some true → Le a b
  pub lt_false : (a b : A) → lt a b ≡ some false → Le b a
  pub le_prop : (a b : A) → IsProp (Le a b)

module _ {ℓ} {A : Type ℓ} {lt : A → A → Option Bool} (order : Comparison lt) where
  open order use {Le, le_refl, le_trans}

  -- The order at two places; a place out of bounds is in order with every other.
  abbrev pub LeAt : Option A → Option A → Type ℓ
  LeAt none b = Unit
  LeAt (some a) none = Unit
  LeAt (some a) (some b) = Le a b

  pub LeAt-none : (o : Option A) → LeAt o none
  LeAt-none none = tt
  LeAt-none (some a) = tt

  pub LeAt-refl : (o : Option A) → LeAt o o
  LeAt-refl none = tt
  LeAt-refl (some a) = le_refl a

  pub LeAt-trans :
      (o : Option A) (b : A) (p : Option A) → LeAt o (some b) → LeAt (some b) p → LeAt o p
  LeAt-trans none b p h k = tt
  LeAt-trans (some a) b none h k = tt
  LeAt-trans (some a) b (some c) h k = le_trans a b c h k

  -- No item is before its parent.
  abbrev pub IsHeap : List A → Type ℓ
  IsHeap h = (c : ℕ) → 0 < c → LeAt (get_elem? h (parent c)) (get_elem? h c)

  root_le :
      (x : A) (h : List A)
      → IsHeap (x ∷ h)
      → (n i : ℕ) → i ≤ n
      → LeAt (some x) (get_elem? (x ∷ h) i)
  root_le x h heap n zero below = le_refl x
  root_le x h heap zero (suc i) below = absurd (omega arith)
  root_le x h heap (suc n) (suc i) below =
      let above = root_le x h heap n (parent (suc i)) (omega arith) in
      let edge = heap (suc i) (omega arith) in
      elim (Option-cases (get_elem? (x ∷ h) (parent (suc i)))) [
        | inl out ↦ rw (get_elem?-none h i (omega (arith, get_elem?-none-le (x ∷ h) _ out))) tt
        | inr (m, at_m) ↦ LeAt-trans (some x) m (get_elem? h i) (rw at_m at above) (rw at_m at edge)
      ]

  -- The first item of a heap is before every item.
  pub root_least : (x : A) (h : List A) → IsHeap (x ∷ h) → (a : A) → Mem a (x ∷ h) → Le x a
  root_least x h heap a m =
      ∥∥₁_elim (mem-get_elem? (x ∷ h) a m) (order.le_prop x a)
        (λ (i, at_i). rw at_i at (root_le x h heap i i (omega arith)))
