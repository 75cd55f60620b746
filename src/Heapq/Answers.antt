-- ===== src/Heapq/Answers.antt =====
-- Where any two items compare without a TypeError, heappush and heappop return.
use mathlib.Core.Path.{subst}
use mathlib.Core.HLevel.{×_prop, Π_prop, ⊥_prop}
use mathlib.Core.List.{Perm, Pairwise, rel_of_Pairwise-cons}
use mathlib.Core.List.Perm
use mathlib.Core.List.Pairwise
use py_lwip.Prelude.{
  ℕ, zero, suc, ◌+◌, ◌*◌, ◌<◌, ◌≡◌, ◌≢◌, refl, Option, none, some, List, Bool, [], ◌∷◌, ◌++◌, inl,
  inr, length, get_elem?, swap, arith, Bool-cases, ◌==◌, ltb, get_elem?-some, perm_snoc,
  length-append, length-perm, dec_lt, get_elem?-mem, some-injective,
}
use py_lwip.Heapq.{
  Outcome, returned, items, parent, lt_at, siftdown, siftup, left_is_least, heappush, heappop, last,
  init,
}
use py_lwip.Heapq.Up.{raises, less, not_less, Answer-cases, siftdown-swap-perm}
use py_lwip.Heapq.Down.{child-perm, right_lt}
use py_lwip.Heapq.Ops.{last-cons-init-perm}

module _ {ℓ} {A : Type ℓ} (lt : A → A → Option Bool) where
  -- The two items compare, either way round.
  abbrev pub Answers : A → A → Type 0
  Answers a b = (lt a b ≢ none) × (lt b a ≢ none)

  abbrev pub AllAnswer : List A → Type ℓ
  AllAnswer = Pairwise Answers

  abbrev pub Returned : Outcome A → Type ℓ
  Returned o = o ≡ returned (items o)

  lt_at-Answers :
      (h : List A)
      → AllAnswer h
      → (i j : ℕ) → i < j
      → (a b : A) → get_elem? h i ≡ some a
      → get_elem? h j ≡ some b
      → Answers a b
  lt_at-Answers [] all i j before a b at_i at_j = cc
  lt_at-Answers (x ∷ h) all zero (suc j) before a b at_i at_j =
      subst (λ y. Answers y b) (some-injective x a at_i)
        (rel_of_Pairwise-cons all (get_elem?-mem h j b at_j))
  lt_at-Answers (x ∷ h) all (suc i) (suc j) before a b at_i at_j =
      lt_at-Answers h (Pairwise.of_cons all) i j (omega arith) a b at_i at_j
  lt_at-Answers (x ∷ h) all i zero before a b at_i at_j = elim before [ ]

  lt_at-ne-none :
      (h : List A) (i j : ℕ)
      → AllAnswer h
      → i ≢ j
      → i < length h
      → j < length h
      → lt_at lt h i j ≢ none
  unfolding lt_at
  lt_at-ne-none h i j all other hi hj e =
      let (a, at_i) = get_elem?-some h i hi in
      let (b, at_j) = get_elem?-some h j hj in
      elim (dec_lt i j) [
        | yes before ↦
            (lt_at-Answers h all i j before a b at_i at_j).0 (rw (at_i, at_j, lt_at) at e)
        | no after ↦
            (lt_at-Answers h all j i (omega arith) b a at_j at_i).1 (rw (at_i, at_j, lt_at) at e)
      ]

  pub AllAnswer-perm : {h h' : List A} → Perm h h' → AllAnswer h → AllAnswer h'
  AllAnswer-perm p =
      Perm.pairwise (λ a b. ×_prop (Π_prop λ e. ⊥_prop) (Π_prop λ e. ⊥_prop))
        (λ a b (ab, ba). (ba, ab)) p

  siftdown-returns :
      (fuel : ℕ) (h : List A) (p : ℕ) → AllAnswer h → p < length h → Returned (siftdown lt fuel h p)
  unfolding siftdown
  siftdown-returns zero h p all inside = refl
  siftdown-returns (suc fuel) h p all inside = elim (Bool-cases (p == 0)) [
    | inl e ↦ rw e refl
    | inr nz ↦ rw nz (elim (Answer-cases (lt_at lt h p (parent p))) [
      | raises e ↦ absurd (lt_at-ne-none h p (parent p) all (ground arith) inside (ground arith) e)
      | less e ↦
          let same = siftdown-swap-perm lt h p e nz in
          rw e (
            siftdown-returns fuel (swap h p (parent p)) (parent p)
              (AllAnswer-perm (Perm.symm same) all) (omega (arith, length-perm same)))
      | not_less e ↦ rw e refl
    ])
  ]

  left_is_least-ne-none : (h : List A) (p : ℕ) → AllAnswer h → left_is_least lt h p ≢ none
  unfolding left_is_least
  left_is_least-ne-none h p all e = elim (Bool-cases (ltb (2 * p + 2) (length h))) [
    | inl two ↦
        lt_at-ne-none h (2 * p + 1) (2 * p + 2) all (omega arith) (ground arith) (ground arith)
          (rw two at e)
    | inr one ↦ cc (rw one at e)
  ]

  siftup-returns :
      (fuel : ℕ) (h : List A) (p : ℕ) → AllAnswer h → p < length h → Returned (siftup lt fuel h p)
  unfolding siftup
  siftup-returns zero h p all inside = siftdown-returns p h p all inside
  siftup-returns (suc fuel) h p all inside = elim (Bool-cases (ltb (2 * p + 1) (length h))) [
    | inl inner ↦ rw inner (elim (Answer-cases (left_is_least lt h p)) [
      | raises e ↦ absurd (left_is_least-ne-none h p all e)
      | less e ↦
          let same = child-perm lt h p (2 * p + 1) (omega arith) (ground arith) in
          rw e (
            siftup-returns fuel (swap h p (2 * p + 1)) (2 * p + 1)
              (AllAnswer-perm (Perm.symm same) all) (ground (arith, length-perm same)))
      | not_less e ↦
          let same = child-perm lt h p (2 * p + 2) (omega arith) (right_lt lt h p e) in
          rw e (
            siftup-returns fuel (swap h p (2 * p + 2)) (2 * p + 2)
              (AllAnswer-perm (Perm.symm same) all)
              (omega (arith, length-perm same, right_lt lt h p e)))
    ])
    | inr leaf ↦ rw leaf (siftdown-returns p h p all inside)
  ]

  pub heappush-returns : (h : List A) (x : A) → AllAnswer (x ∷ h) → Returned (heappush lt h x)
  unfolding heappush
  heappush-returns h x all =
      siftdown-returns (length h) (h ++ x ∷ []) (length h)
        (AllAnswer-perm (Perm.symm (perm_snoc h x)) all) (omega (arith, length-append h (x ∷ [])))

  pub heappop-returns : (h : List A) → AllAnswer h → Returned (heappop lt h)
  unfolding heappop
  heappop-returns [] all = refl
  heappop-returns (x ∷ []) all = refl
  heappop-returns (x ∷ y ∷ h) all =
      siftup-returns (length (last y h ∷ init y h)) (last y h ∷ init y h) 0
        (AllAnswer-perm (Perm.symm (last-cons-init-perm y h)) (Pairwise.of_cons all)) (omega arith)
