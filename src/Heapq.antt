-- ===== src/Heapq.antt =====
-- Python's heapq on a list, as CPython's `_heapq` runs it: items change places pair by pair, so
-- that a comparison that raises leaves the list with the items that it had.
pub mod Order
pub mod Up
pub mod Down
pub mod Ops
pub mod Answers
use py_lwip.Prelude.{
  ℕ, zero, suc, ◌+◌, ◌-◌, ◌*◌, ◌/◌, Option, none, some, List, [], ◌∷◌, ◌++◌, Bool, true, false,
  length, get_elem?, swap, ltb, ◌==◌, if◌then◌else◌,
}

-- The list after a call, and whether the call returned or a comparison raised TypeError.
pub data Outcome {ℓ} (A : Type ℓ) : Type ℓ where
  returned : List A → Outcome A
  type_error : List A → Outcome A

abbrev pub items {ℓ} : {A : Type ℓ} → Outcome A → List A
items (returned h) = h
items (type_error h) = h

abbrev pub parent : ℕ → ℕ
parent pos = (pos - 1) / 2

-- The last item of a list with the first item `x`, and the items before it.
abbrev pub last {ℓ} : {A : Type ℓ} → A → List A → A
last x [] = x
last x (y ∷ h) = last y h

abbrev pub init {ℓ} : {A : Type ℓ} → A → List A → List A
init x [] = []
init x (y ∷ h) = x ∷ init y h

-- What follows on the answer of a comparison; one that raises ends the call.
abbrev pub on_answer {ℓ} : {A : Type ℓ} → Option Bool → List A → Outcome A → Outcome A → Outcome A
on_answer none h x y = type_error h
on_answer (some true) h x y = x
on_answer (some false) h x y = y

-- `lt a b` is `a < b` as Python evaluates it; `none` is a TypeError.
module _ {ℓ} {A : Type ℓ} (lt : A → A → Option Bool) where
  -- The comparison of the items at two places.
  unfoldable pub lt_at : List A → ℕ → ℕ → Option Bool
  lt_at h i j = elim (get_elem? h i) [
    | none ↦ none
    | some a ↦ elim (get_elem? h j) [ none ↦ none | some b ↦ lt a b ]
  ]

  -- The item at `pos` moves towards the root while it is less than its parent. Each round at
  -- least halves `pos`, so `pos` rounds are enough.
  unfoldable pub siftdown : (fuel : ℕ) → List A → (pos : ℕ) → Outcome A
  siftdown zero h pos = returned h
  siftdown (suc fuel) h pos =
      let rest = siftdown fuel (swap h pos (parent pos)) (parent pos) in
      if pos == 0 then returned h else on_answer (lt_at h pos (parent pos)) h rest (returned h)

  -- Whether the left child of `pos`, which has one, is the lesser or the only one.
  unfoldable pub left_is_least : List A → ℕ → Option Bool
  left_is_least h pos =
      if ltb (2 * pos + 2) (length h) then lt_at h (2 * pos + 1) (2 * pos + 2) else some true

  -- The item at `pos` moves down to a leaf, and from there towards the root. Each round at least
  -- doubles `pos`, so as many rounds as there are items are enough.
  unfoldable pub siftup : (fuel : ℕ) → List A → (pos : ℕ) → Outcome A
  siftup zero h pos = siftdown pos h pos
  siftup (suc fuel) h pos =
      let left = siftup fuel (swap h pos (2 * pos + 1)) (2 * pos + 1) in
      let right = siftup fuel (swap h pos (2 * pos + 2)) (2 * pos + 2) in
      if ltb (2 * pos + 1) (length h)
      then on_answer (left_is_least h pos) h left right
      else siftdown pos h pos

  unfoldable pub heappush : List A → A → Outcome A
  heappush h x = siftdown (length h) (h ++ x ∷ []) (length h)

  -- The last item takes the place of the first. (On an empty list heappop raises IndexError; the
  -- program calls it on a list with a first item, which it has read.)
  unfoldable pub heappop : List A → Outcome A
  heappop [] = returned []
  heappop (x ∷ []) = returned []
  heappop (x ∷ y ∷ h) = let rest = last y h ∷ init y h in siftup (length rest) rest 0
