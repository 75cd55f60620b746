-- ===== src/Prelude/Lists.antt =====
-- Lists measured and indexed by native numbers, under the library's names, with exchange of two
-- places and a predicate on all items.
use Prim.Native.Nat.{ℕ, zero, suc, ◌+◌, ◌≤◌, ◌<◌}
use mathlib.Core.Path.{◌≡◌, refl, ap, sym, subst, ◌∙◌}
use mathlib.Core.Logic.{◌≢◌, ∥∥₁_elim, ∥∥₁_map}
use native.Mathlib.Nat.{ℕ_set}
use mathlib.Core.List.{
  List, [], ◌∷◌, ◌++◌, Mem, Memᴰ, Perm, Permᴰ, perm_middle, append-nil, mem-cons_of_mem,
}
use mathlib.Core.List.Perm
use mathlib.Core.Option.{Option, none, some, some-injective}
use native.Mathlib.Omega.{arith}

module _ {ℓ} {A : Type ℓ} where
  abbrev pub length : List A → ℕ
  length [] = 0
  length (x ∷ xs) = suc (length xs)

  abbrev pub get_elem? : List A → ℕ → Option A
  get_elem? [] i = none
  get_elem? (x ∷ xs) zero = some x
  get_elem? (x ∷ xs) (suc i) = get_elem? xs i

  abbrev pub take : ℕ → List A → List A
  take zero xs = []
  take (suc n) [] = []
  take (suc n) (x ∷ xs) = x ∷ take n xs

  pub take-all : (n : ℕ) (xs : List A) → length xs ≤ n → take n xs ≡ xs
  take-all zero [] fits = refl
  take-all zero (x ∷ xs) fits = absurd (omega arith)
  take-all (suc n) [] fits = refl
  take-all (suc n) (x ∷ xs) fits = ap (λ r. x ∷ r) (take-all n xs (omega arith))

  pub length-take-le : (n : ℕ) (xs : List A) → length (take n xs) ≤ n
  length-take-le zero xs = omega arith
  length-take-le (suc n) [] = omega arith
  length-take-le (suc n) (x ∷ xs) = omega (arith, length-take-le n xs)

  -- A write out of bounds changes nothing.
  abbrev pub set : List A → ℕ → A → List A
  set [] i v = []
  set (x ∷ xs) zero v = v ∷ xs
  set (x ∷ xs) (suc i) v = x ∷ set xs i v

  pub length-append : (xs ys : List A) → length (xs ++ ys) ≡ length xs + length ys
  length-append [] ys = omega arith
  length-append (x ∷ xs) ys = omega (arith, length-append xs ys)

  pub length-set : (xs : List A) (i : ℕ) (v : A) → length (set xs i v) ≡ length xs
  length-set [] i v = refl
  length-set (x ∷ xs) zero v = refl
  length-set (x ∷ xs) (suc i) v = ap suc (length-set xs i v)

  pub get_elem?-set_self :
      (xs : List A) (i : ℕ) (v : A) → i < length xs → get_elem? (set xs i v) i ≡ some v
  get_elem?-set_self [] i v h = elim h [ ]
  get_elem?-set_self (x ∷ xs) zero v h = refl
  get_elem?-set_self (x ∷ xs) (suc i) v h = get_elem?-set_self xs i v (omega arith)

  pub get_elem?-set_ne :
      (xs : List A) (i j : ℕ) (v : A) → i ≢ j → get_elem? (set xs i v) j ≡ get_elem? xs j
  get_elem?-set_ne [] i j v h = refl
  get_elem?-set_ne (x ∷ xs) zero zero v h = absurd (h refl)
  get_elem?-set_ne (x ∷ xs) zero (suc j) v h = refl
  get_elem?-set_ne (x ∷ xs) (suc i) zero v h = refl
  get_elem?-set_ne (x ∷ xs) (suc i) (suc j) v h = get_elem?-set_ne xs i j v (λ e. h (ap suc e))

  pub get_elem?-some : (xs : List A) (i : ℕ) → i < length xs → (a : A) × (get_elem? xs i ≡ some a)
  get_elem?-some [] i h = elim h [ ]
  get_elem?-some (x ∷ xs) zero h = (x, refl)
  get_elem?-some (x ∷ xs) (suc i) h = get_elem?-some xs i (omega arith)

  pub get_elem?-lt : (xs : List A) (i : ℕ) (a : A) → get_elem? xs i ≡ some a → i < length xs
  get_elem?-lt [] i a h = cc
  get_elem?-lt (x ∷ xs) zero a h = omega arith
  get_elem?-lt (x ∷ xs) (suc i) a h = omega (arith, get_elem?-lt xs i a h)

  pub get_elem?-none : (xs : List A) (i : ℕ) → length xs ≤ i → get_elem? xs i ≡ none
  get_elem?-none [] i h = refl
  get_elem?-none (x ∷ xs) zero h = elim h [ ]
  get_elem?-none (x ∷ xs) (suc i) h = get_elem?-none xs i (omega arith)

  pub get_elem?-none-le : (xs : List A) (i : ℕ) → get_elem? xs i ≡ none → length xs ≤ i
  get_elem?-none-le [] i h = omega arith
  get_elem?-none-le (x ∷ xs) zero h = cc
  get_elem?-none-le (x ∷ xs) (suc i) h = omega (arith, get_elem?-none-le xs i h)

  Memᴰ-get_elem? : (xs : List A) (a : A) → Memᴰ a xs → (i : ℕ) × (get_elem? xs i ≡ some a)
  Memᴰ-get_elem? [] a m = elim m [ ]
  Memᴰ-get_elem? (x ∷ xs) a (Memᴰ.head e) = (0, cc)
  Memᴰ-get_elem? (x ∷ xs) a (Memᴰ.tail m) = let (i, at) = Memᴰ-get_elem? xs a m in (suc i, at)

  -- A member stands at some place, and what stands at a place is a member.
  pub mem-get_elem? : (xs : List A) (a : A) → Mem a xs → ∥ ((i : ℕ) × (get_elem? xs i ≡ some a)) ∥₁
  mem-get_elem? xs a m = ∥∥₁_map m (Memᴰ-get_elem? xs a)

  pub get_elem?-mem : (xs : List A) (i : ℕ) (a : A) → get_elem? xs i ≡ some a → Mem a xs
  get_elem?-mem [] i a h = cc
  get_elem?-mem (x ∷ xs) zero a h = ∣ Memᴰ.head (sym (some-injective x a h)) ∣₁
  get_elem?-mem (x ∷ xs) (suc i) a h = mem-cons_of_mem x (get_elem?-mem xs i a h)

  pub get_elem?-snoc : (xs : List A) (x : A) → get_elem? (xs ++ x ∷ []) (length xs) ≡ some x
  get_elem?-snoc [] x = refl
  get_elem?-snoc (y ∷ xs) x = get_elem?-snoc xs x

  pub get_elem?-append_left :
      (xs ys : List A) (i : ℕ) → i < length xs → get_elem? (xs ++ ys) i ≡ get_elem? xs i
  get_elem?-append_left [] ys i h = elim h [ ]
  get_elem?-append_left (x ∷ xs) ys zero h = refl
  get_elem?-append_left (x ∷ xs) ys (suc i) h = get_elem?-append_left xs ys i (omega arith)

  pub perm_snoc : (xs : List A) (x : A) → Perm (xs ++ x ∷ []) (x ∷ xs)
  perm_snoc xs x = rw (append-nil xs) at (perm_middle {a = x} xs [])

  same_length : (xs ys : List A) → Permᴰ xs ys → length xs ≡ length ys
  same_length xs ys (Permᴰ.trans one two) = omega (arith, same_length _ _ one, same_length _ _ two)
  same_length xs ys (Permᴰ.swap a b) = omega arith
  same_length xs ys (Permᴰ.cons a rest) = omega (arith, same_length _ _ rest)
  same_length xs ys Permᴰ.nil = omega arith

  pub length-perm : {xs ys : List A} → Perm xs ys → length xs ≡ length ys
  length-perm {xs} {ys} p = ∥∥₁_elim p (ℕ_set _ _) (same_length xs ys)

  -- A write trades the old item for the new one.
  pub set-perm :
      (xs : List A) (i : ℕ) (a v : A) → get_elem? xs i ≡ some a → Perm (a ∷ set xs i v) (v ∷ xs)
  set-perm [] i a v h = cc
  set-perm (x ∷ xs) zero a v h =
      subst (λ y. Perm (y ∷ v ∷ xs) (v ∷ x ∷ xs)) (some-injective x a h) (Perm.swap v x xs)
  set-perm (x ∷ xs) (suc i) a v h =
      Perm.trans (Perm.swap x a _)
        (Perm.trans (Perm.cons x (set-perm xs i a v h)) (Perm.swap v x xs))

  -- Exchange of two places; a place out of bounds changes nothing.
  unfoldable pub swap : List A → ℕ → ℕ → List A
  swap xs i j = elim (get_elem? xs i) [
    | none ↦ xs
    | some a ↦ elim (get_elem? xs j) [ none ↦ xs | some b ↦ set (set xs i b) j a ]
  ]

  module _ (xs : List A) (i j : ℕ) (a b : A) (at_i : get_elem? xs i ≡ some a)
      (at_j : get_elem? xs j ≡ some b) where
    swap_some : swap xs i j ≡ set (set xs i b) j a
    unfolding swap
    swap_some = ground arith

    pub length-swap : length (swap xs i j) ≡ length xs
    length-swap = rw (swap_some, length-set, length-set)

    pub get_elem?-swap_right : get_elem? (swap xs i j) j ≡ some a
    get_elem?-swap_right = rw swap_some (
        get_elem?-set_self (set xs i b) j a
          (omega (arith, length-set xs i b, get_elem?-lt xs j b at_j)))

    pub get_elem?-swap_left : i ≢ j → get_elem? (swap xs i j) i ≡ some b
    get_elem?-swap_left other =
        rw (swap_some, get_elem?-set_ne (set xs i b) j i a (λ e. other (sym e)))
          (get_elem?-set_self xs i b (get_elem?-lt xs i a at_i))

    pub get_elem?-swap_ne : (k : ℕ) → k ≢ i → k ≢ j → get_elem? (swap xs i j) k ≡ get_elem? xs k
    get_elem?-swap_ne k ni nj =
        rw (swap_some, get_elem?-set_ne (set xs i b) j k a (λ e. nj (sym e)))
          (get_elem?-set_ne xs i k b (λ e. ni (sym e)))

    pub swap-perm : i ≢ j → Perm (swap xs i j) xs
    swap-perm other =
        let moved = set-perm xs i a b at_i in
        let still = get_elem?-set_ne xs i j b other ∙ at_j in
        rw swap_some (Perm.cons_inv (Perm.trans (set-perm (set xs i b) j b a still) moved))
