-- ===== src/Prelude/Select.antt =====
-- The items of a list that pass a test.
use mathlib.Core.Path.{◌≡◌, refl, ap}
use mathlib.Core.Logic.{∥∥₁_elim, ∥∥₁_prop}
use mathlib.Core.Bool.{Bool, true, false}
use mathlib.Core.List.{List, [], ◌∷◌, ◌++◌, Mem, Perm, Permᴰ, mem-cons_self, mem-cons_of_mem}
use mathlib.Core.List.Perm
use py_lwip.Prelude.Tests.{if◌then◌else◌, Bool-cases}
use mathlib.Core.Logic.{inl, inr}
use mathlib.Core.Path.{subst}

module _ {A : Type 0} (test : A → Bool) where
  abbrev pub select : List A → List A
  select [] = []
  select (x ∷ xs) = let rest = select xs in if test x then x ∷ rest else rest

  pub select-append : (xs ys : List A) → select (xs ++ ys) ≡ select xs ++ select ys
  select-append [] ys = refl
  select-append (x ∷ xs) ys =
      let rest = select-append xs ys in
      elim (Bool-cases (test x)) [
        | inl passes ↦ rw passes (ap (λ r. x ∷ r) rest)
        | inr fails ↦ rw fails rest
      ]

  pub select-all : (xs : List A) → ((x : A) → Mem x xs → test x ≡ true) → select xs ≡ xs
  select-all [] all = refl
  select-all (x ∷ xs) all =
      rw (all x mem-cons_self)
        (ap (λ r. x ∷ r) (select-all xs (λ y m. all y (mem-cons_of_mem x m))))

  pub select-none : (xs : List A) → ((x : A) → Mem x xs → test x ≡ false) → select xs ≡ []
  select-none [] all = refl
  select-none (x ∷ xs) all =
      rw (all x mem-cons_self) (select-none xs (λ y m. all y (mem-cons_of_mem x m)))

  put_if : Bool → A → List A → List A
  put_if here x xs = if here then x ∷ xs else xs

  put_if-perm :
      (here : Bool) (x : A) {xs ys : List A}
      → Perm xs ys
      → Perm (put_if here x xs) (put_if here x ys)
  unfolding put_if
  put_if-perm true x p = Perm.cons x p
  put_if-perm false x p = p

  put_if-swap :
      (here there : Bool) (x y : A) (xs : List A)
      → Perm (put_if here x (put_if there y xs)) (put_if there y (put_if here x xs))
  unfolding put_if
  put_if-swap true true x y xs = Perm.swap y x xs
  put_if-swap true false x y xs = Perm.refl _
  put_if-swap false true x y xs = Perm.refl _
  put_if-swap false false x y xs = Perm.refl _

  Permᴰ-select : {xs ys : List A} → Permᴰ xs ys → Perm (select xs) (select ys)
  unfolding put_if
  Permᴰ-select Permᴰ.nil = Perm.refl []
  Permᴰ-select (Permᴰ.cons {a = x} {b = y} {l₁ = xs} {l₂ = ys} e p) =
      subst (λ z. Perm (select (x ∷ xs)) (select (z ∷ ys))) e
        (put_if-perm (test x) x (Permᴰ-select p))
  Permᴰ-select (Permᴰ.swap {a = x} {b = y} {a' = y'} {b' = x'} {l = xs} e e') =
      subst (λ z. Perm (select (x ∷ y ∷ xs)) (select (y' ∷ z ∷ xs))) e
        (subst (λ z. Perm (select (x ∷ y ∷ xs)) (select (z ∷ x ∷ xs))) e'
          (put_if-swap (test x) (test y) x y (select xs)))
  Permᴰ-select (Permᴰ.trans p q) = Perm.trans (Permᴰ-select p) (Permᴰ-select q)

  pub select-perm : {xs ys : List A} → Perm xs ys → Perm (select xs) (select ys)
  select-perm p = ∥∥₁_elim p ∥∥₁_prop Permᴰ-select
