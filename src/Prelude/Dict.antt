-- ===== src/Prelude/Dict.antt =====
-- Python's dict, as the list of its entries in the order in which their keys came in.
use mathlib.Core.Path.{◌≡◌, refl, ap, ◌∙◌}
use mathlib.Core.Logic.{◌≢◌, inl, inr}
use mathlib.Core.Bool.{Bool, true, false, ◌&&◌}
use mathlib.Core.Option.{Option, none, some}
use mathlib.Core.List.{List, [], ◌∷◌}
use native.Mathlib.Omega.{arith}
use Prim.Native.Nat.{ℕ}
use py_lwip.Prelude.Tests.{◌==◌, if◌then◌else◌, Bool-cases}

-- Strings are lists of character codes.
abbrev pub Str : Type 0
Str = List ℕ

abbrev pub same_str : Str → Str → Bool
same_str [] [] = true
same_str [] (d ∷ ds) = false
same_str (c ∷ cs) [] = false
same_str (c ∷ cs) (d ∷ ds) = (c == d) && same_str cs ds

abbrev pub Dict {ℓ} : Type ℓ → Type ℓ
Dict A = List (Str × A)

module _ {ℓ} {A : Type ℓ} where
  -- `none` is KeyError.
  abbrev pub lookup : Dict A → Str → Option A
  lookup [] k = none
  lookup ((k', a) ∷ d) k = if same_str k' k then some a else lookup d k

  -- A key that is there keeps its place.
  abbrev pub insert : Dict A → Str → A → Dict A
  insert [] k a = (k, a) ∷ []
  insert ((k', a') ∷ d) k a =
      let rest = insert d k a in if same_str k' k then (k', a) ∷ d else (k', a') ∷ rest

  abbrev pub values : Dict A → List A
  values [] = []
  values ((k, a) ∷ d) = a ∷ values d

pub same_str_refl : (s : Str) → same_str s s ≡ true
same_str_refl [] = refl
same_str_refl (c ∷ cs) = let rest = same_str_refl cs in ground arith

pub same_str-eq : (s t : Str) → same_str s t ≡ true → s ≡ t
same_str-eq [] [] h = refl
same_str-eq [] (d ∷ ds) h = cc
same_str-eq (c ∷ cs) [] h = cc
same_str-eq (c ∷ cs) (d ∷ ds) h = let rest = same_str-eq cs ds in grind arith

same_str-ne : (s t : Str) → s ≢ t → same_str s t ≡ false
same_str-ne s t other = elim (Bool-cases (same_str s t)) [
  | inl h ↦ absurd (other (same_str-eq s t h))
  | inr h ↦ h
]

module _ {ℓ} {A : Type ℓ} where
  pub lookup-insert_self : (d : Dict A) (k : Str) (a : A) → lookup (insert d k a) k ≡ some a
  lookup-insert_self [] k a = let same = same_str_refl k in ground arith
  lookup-insert_self ((k', a') ∷ d) k a = let rest = lookup-insert_self d k a in ground arith

  pub lookup-insert_ne :
      (d : Dict A) (k j : Str) (a : A) → k ≢ j → lookup (insert d k a) j ≡ lookup d j
  lookup-insert_ne [] k j a other = rw (same_str-ne k j other)
  lookup-insert_ne ((k', a') ∷ d) k j a other = elim (Bool-cases (same_str k' k)) [
    | inl h ↦
        let miss = ap (λ s. same_str s j) (same_str-eq k' k h) ∙ same_str-ne k j other in
        rw (h, miss)
    | inr h ↦ let rest = lookup-insert_ne d k j a other in rw (h, rest)
  ]
