-- ===== src/Prelude/Ran.antt =====
-- What a Python call does to the world it runs in: it returns a value, or raises an exception.
use mathlib.Core.Path.{◌≡◌, refl, sym, ◌∙◌}
use py_lwip.Prelude.Int.{ℤ}
use mathlib.Core.Logic.{◌⊎◌, inl, inr}
use mathlib.Core.List.{List, [], ◌∷◌, ◌++◌}

pub data Exception : Type 0 where
  key_error value_error type_error attribute_error stopped allocation_error other : Exception
  stack_exception : ℤ → Exception

pub data Ran (W A : Type 0) : Type 0 where
  done : W → A → Ran W A
  raised : W → Exception → Ran W A

module _ {W A B : Type 0} where
  abbrev pub and_then : Ran W A → (A → W → Ran W B) → Ran W B
  and_then (done w a) next = next a w
  and_then (raised w x) next = raised w x

module _ {W A B : Type 0} where
  pub and_then-same :
      (r : Ran W A) (f g : A → W → Ran W B)
      → ((a : A) (w : W) → f a w ≡ g a w)
      → and_then r f ≡ and_then r g
  and_then-same (done w a) f g same = same a w
  and_then-same (raised w x) f g same = refl

  pub and_then_assoc :
      {D : Type 0} (r : Ran W A) (f : A → W → Ran W B) (g : B → W → Ran W D)
      → and_then (and_then r f) g ≡ and_then r (λ a w. and_then (f a w) g)
  and_then_assoc (done w a) f g = refl
  and_then_assoc (raised w x) f g = refl

  pub and_then-done :
      (r : Ran W A) (next : A → W → Ran W B) (w : W) (b : B)
      → and_then r next ≡ done w b
      → (a : A) × (w₁ : W) × (r ≡ done w₁ a) × (next a w₁ ≡ done w b)
  and_then-done (done w₁ a) next w b h = (a, w₁, refl, h)
  and_then-done (raised w₁ x) next w b h = cc

  pub and_then-raised :
      (r : Ran W A) (next : A → W → Ran W B) (w : W) (x : Exception)
      → and_then r next ≡ raised w x
      → (r ≡ raised w x) ⊎ ((a : A) × (w₁ : W) × (r ≡ done w₁ a) × (next a w₁ ≡ raised w x))
  and_then-raised (done w₁ a) next w x h = inr (a, w₁, refl, h)
  and_then-raised (raised w₁ y) next w x h = inl cc

module _ {W : Type 0} where
  abbrev pub world_of : {A : Type 0} → Ran W A → W
  world_of (done w a) = w
  world_of (raised w x) = w

  -- One call after the other, up to the first that raises.
  abbrev pub run_all : List (W → Ran W (Unit {0})) → W → Ran W (Unit {0})
  run_all [] w = done w tt
  run_all (c ∷ cs) w = and_then (c w) (λ _ w'. run_all cs w')

  pub run_all-append :
      (cs ds : List (W → Ran W (Unit {0}))) (w : W)
      → run_all (cs ++ ds) w ≡ and_then (run_all cs w) (λ _ w'. run_all ds w')
  run_all-append [] ds w = refl
  run_all-append (c ∷ cs) ds w =
      and_then-same (c w) _ _ (λ _ w'. run_all-append cs ds w')
      ∙ sym (and_then_assoc (c w) (λ _ w'. run_all cs w') (λ _ w'. run_all ds w'))
