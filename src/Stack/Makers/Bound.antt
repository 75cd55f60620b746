-- ===== src/Stack/Makers/Bound.antt =====
-- What calls of wrap_function leave: function objects with the types asked for.
use py_lwip.Prelude.{
  ℕ, ◌≤◌, ◌<◌, ◌≡◌, refl, ◌∙◌, Bool, true, false, List, [], ◌∷◌, if◌then◌else◌, inl, inr,
  Bool-cases, arith,
}
use py_lwip.Prelude.Ran.{Ran, done, raised, and_then, attribute_error}
use py_lwip.Utility.Ctypes.{
  FunctionWrapper, Ctypes, Signature, wrap_function, wrap_functions, get_function, set_restype,
  set_argtypes,
}

module _ {Name : Type 0} where
  -- The function objects of s are in t as they are.
  pub record Agrees (s t : Ctypes Name) : Type 0 where
    pub grows : s.next_function ≤ t.next_function
    pub kept : (k : ℕ) → k < s.next_function → t.functions k ≡ s.functions k

  abbrev pub wrapper_of : ℕ → Signature Name → FunctionWrapper Name
  wrapper_of lib c = record {
    library = lib;
    func_name = c.func_name;
    restype = c.res_type;
    argtypes = c.arg_types;
  }

  -- The wrappers ks are of these functions of the library, with these types.
  pub Bound : Ctypes Name → ℕ → List (Signature Name) → List ℕ → Type 0
  Bound s lib [] [] = Unit
  Bound s lib [] (k ∷ ks) = ⊥
  Bound s lib (c ∷ cs) [] = ⊥
  Bound s lib (c ∷ cs) (k ∷ ks) =
      (k < s.next_function) × (s.functions k ≡ wrapper_of lib c) × Bound s lib cs ks

  pub Agrees-refl : (s : Ctypes Name) → Agrees s s
  Agrees-refl s = record { grows = omega arith; kept = λ k below. refl }

  pub Agrees-trans : (s t u : Ctypes Name) → Agrees s t → Agrees t u → Agrees s u
  Agrees-trans s t u a b = record {
    grows = let x = a.grows in let y = b.grows in omega arith;
    kept = λ k below. b.kept k (let x = a.grows in omega arith) ∙ a.kept k below;
  }

  pub Bound-Agrees :
      (s t : Ctypes Name) (lib : ℕ) (cs : List (Signature Name)) (ks : List ℕ)
      → Agrees s t
      → Bound s lib cs ks
      → Bound t lib cs ks
  unfolding Bound
  Bound-Agrees s t lib [] [] a b = tt
  Bound-Agrees s t lib [] (k ∷ ks) a b = absurd b
  Bound-Agrees s t lib (c ∷ cs) [] a b = absurd b
  Bound-Agrees s t lib (c ∷ cs) (k ∷ ks) a (below, same, rest) =
      ((let x = a.grows in omega arith), a.kept k below ∙ same, Bound-Agrees s t lib cs ks a rest)

  module _ (exports : Name → Bool) where
    abbrev pub all_exported : List (Signature Name) → Bool
    all_exported [] = true
    all_exported (c ∷ cs) =
        let rest = all_exported cs in if exports c.func_name then rest else false

    -- Calls from s for these functions: they all succeed, or one is not exported.
    unfoldable pub Wrapped :
        Ctypes Name → ℕ → List (Signature Name) → Ran (Ctypes Name) (List ℕ) → Type 0
    Wrapped s lib cs (done t ks) = (all_exported cs ≡ true) × Agrees s t × Bound t lib cs ks
    Wrapped s lib cs (raised t x) = (all_exported cs ≡ false) × Agrees s t × (x ≡ attribute_error)

    pub wrapped : ℕ → Signature Name → Ctypes Name → Ctypes Name
    wrapped lib c s =
        set_argtypes s.next_function c.arg_types
          (set_restype s.next_function c.res_type (get_function lib c.func_name s))

    wrapped-Agrees : (lib : ℕ) (c : Signature Name) (s : Ctypes Name) → Agrees s (wrapped lib c s)
    unfolding wrapped
    wrapped-Agrees lib c s = record { grows = omega arith; kept = λ k below. ground arith }

    wrapped-wrapper :
        (lib : ℕ) (c : Signature Name) (s : Ctypes Name)
        → (wrapped lib c s).functions s.next_function ≡ wrapper_of lib c
    unfolding wrapped
    wrapped-wrapper lib c s = ground arith

    next-wrapped :
        (lib : ℕ) (c : Signature Name) (s : Ctypes Name)
        → s.next_function < (wrapped lib c s).next_function
    unfolding wrapped
    next-wrapped lib c s = omega arith

    next-below :
        (lib : ℕ) (c : Signature Name) (s t : Ctypes Name)
        → Agrees (wrapped lib c s) t
        → s.next_function < t.next_function
    unfolding wrapped
    next-below lib c s t agrees = let grown = agrees.grows in omega arith

    Wrapped-cons :
        (lib : ℕ) (c : Signature Name) (cs : List (Signature Name)) (s : Ctypes Name)
        (r : Ran (Ctypes Name) (List ℕ))
        → exports c.func_name ≡ true
        → Wrapped (wrapped lib c s) lib cs r
        → Wrapped s lib (c ∷ cs) (and_then r λ ks t. done t (s.next_function ∷ ks))
    unfolding Wrapped Bound
    Wrapped-cons lib c cs s (done t ks) here (all, agrees, bound) = (
      rw here all,
      Agrees-trans s (wrapped lib c s) t (wrapped-Agrees lib c s) agrees,
      (
        next-below lib c s t agrees,
        agrees.kept s.next_function (next-wrapped lib c s) ∙ wrapped-wrapper lib c s,
        bound,
      ),
    )
    Wrapped-cons lib c cs s (raised t x) here (some_missing, agrees, x_eq) = (
      rw here some_missing,
      Agrees-trans s (wrapped lib c s) t (wrapped-Agrees lib c s) agrees,
      x_eq,
    )

    pub wrap_functions-Wrapped :
        (lib : ℕ) (cs : List (Signature Name)) (s : Ctypes Name)
        → Wrapped s lib cs (wrap_functions exports lib cs s)
    unfolding Wrapped Bound wrap_function wrapped
    wrap_functions-Wrapped lib [] s = (refl, Agrees-refl s, tt)
    wrap_functions-Wrapped lib (c ∷ cs) s = elim (Bool-cases (exports c.func_name)) [
      | inl here ↦
          rw here (Wrapped-cons lib c cs s _ here (wrap_functions-Wrapped lib cs (wrapped lib c s)))
      | inr missing ↦ rw missing (rw missing refl, Agrees-refl s, refl)
    ]
