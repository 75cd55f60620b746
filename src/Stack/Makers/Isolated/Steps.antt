-- ===== src/Stack/Makers/Isolated/Steps.antt =====
-- Each call of a stack keeps the invariant of stacks and their objects.
use py_lwip.Prelude.{
  ℕ, ◌≡◌, refl, Bool, Option, none, some, List, [], ◌∷◌, ◌==◌, if◌then◌else◌, inl, inr, Bool-cases,
  arith,
}
use py_lwip.Prelude.Ran.{Ran, done, raised, and_then, attribute_error}
use py_lwip.Stack.Functions.{FunctionName, lwip_init, Wrap, timeouts_functions}
use py_lwip.Stack.LwipStack.{sock_dgram}
use py_lwip.Stack.Makers.{
  World, Made, new_world, with_ctypes, place_object, with_lwip, make_allocator, make_ping_client,
  make_interface_object, make_socket_object, load_library, keep_timeouts, first_of, init, StackCall,
  init_of, allocator_of, ping_client_of, interface_of, socket_of, stack_step, after_call,
  run_stacks,
}
use py_lwip.Stack.Makers.Bound.{Agrees-refl, Wrapped, wrap_functions-Wrapped}
use py_lwip.Utility.Ctypes.{Ctypes, FunctionWrapper}
use py_lwip.Utility.Loader.{load_copy}
use mathlib.Core.List.{Mem}
use py_lwip.Stack.Makers.Isolated.{
  Separate, IsSound-Separate, AllBound, IsSound, Keeps, IsSound-Keeps, IsSound-load,
  with_ctypes-Keeps,
}

module _ (exports : FunctionName → Bool) where
  -- A new object of a stack is sound.
  placed-IsSound :
      (w : World) (i lib : ℕ) (cs : List Wrap) (ms : List Made) (c : Ctypes FunctionName)
      (ks : List ℕ)
      → (w.stacks i).lwip ≡ some lib
      → Wrapped exports w.ctypes lib cs (done c ks)
      → IsSound (w, ms)
      → IsSound (
        with_ctypes c w,
        record { maker = i; library = lib; signatures = cs; wrappers = ks } ∷ ms,
      )
  unfolding AllBound Wrapped
  placed-IsSound w i lib cs ms c ks at (all, agrees, bound) sound =
      let kept = IsSound-Keeps w (with_ctypes c w) ms (with_ctypes-Keeps w c agrees) sound in
      record {
        objects = (bound, kept.objects);
        held = kept.held;
        there = kept.there;
        apart = kept.apart;
      }

  place_object-IsSound :
      (w : World) (i lib : ℕ) (cs : List Wrap) (ms : List Made)
      (r : Ran (Ctypes FunctionName) (List ℕ))
      → (w.stacks i).lwip ≡ some lib
      → Wrapped exports w.ctypes lib cs r
      → IsSound (w, ms)
      → IsSound (after_call (place_object w i lib cs r) ms)
  unfolding Wrapped
  place_object-IsSound w i lib cs ms (done c ks) at wraps sound =
      placed-IsSound w i lib cs ms c ks at wraps sound
  place_object-IsSound w i lib cs ms (raised c x) at (missing, agrees, _) sound =
      IsSound-Keeps w (with_ctypes c w) ms (with_ctypes-Keeps w c agrees) sound

  with_lwip-IsSound :
      (w : World) (i : ℕ) (lwip : Option ℕ) (cs : List Wrap) (ms : List Made)
      → (w.stacks i).lwip ≡ lwip
      → IsSound (w, ms)
      → IsSound (after_call (with_lwip exports i lwip cs w) ms)
  with_lwip-IsSound w i none cs ms at sound = sound
  with_lwip-IsSound w i (some lib) cs ms at sound =
      place_object-IsSound w i lib cs ms _ at (wrap_functions-Wrapped exports lib cs w.ctypes) sound

  keep_timeouts-Keeps : (w : World) (i : ℕ) (k : Option ℕ) → Keeps w (keep_timeouts i k w)
  keep_timeouts-Keeps w i k = record {
    agrees = Agrees-refl w.ctypes;
    same = λ j. ground arith;
    copies_same = λ j. ground arith;
    files_same = refl;
  }

  -- The rest of init, from what the calls of wrap_function give.
  initialized-IsSound :
      (w : World) (i lib : ℕ) (cs : List Wrap) (ms : List Made)
      (r : Ran (Ctypes FunctionName) (List ℕ))
      → (w.stacks i).lwip ≡ some lib
      → Wrapped exports w.ctypes lib cs r
      → IsSound (w, ms)
      → IsSound (
          after_call
            (and_then (place_object w i lib cs r) λ made w₁.
              let w₂ = keep_timeouts i (first_of made.wrappers) w₁ in
              if exports lwip_init then done w₂ made else raised w₂ attribute_error)
            ms)
  unfolding Wrapped AllBound
  initialized-IsSound w i lib cs ms (done c ks) at wraps sound =
      let placed = placed-IsSound w i lib cs ms c ks at wraps sound in
      let (all, agrees, bound) = wraps in
      let kept = with_ctypes-Keeps w c agrees in
      let keeps = keep_timeouts-Keeps (with_ctypes c w) i (first_of ks) in
      elim (Bool-cases (exports lwip_init)) [
        | inl here ↦ rw here (IsSound-Keeps _ _ _ keeps placed)
        | inr missing ↦
            rw missing (IsSound-Keeps _ _ _ keeps (IsSound-Keeps w (with_ctypes c w) ms kept sound))
      ]
  initialized-IsSound w i lib cs ms (raised c x) at (missing, agrees, _) sound =
      IsSound-Keeps w (with_ctypes c w) ms (with_ctypes-Keeps w c agrees) sound

module _ (choose : List ℕ → ℕ) (fresh : (files : List ℕ) → ¬ Mem (choose files) files)
    (exports : FunctionName → Bool) where
  init-IsSound :
      (w : World) (i : ℕ) (ms : List Made)
      → IsSound (w, ms)
      → IsSound (after_call (init exports choose i w) ms)
  unfolding init
  init-IsSound w i ms sound =
      let copy = load_copy choose (w.stacks i).tmp_lib_copy w.files in
      let w₁ = load_library i copy w in
      let wraps = wrap_functions-Wrapped exports copy.1 timeouts_functions w₁.ctypes in
      initialized-IsSound exports w₁ i copy.1 timeouts_functions ms _ (ground arith) wraps
        (IsSound-load choose w i ms (fresh w.files) sound)

  stack_step-IsSound :
      (w : World) (c : StackCall) (ms : List Made)
      → IsSound (w, ms)
      → IsSound (after_call (stack_step choose exports c w) ms)
  unfolding make_allocator make_ping_client make_interface_object make_socket_object
  stack_step-IsSound w (init_of i) ms sound = init-IsSound w i ms sound
  stack_step-IsSound w (allocator_of i) ms sound = with_lwip-IsSound exports w i _ _ ms refl sound
  stack_step-IsSound w (ping_client_of i) ms sound = with_lwip-IsSound exports w i _ _ ms refl sound
  stack_step-IsSound w (interface_of i) ms sound = with_lwip-IsSound exports w i _ _ ms refl sound
  stack_step-IsSound w (socket_of i socket_type) ms sound =
      elim (Bool-cases (socket_type == sock_dgram)) [
        | inl datagram ↦ rw datagram (with_lwip-IsSound exports w i _ _ ms refl sound)
        | inr other ↦ rw other sound
      ]

  run_stacks-IsSound_from :
      (cs : List StackCall) (w : World) (ms : List Made)
      → IsSound (w, ms)
      → IsSound (run_stacks choose exports cs w ms)
  run_stacks-IsSound_from [] w ms sound = sound
  run_stacks-IsSound_from (c ∷ cs) w ms sound =
      let after = after_call (stack_step choose exports c w) ms in
      run_stacks-IsSound_from cs after.0 after.1 (stack_step-IsSound w c ms sound)

  -- With names of new temporary files that no file has: after any calls of init and of the make_
  -- methods of any stacks, those that raise included, the wrappers of each object are functions of
  -- one library with the types that its constructor gives, and no two stacks use the same library.
  pub run_stacks-Separate :
      (cs : List StackCall) (nothing : FunctionWrapper FunctionName) (files : List ℕ)
      → Separate (run_stacks choose exports cs (new_world nothing files) [])
  unfolding AllBound
  run_stacks-Separate cs nothing files = IsSound-Separate _ (
      run_stacks-IsSound_from cs (new_world nothing files) [] (record {
        objects = tt;
        held = λ i l at. cc;
        there = λ i n at. cc;
        apart = λ i j n at_i at_j. cc;
      }))
