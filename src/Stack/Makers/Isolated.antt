-- ===== src/Stack/Makers/Isolated.antt =====
-- The invariant of stacks and their objects: each stack has a library of its own, the copy that its
-- loader holds. Loading another copy keeps it.
pub mod Steps
use py_lwip.Prelude.{
  ◌⊎◌, ℕ, suc, ◌+◌, ◌≤◌, ◌<◌, ◌≡◌, ◌≢◌, refl, sym, ap, ◌∙◌, Bool, true, false, Option, none, some,
  List, [], ◌∷◌, ◌++◌, ◌==◌, if◌then◌else◌, inl, inr, Bool-cases, arith, some-injective, ℕ_discrete,
}
use py_lwip.Prelude.Ran.{Ran, done, raised, and_then, attribute_error}
use py_lwip.Scheduler.Executor.{update}
use py_lwip.Stack.Functions.{FunctionName, lwip_init, Wrap, timeouts_functions}
use py_lwip.Stack.LwipStack.{sock_dgram}
use py_lwip.Stack.Makers.{
  World, Made, LoadedStack, new_world, with_ctypes, place_object, construct, with_lwip,
  make_allocator, make_ping_client, make_interface_object, make_socket_object, load_library,
  keep_timeouts, first_of, init, StackCall, init_of, allocator_of, ping_client_of, interface_of,
  socket_of, stack_step, after_call, run_stacks,
}
use py_lwip.Stack.Makers.Bound.{
  Agrees-refl, Agrees, Bound, Bound-Agrees, Wrapped, wrap_functions-Wrapped,
}
use py_lwip.Utility.Loader.{load_copy, delete_copy, mem-delete_copy}
use mathlib.Core.List.{Mem, mem-cons_self, mem-cons_of_mem}
use mathlib.Core.Path.{subst}
use py_lwip.Utility.Ctypes.{Ctypes, FunctionWrapper, wrap_functions}

-- The wrappers of each object are functions of its library with its types.
unfoldable pub AllBound : Ctypes FunctionName → List Made → Type 0
AllBound c [] = Unit
AllBound c (m ∷ ms) = Bound c m.library m.signatures m.wrappers × AllBound c ms

-- Also, the library of a stack is the copy that its loader holds; the copies are files that exist,
-- and each belongs to one loader.
pub record IsSound (p : World × List Made) : Type 0 where
  pub objects : AllBound p.0.ctypes p.1
  pub held : (i l : ℕ) → (p.0.stacks i).lwip ≡ some l → (p.0.stacks i).tmp_lib_copy ≡ some l
  pub there : (i n : ℕ) → (p.0.stacks i).tmp_lib_copy ≡ some n → Mem n p.0.files
  pub apart :
      (i j n : ℕ)
      → (p.0.stacks i).tmp_lib_copy ≡ some n
      → (p.0.stacks j).tmp_lib_copy ≡ some n
      → i ≡ j

-- The stacks and their loaders keep their libraries, and the function objects stay.
pub record Keeps (w w₁ : World) : Type 0 where
  pub agrees : Agrees w.ctypes w₁.ctypes
  pub same : (j : ℕ) → (w₁.stacks j).lwip ≡ (w.stacks j).lwip
  pub copies_same : (j : ℕ) → (w₁.stacks j).tmp_lib_copy ≡ (w.stacks j).tmp_lib_copy
  pub files_same : w₁.files ≡ w.files

AllBound-Agrees :
    (c c₁ : Ctypes FunctionName) (ms : List Made) → Agrees c c₁ → AllBound c ms → AllBound c₁ ms
unfolding AllBound
AllBound-Agrees c c₁ [] agrees all = tt
AllBound-Agrees c c₁ (m ∷ ms) agrees (bound, rest) = (
  Bound-Agrees c c₁ m.library m.signatures m.wrappers agrees bound,
  AllBound-Agrees c c₁ ms agrees rest,
)

pub IsSound-Keeps :
    (w w₁ : World) (ms : List Made) → Keeps w w₁ → IsSound (w, ms) → IsSound (w₁, ms)
IsSound-Keeps w w₁ ms k sound = record {
  objects = AllBound-Agrees w.ctypes w₁.ctypes ms k.agrees sound.objects;
  held = λ i l at. k.copies_same i ∙ sound.held i l (sym (k.same i) ∙ at);
  there = λ i n at. subst (Mem n) (sym k.files_same) (sound.there i n (sym (k.copies_same i) ∙ at));
  apart = λ i j n at_i at_j.
      sound.apart i j n (sym (k.copies_same i) ∙ at_i) (sym (k.copies_same j) ∙ at_j);
}

load-tmp_lib_copy :
    (w : World) (i name j n : ℕ) (files : List ℕ)
    → ((load_library i (files, name) w).stacks j).tmp_lib_copy ≡ some n
    → ((i ≢ j) × ((w.stacks j).tmp_lib_copy ≡ some n)) ⊎ ((i ≡ j) × (n ≡ name))
load-tmp_lib_copy w i name j n files at = elim (ℕ_discrete i j) [
  | yes e ↦ inr (e, ground arith)
  | no other ↦ inl (other, ground arith)
]

load-held :
    (w : World) (i name j l : ℕ) (files : List ℕ)
    → ((w.stacks j).lwip ≡ some l → (w.stacks j).tmp_lib_copy ≡ some l)
    → ((load_library i (files, name) w).stacks j).lwip ≡ some l
    → ((load_library i (files, name) w).stacks j).tmp_lib_copy ≡ some l
load-held w i name j l files held at = elim (Bool-cases (i == j)) [
  | inl same ↦ ground arith
  | inr other ↦ ground arith
]

-- The loader of a stack loads a copy under a name that no file has.
pub IsSound-load :
    (choose : List ℕ → ℕ) (w : World) (i : ℕ) (ms : List Made)
    → ¬ Mem (choose w.files) w.files
    → IsSound (w, ms)
    → IsSound (load_library i (load_copy choose (w.stacks i).tmp_lib_copy w.files) w, ms)
IsSound-load choose w i ms fresh sound =
    let name = choose w.files in
    let old = (w.stacks i).tmp_lib_copy in
    let after = delete_copy old (name ∷ w.files) in
    let split = λ (j n : ℕ). load-tmp_lib_copy w i name j n after in
    let unused =
      λ (j : ℕ) (at : (w.stacks j).tmp_lib_copy ≡ some name). fresh (sound.there j name at) in
    record {
      objects = sound.objects;
      held = λ j l at. load-held w i name j l after (sound.held j l) at;
      there = λ j n at. elim (split j n at) [
        | inl (other, before) ↦
            mem-delete_copy old n (name ∷ w.files) (λ mine. other (sound.apart i j n mine before))
              (mem-cons_of_mem name (sound.there j n before))
        | inr (e, new) ↦
            mem-delete_copy old n (name ∷ w.files) (λ mine. unused i (mine ∙ ap some new))
              (subst (λ x. Mem n (x ∷ w.files)) new mem-cons_self)
      ];
      apart = λ j k n at_j at_k. elim (split j n at_j) [
        | inl (_, j_before) ↦ elim (split k n at_k) [
          | inl (_, k_before) ↦ sound.apart j k n j_before k_before
          | inr (e, new) ↦ absurd (unused j (j_before ∙ ap some new))
        ]
        | inr (e, new) ↦ elim (split k n at_k) [
          | inl (_, k_before) ↦ absurd (unused k (k_before ∙ ap some new))
          | inr (f, _) ↦ sym e ∙ f
        ]
      ];
    }

pub with_ctypes-Keeps :
    (w : World) (c : Ctypes FunctionName) → Agrees w.ctypes c → Keeps w (with_ctypes c w)
with_ctypes-Keeps w c agrees = record {
  agrees = agrees;
  same = λ j. refl;
  copies_same = λ j. refl;
  files_same = refl;
}

-- What the invariant says to the clients: no two stacks use the same library.
pub record Separate (p : World × List Made) : Type 0 where
  pub objects : AllBound p.0.ctypes p.1
  pub apart : (i j l : ℕ) → (p.0.stacks i).lwip ≡ some l → (p.0.stacks j).lwip ≡ some l → i ≡ j

pub IsSound-Separate : (p : World × List Made) → IsSound p → Separate p
IsSound-Separate p sound = record {
  objects = sound.objects;
  apart = λ i j l at_i at_j. sound.apart i j l (sound.held i l at_i) (sound.held j l at_j);
}
