-- ===== src/Scheduler/Executor/Count.antt =====
-- The number of tasks that are not cancelled, which `stop` counts.
use mathlib.Core.Logic.{∥∥₁_elim}
use mathlib.Core.List.{Mem, Perm, Permᴰ, mem-cons_self, mem-cons_of_mem}
use native.Mathlib.Nat.{ℕ_set}
use py_lwip.Prelude.{ℕ, ◌≤◌, ◌≡◌, ◌≢◌, refl, ◌∙◌, true, List, [], ◌∷◌, arith}
use py_lwip.Scheduler.Task.{Task}
use py_lwip.Scheduler.Future.{FutureState, cancel, is_cancelled}
use py_lwip.Scheduler.Executor.{count_live, update}

cancel-is_cancelled :
    {V : Type 0} (st : FutureState V) → is_cancelled st ≡ true → is_cancelled (cancel st) ≡ true
cancel-is_cancelled FutureState.pending h = refl
cancel-is_cancelled st h = h

module _ {C V : Type 0} where
  Permᴰ-count_live :
      (futures : ℕ → FutureState V) {ts us : List (Task C)}
      → Permᴰ ts us
      → count_live futures ts ≡ count_live futures us
  unfolding count_live
  Permᴰ-count_live futures Permᴰ.nil = refl
  Permᴰ-count_live futures (Permᴰ.cons {a = t} {b = u} e p) =
      ground (arith, Permᴰ-count_live futures p)
  Permᴰ-count_live futures (Permᴰ.swap e e') = ground arith
  Permᴰ-count_live futures (Permᴰ.trans p q) =
      Permᴰ-count_live futures p ∙ Permᴰ-count_live futures q

  pub count_live-perm :
      (futures : ℕ → FutureState V) {ts us : List (Task C)}
      → Perm ts us
      → count_live futures ts ≡ count_live futures us
  count_live-perm futures p = ∥∥₁_elim p (ℕ_set _ _) (Permᴰ-count_live futures)

  pub count_live-cancel :
      (futures : ℕ → FutureState V) (f : ℕ) (ts : List (Task C))
      → count_live (update futures f (cancel (futures f))) ts ≤ count_live futures ts
  unfolding count_live
  count_live-cancel futures f [] = omega arith
  count_live-cancel futures f (t ∷ ts) =
      ground (arith, count_live-cancel futures f ts, cancel-is_cancelled (futures f))

  -- A future that is not in the list does not count.
  pub count_live-update :
      (futures : ℕ → FutureState V) (f : ℕ) (st : FutureState V) (ts : List (Task C))
      → ((t : Task C) → Mem t ts → t.future ≢ f)
      → count_live (update futures f st) ts ≡ count_live futures ts
  unfolding count_live
  count_live-update futures f st [] other = refl
  count_live-update futures f st (t ∷ ts) other = ground (
    arith,
    other t mem-cons_self,
    count_live-update futures f st ts (λ u m. other u (mem-cons_of_mem t m)),
  )
