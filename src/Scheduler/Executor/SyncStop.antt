-- ===== src/Scheduler/Executor/SyncStop.antt =====
-- What stop(sync=True) achieves, and what it does not when an action is being executed.
use mathlib.Core.Logic.{∥∥₁_elim}
use mathlib.Core.Path.{subst}
use mathlib.Core.Bool.{Bool-set}
use mathlib.Core.List.{Mem, not-mem-nil, exists_of_mem-map, forall_mem-cons}
use py_lwip.Prelude.{
  ℕ, ◌+◌, ◌<◌, ◌≡◌, refl, sym, ap, ◌∙◌, Bool, true, false, ◌||◌, List, [], ◌∷◌, map, inl, inr, ◌⊎◌,
  arith,
}
use py_lwip.Scheduler.Task.{Compared, Task}
use py_lwip.Scheduler.Future.{
  FutureState, pending, running, cancelled, cancelled_and_notified, finished, IsWaiting, IsSettled,
  Completion, is_cancelled,
}
use py_lwip.Scheduler.Queue.{get_tasks}
use py_lwip.Scheduler.Executor.{
  Executor, waiting, executing, ended, stop, finish, run_round, wait_round, count_live,
}
use py_lwip.Scheduler.Executor.Events.{
  Event, stop_call, thread_round, thread_begins, action_ends, AreNoStops, step, run_events,
}
use py_lwip.Scheduler.Executor.Valid.{IsValid}
use py_lwip.Scheduler.Executor.Count.{count_live-update}
use py_lwip.Scheduler.Executor.Invariant.{step-IsValid}
use py_lwip.Scheduler.Executor.Client.{stop-IsValid}
use py_lwip.Scheduler.Executor.Drain.{Draining, live, Enough, Fits, stop-Draining}
use py_lwip.Scheduler.Executor.DrainSteps.{step-Draining}

or_true : (b : Bool) → (b || true) ≡ true
or_true true = refl
or_true false = refl

-- The future is over: its task has ended, or will not be executed.
abbrev pub IsOver : {V : Type 0} → FutureState V → Type 0
IsOver st = IsSettled st ⊎ (st ≡ cancelled)

module _ {C V : Type 0} where
  count_live-zero :
      (futures : ℕ → FutureState V) (ts : List (Task C))
      → count_live futures ts ≡ 0
      → (t : Task C) → Mem t ts
      → is_cancelled (futures t.future) ≡ true
  unfolding count_live
  count_live-zero futures [] empty t m = absurd (not-mem-nil m)
  count_live-zero futures (u ∷ ts) empty t m =
      (forall_mem-cons (λ t. Bool-set _ _)).1
        (ground arith, count_live-zero futures ts (ground arith)) t m

  all_cancelled :
      (futures : ℕ → FutureState V) (ts : List (Task C))
      → 0 + count_live futures ts ≡ 0
      → (f : ℕ) → Mem f (map (λ t. t.future) ts)
      → is_cancelled (futures f) ≡ true
  all_cancelled futures ts empty f m =
      ∥∥₁_elim (exists_of_mem-map {f = λ t. t.future} {l = ts} m) (Bool-set _ _)
        (λ (t, inside, same).
          ap (λ g. is_cancelled (futures g)) (sym same)
          ∙ count_live-zero futures ts (omega arith) t inside)

module _ {C V : Type 0} (compare_calls : C → C → Compared) where
  over :
      (s : Executor C V) (f : ℕ) (st : FutureState V)
      → s.futures f ≡ st
      → IsValid s
      → s.thread ≡ ended
      → live s ≡ 0
      → f < s.next_future
      → IsOver st
  over s f pending is v at empty old =
      let held = rw at at ((v.ledger (rw at tt)).kept f old (subst IsWaiting (sym is) tt)) in
      absurd (cc (all_cancelled s.futures (get_tasks s.tasks) (rw at at empty) f held))
  over s f running is v at empty old = absurd (cc ((rw at at (v.ledger (rw at tt))).runs f is))
  over s f cancelled is v at empty old = inr refl
  over s f cancelled_and_notified is v at empty old = inl tt
  over s f (finished c) is v at empty old = inl tt

  -- When the thread has left `run` after the stop, every future is over.
  pub ended-IsOver :
      (s : Executor C V) (f : ℕ)
      → IsValid s
      → Draining s
      → s.thread ≡ ended
      → f < s.next_future
      → IsOver (s.futures f)
  ended-IsOver s f v d done old =
      let (fits, enough) = d (rw done tt) in
      let left = subst (λ th. Fits th s.status) done fits in
      let empty = subst (λ st. Enough st s.tasks_to_finish (live s)) left enough in
      over s f (s.futures f) refl v done empty old

  drained :
      (es : List (Event C V)) (s : Executor C V)
      → AreNoStops es
      → IsValid s
      → Draining s
      → IsValid (run_events compare_calls es s) × Draining (run_events compare_calls es s)
  drained [] s h v d = (v, d)
  drained (e ∷ es) s (h, hs) v d =
      drained es (step compare_calls e s) hs (step-IsValid compare_calls e s v)
        (step-Draining compare_calls e s h v d)

  -- stop(sync=True) while the thread waits, and no other stop: when the thread has left `run`,
  -- every future is over. No task that was scheduled and not cancelled is left behind.
  pub stop_sync-IsOver :
      (es : List (Event C V)) (s : Executor C V) (f : ℕ)
      → IsValid s
      → s.thread ≡ waiting
      → AreNoStops es
      → (run_events compare_calls (stop_call true ∷ es) s).thread ≡ ended
      → f < (run_events compare_calls (stop_call true ∷ es) s).next_future
      → IsOver ((run_events compare_calls (stop_call true ∷ es) s).futures f)
  stop_sync-IsOver es s f v at hs done old =
      let s' = run_events compare_calls es (stop true s) in
      let (v', d) = drained es (stop true s) hs (stop-IsValid true s v) (stop-Draining s at) in
      ended-IsOver s' f v' d done old

  -- stop(sync=True) while the last action of a round is executed counts the queue alone, and the
  -- action that ends is taken off this count. With one task in the queue the thread leaves `run`
  -- with this task in the queue, not cancelled and never executed.
  pub stop_sync-in_flight :
      (s : Executor C V) (t : Task C) (c : Completion V) (elapsed : ℕ)
      → IsValid s
      → s.thread ≡ executing t []
      → count_live s.futures (get_tasks s.tasks) ≡ 1
      → let s' =
          run_events compare_calls
            (stop_call true ∷ action_ends c ∷ thread_begins ∷ thread_round elapsed ∷ [])
            s in
        (s'.thread ≡ ended)
        × (s'.tasks ≡ s.tasks)
        × (count_live s'.futures (get_tasks s'.tasks) ≡ 1)
  unfolding stop finish run_round wait_round
  stop_sync-in_flight s t c elapsed v at one =
      let l = rw at at (v.ledger (rw at tt)) in
      let now = l.current_runs t.future refl in
      let same =
        count_live-update s.futures t.future (finished c) (get_tasks s.tasks)
          (λ u m e. subst IsWaiting (ap s.futures e ∙ now) (l.waits u m)) in
      rw (at, now, one, or_true) (refl, refl, same ∙ one)
