-- ===== src/Scheduler/Executor/DrainSteps.antt =====
-- After stop(sync=True) every event but another stop keeps the count of the tasks to finish.
use mathlib.Core.Path.{subst}
use py_lwip.Prelude.{ℕ, ◌+◌, ◌≡◌, ◌≢◌, refl, Bool, true, false, ◌||◌, [], ◌∷◌, arith}
use py_lwip.Prelude.Int.{ℤ, pos, negsuc}
use py_lwip.Scheduler.Task.{Compared}
use py_lwip.Scheduler.Future.{FutureState}
use py_lwip.Scheduler.Queue.{
  TaskQueue, Popped, popped, pop_error, pop_tasks_till_timestamp, get_tasks,
  get_time_till_next_task, is_empty,
}
use py_lwip.Scheduler.Queue.Keeps.{pop_tasks_till_timestamp-Taken}
use py_lwip.Scheduler.Executor.{
  Executor, Thread, waiting, Status, stopped, stopped_sync, Decision, leave, process, wait,
  schedule_delayed, schedule_on, run_round, take, take_expired, on_decision, wait_round, wait_on,
  count_live, is_zero,
}
use py_lwip.Scheduler.Executor.Events.{
  Event, tick, schedule_call, stop_call, cancel_call, thread_starts, thread_round, thread_begins,
  action_ends, action_escapes, IsNoStop, step, on_round,
}
use py_lwip.Scheduler.Executor.Valid.{IsAlive, IsValid}
use py_lwip.Scheduler.Executor.Count.{count_live-perm}
use py_lwip.Scheduler.Executor.Deaths.{accept-thread}
use py_lwip.Scheduler.Executor.Drain.{
  live, Enough, Fits, Draining, on_delay-ne-leave, live-waiting, cancel_future-Draining,
  on_begin-Draining, on_end-Draining, on_start-Draining, on_escape-Draining,
}

module _ {C V : Type 0} (compare_calls : C → C → Compared) where
  schedule_on-Draining :
      (st : Status) (delay priority : ℕ) (call : C) (s : Executor C V)
      → s.status ≡ st
      → Draining s
      → Draining (schedule_on compare_calls st delay priority call s).0
  schedule_on-Draining Status.running delay priority call s at d a =
      elim (subst (λ st. Enough st s.tasks_to_finish (live s)) at
        (d (subst IsAlive (accept-thread compare_calls s _) a)).1) [ ]
  schedule_on-Draining stopped delay priority call s at d a = d a
  schedule_on-Draining stopped_sync delay priority call s at d a = d a

  take-Draining :
      (s : Executor C V) (o : Popped C)
      → s.thread ≡ waiting
      → IsValid s
      → Draining s
      → pop_tasks_till_timestamp compare_calls s.tasks s.clock ≡ o
      → Draining (take compare_calls o s)
  take-Draining s (pop_error q) at v d r a = elim a [ ]
  take-Draining s (popped tasks q) at v d r a =
      let out =
        pop_tasks_till_timestamp-Taken compare_calls s.tasks s.clock tasks q (v.keyed (rw at tt))
          r in
      let (started, enough) = d (rw at tt) in
      (
        tt,
        subst (Enough s.status s.tasks_to_finish)
            (omega (arith, live-waiting s at, count_live-perm s.futures out.same)) enough,
      )

  none_left :
      (q : TaskQueue C) (futures : ℕ → FutureState V) (n : ℤ) (k : ℕ)
      → k ≡ count_live futures (get_tasks q)
      → (is_empty q || is_zero n) ≡ true
      → Enough stopped_sync n k
      → k ≡ 0
  unfolding is_empty count_live
  none_left [] futures n k same last enough = omega arith
  none_left (e ∷ q) futures (pos n) k same last enough = ground arith
  none_left (e ∷ q) futures (negsuc n) k same last enough = elim enough [ ]

  module _ (elapsed : ℕ) (s : Executor C V) (at : s.thread ≡ waiting) (v : IsValid s)
      (d : Draining s) where
    after : Status → Executor C V
    after st = record s { status = st; clock = s.clock + elapsed }

    leave-Draining : live s ≡ 0 → Draining (on_decision compare_calls leave (after stopped))
    unfolding after
    leave-Draining empty a = (refl, omega (arith, live-waiting s at))

    after-Draining : (st : Status) → s.status ≡ st → Draining (after st)
    unfolding after
    after-Draining st is a =
        let (fits, enough) = d a in
        (subst (Fits s.thread) is fits, subst (λ x. Enough x s.tasks_to_finish (live s)) is enough)

    after-IsValid : (st : Status) → IsValid (after st)
    unfolding after
    after-IsValid st = record {
      keyed = v.keyed;
      due = λ t m. omega (arith, v.due t m);
      ledger = v.ledger;
    }

    stay-Draining :
        (st : Status) (next : Decision)
        → s.status ≡ st
        → next ≢ leave
        → Draining (on_decision compare_calls next (after st))
    unfolding after take_expired
    stay-Draining st leave is other = absurd (other refl)
    stay-Draining st process is other =
        take-Draining (after st) _ at (after-IsValid st) (after-Draining st is) refl
    stay-Draining st (wait timeout) is other = after-Draining st is

    wait_on-Draining :
        (st : Status) (last : Bool) (next : Decision)
        → s.status ≡ st
        → (is_empty s.tasks || is_zero s.tasks_to_finish) ≡ last
        → next ≢ leave
        → Draining
            (on_decision compare_calls (wait_on st last next).1 (after (wait_on st last next).0))
    wait_on-Draining stopped last next is empty other =
        let enough = (d (rw at tt)).1 in
        leave-Draining (subst (λ x. Enough x s.tasks_to_finish (live s)) is enough)
    wait_on-Draining stopped_sync true next is empty other =
        let enough = (d (rw at tt)).1 in
        leave-Draining (
          none_left s.tasks s.futures s.tasks_to_finish (live s) (live-waiting s at) empty
            (subst (λ x. Enough x s.tasks_to_finish (live s)) is enough))
    wait_on-Draining stopped_sync false next is empty other =
        stay-Draining stopped_sync next is other
    wait_on-Draining Status.running last next is empty other =
        stay-Draining Status.running next is other

  on_round-Draining :
      (elapsed : ℕ) (s : Executor C V) (th : Thread C)
      → IsValid s
      → s.thread ≡ th
      → Draining s
      → Draining (on_round compare_calls elapsed th s)
  unfolding run_round wait_round after
  on_round-Draining elapsed s waiting v at d =
      wait_on-Draining elapsed s at v d s.status _ _ refl refl
        (on_delay-ne-leave (get_time_till_next_task s.tasks s.clock))
  on_round-Draining elapsed s _ v at d = d

  pub step-Draining :
      (e : Event C V) (s : Executor C V)
      → IsNoStop e
      → IsValid s
      → Draining s
      → Draining (step compare_calls e s)
  unfolding schedule_delayed
  step-Draining (tick n) s h v d = d
  step-Draining (schedule_call delay priority call) s h v d =
      schedule_on-Draining s.status delay priority call s refl d
  step-Draining (stop_call sync) s h v d = elim h [ ]
  step-Draining (cancel_call f) s h v d = cancel_future-Draining f s d
  step-Draining thread_starts s h v d = on_start-Draining s s.thread refl d
  step-Draining (thread_round elapsed) s h v d = on_round-Draining elapsed s s.thread v refl d
  step-Draining thread_begins s h v d = on_begin-Draining s s.thread v refl d
  step-Draining (action_ends c) s h v d = on_end-Draining c s s.thread v refl d
  step-Draining action_escapes s h v d = on_escape-Draining s s.thread d
