-- ===== src/Scheduler/Executor/Turns/Shrinks.antt =====
-- After a stop every turn of the thread of a SingleThreadExecutor leaves less to do.
use mathlib.Core.Path.{subst}
use mathlib.Core.HLevel.{⊥_prop, Π_prop}
use mathlib.Core.List.{mem-cons_self}
use mathlib.Core.List.Perm
use mathlib.Core.List.Pairwise
use py_lwip.Prelude.{ℕ, ◌+◌, ◌<◌, ◌≡◌, ◌≢◌, refl, sym, ap, List, [], ◌∷◌, length, arith}
use py_lwip.Scheduler.Task.{Compared, Task}
use py_lwip.Scheduler.Future.{
  FutureState, Completion, IsWaiting, pending, cancelled, cancelled_and_notified, finished,
  set_running_or_notify_cancel,
}
use py_lwip.Scheduler.Queue.{IsQueue}
use py_lwip.Scheduler.Queue.Rounds.{PopRule, pop-perm, pop_tasks_ind}
use py_lwip.Scheduler.Queue.Due.{Due}
use py_lwip.Scheduler.Queue.Errors.{DistinctKeys, pop_tasks_till_timestamp_lem}
use py_lwip.Scheduler.Executor.{
  Executor, waiting, processing, executing, Status, running, Decision, wait_round, on_decision,
  take_expired, run_round, begin, begin_on, finish,
}
use py_lwip.Scheduler.Executor.Valid.{IsAlive, IsValid}
use py_lwip.Scheduler.Executor.Turns.{timeout}
use py_lwip.Scheduler.Executor.Turns.Rounds.{
  work, Round, leaves, processes, waits, wait_round-Round, early-le, take-work,
}

module _ {C : Type 0} (compare_calls : C → C → Compared) where
  DistinctKeys-rule :
      (timestamp : ℕ) → PopRule compare_calls timestamp DistinctKeys (λ q tasks q'. DistinctKeys q')
  DistinctKeys-rule timestamp = record {
    finish = λ d. d;
    stop = λ e q d late. d;
    keep = λ e q q₁ d pops. Pairwise.of_cons (
        Perm.pairwise (λ x y. Π_prop λ t. Π_prop λ p. ⊥_prop) (λ x y d e p. d (sym e) (sym p))
          (Perm.symm (pop-perm compare_calls e q q₁ pops)) d);
    next = λ e q q₁ q' tasks d early pops rest. rest;
  }

module _ {C V : Type 0} (compare_calls : C → C → Compared) where
  -- A step after which the thread lives, and has less to do.
  abbrev pub Shrinks : Executor C V → Executor C V → Type 0
  Shrinks s s' = DistinctKeys s'.tasks × IsAlive s'.thread × (work s' < work s)

  module _ (s : Executor C V) (at : s.thread ≡ waiting) (queue : IsQueue compare_calls s.tasks)
      (distinct : DistinctKeys s.tasks) where
    round_at : (slack : ℕ) → Status × Decision → Executor C V
    round_at slack r =
        on_decision compare_calls r.1
          (record s { status = r.0; clock = s.clock + (timeout r.1 + slack) })

    round_at-Shrinks :
        (slack : ℕ) (r : Status × Decision) → Round s.tasks s.clock r → Shrinks s (round_at slack r)
    unfolding round_at take_expired
    round_at-Shrinks slack r (leaves st) = (distinct, tt, rw at (omega arith))
    round_at-Shrinks slack r (processes e rest same due st) =
        let (tasks, q', pops, out) =
          pop_tasks_till_timestamp_lem compare_calls s.tasks (s.clock + (0 + slack)) queue
            distinct in
        rw pops (
          pop_tasks_ind compare_calls (DistinctKeys-rule compare_calls (s.clock + (0 + slack)))
              s.tasks tasks q' distinct pops,
          tt,
          rw at (
              omega (
                arith,
                ap length same,
                take-work compare_calls e rest (s.clock + (0 + slack)) tasks q'
                    (subst (IsQueue compare_calls) same queue) (omega arith)
                    (subst (λ q. Due compare_calls (s.clock + (0 + slack)) q tasks q') same out),
              )),
        )
    round_at-Shrinks slack r (waits e rest same later st) =
        (distinct, rw at tt, rw (at, same) (ground arith))

    pub run_round-Shrinks :
        s.status ≢ running
        → (slack : ℕ) → Shrinks s (run_round compare_calls (timeout (wait_round s).1 + slack) s)
    unfolding run_round round_at
    run_round-Shrinks stops slack = round_at-Shrinks slack (wait_round s) (wait_round-Round s stops)

  module _ (s : Executor C V) (t : Task C) (ts : List (Task C)) (distinct : DistinctKeys s.tasks)
      (v : IsValid s) where
    begin_on-Shrinks :
        (st : FutureState V)
        → IsWaiting st
        → s.thread ≡ processing (t ∷ ts)
        → Shrinks s (begin_on (set_running_or_notify_cancel st) t ts s)
    begin_on-Shrinks pending w at = (distinct, tt, rw at (omega arith))
    begin_on-Shrinks cancelled w at = (distinct, tt, rw at (omega arith))
    begin_on-Shrinks FutureState.running w at = elim w [ ]
    begin_on-Shrinks cancelled_and_notified w at = elim w [ ]
    begin_on-Shrinks (finished c) w at = elim w [ ]

    pub begin-Shrinks : s.thread ≡ processing (t ∷ ts) → Shrinks s (begin t ts s)
    unfolding begin
    begin-Shrinks at =
        begin_on-Shrinks (s.futures t.future)
          ((rw at at (v.ledger (rw at tt))).waits t mem-cons_self) at

    pub finish-Shrinks :
        (c : Completion V) → s.thread ≡ executing t ts → Shrinks s (finish c t ts s)
    unfolding finish
    finish-Shrinks c at =
        let l = rw at at (v.ledger (rw at tt)) in
        rw (l.current_runs t.future refl) (distinct, tt, rw at (omega arith))

  pub back-Shrinks :
      (s : Executor C V)
      → s.thread ≡ processing []
      → DistinctKeys s.tasks
      → Shrinks s (record s { thread = waiting })
  back-Shrinks s at distinct = (distinct, tt, rw at (omega (arith, early-le s.tasks s.clock)))
