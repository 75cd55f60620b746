-- ===== src/Scheduler/Executor/Turns/Ends.antt =====
-- After stop(sync=True) the thread of a SingleThreadExecutor, left alone, comes to the end of `run`.
use mathlib.Core.Path.{subst}
use mathlib.Core.List.{not-mem-nil}
use mathlib.Core.List.Pairwise
use py_lwip.Prelude.{
  ℕ, zero, suc, ◌+◌, ◌*◌, ◌≤◌, ◌<◌, ◌≡◌, ◌≢◌, refl, sym, true, [], ◌∷◌, length, arith,
}
use py_lwip.Scheduler.Task.{Compared}
use py_lwip.Scheduler.Future.{Completion}
use py_lwip.Scheduler.Queue.{IsQueue}
use py_lwip.Scheduler.Queue.Errors.{DistinctKeys}
use py_lwip.Scheduler.Executor.{
  Executor, Thread, idle, waiting, ended, died, processing, executing, Status, running, wait_round,
  stop,
}
use py_lwip.Scheduler.Executor.Events.{IsNoStop, step, on_round, on_begin, on_end}
use py_lwip.Scheduler.Executor.Valid.{IsAlive, IsValid}
use py_lwip.Scheduler.Executor.Invariant.{step-IsValid}
use py_lwip.Scheduler.Executor.Client.{stop-IsValid}
use py_lwip.Scheduler.Executor.Drain.{Draining, Enough, live, stop-Draining}
use py_lwip.Scheduler.Executor.DrainSteps.{step-Draining}
use py_lwip.Scheduler.Executor.SyncStop.{IsOver, ended-IsOver}
use py_lwip.Scheduler.Executor.InOrder.{IsAccepted, InOrder}
use py_lwip.Scheduler.Executor.InOrder.Steps.{step-Keeps}
use py_lwip.Scheduler.Executor.Turns.{timeout, turn_on, take_turns}
use py_lwip.Scheduler.Executor.Turns.Rounds.{work, early-le}
use py_lwip.Scheduler.Executor.Turns.Shrinks.{
  Shrinks, run_round-Shrinks, begin-Shrinks, finish-Shrinks, back-Shrinks,
}
use py_lwip.Scheduler.Executor.Turns.Futures.{take_turns-next_future}

module _ {C V : Type 0} (compare_calls : C → C → Compared) where
  record Stopping (s : Executor C V) : Type 0 where
    valid : IsValid s
    order : InOrder compare_calls s
    draining : Draining s
    distinct : DistinctKeys s.tasks
    alive : IsAlive s.thread

  not_running : (st : Status) (s : Executor C V) → s.status ≡ st → Stopping s → st ≢ running
  not_running running s is g e =
      elim (subst (λ x. Enough x s.tasks_to_finish (live s)) is (g.draining g.alive).1) [ ]
  not_running st s is g e = cc

  module _ (slack : ℕ) (c : Completion V) where
    turn_on-plain :
        (th : Thread C) (s : Executor C V)
        → IsNoStop (turn_on th slack c s) × IsAccepted compare_calls (turn_on th slack c s) s
    turn_on-plain idle s = (tt, tt)
    turn_on-plain waiting s = (tt, tt)
    turn_on-plain ended s = (tt, tt)
    turn_on-plain died s = (tt, tt)
    turn_on-plain (processing ts) s = (tt, tt)
    turn_on-plain (executing t ts) s = (tt, tt)

    turn_on-Shrinks :
        (th : Thread C) (s : Executor C V)
        → s.thread ≡ th
        → th ≢ ended
        → Stopping s
        → Shrinks compare_calls s (step compare_calls (turn_on th slack c s) s)
    turn_on-Shrinks idle s at other g = elim (rw at at (g.draining g.alive).0) [ ]
    turn_on-Shrinks waiting s at other g =
        subst
          (λ th.
            Shrinks compare_calls s
              (on_round compare_calls (timeout (wait_round s).1 + slack) th s))
          (sym at)
          (run_round-Shrinks compare_calls s at (g.order.queue g.alive) g.distinct
            (not_running s.status s refl g) slack)
    turn_on-Shrinks ended s at other g = absurd (other refl)
    turn_on-Shrinks died s at other g = elim (rw at at g.alive) [ ]
    turn_on-Shrinks (processing []) s at other g =
        subst (λ th. Shrinks compare_calls s (on_begin th s)) (sym at)
          (back-Shrinks compare_calls s at g.distinct)
    turn_on-Shrinks (processing (t ∷ ts)) s at other g =
        subst (λ th. Shrinks compare_calls s (on_begin th s)) (sym at)
          (begin-Shrinks compare_calls s t ts g.distinct g.valid at)
    turn_on-Shrinks (executing t ts) s at other g =
        subst (λ th. Shrinks compare_calls s (on_end c th s)) (sym at)
          (finish-Shrinks compare_calls s t ts g.distinct g.valid c at)

    turn : Executor C V → Executor C V
    turn s = step compare_calls (turn_on s.thread slack c s) s

    turn-Stopping :
        (s : Executor C V)
        → Stopping s
        → DistinctKeys (turn s).tasks
        → IsAlive (turn s).thread
        → Stopping (turn s)
    unfolding turn
    turn-Stopping s g distinct alive =
        let (calm, accepted) = turn_on-plain s.thread s in
        record {
          valid = step-IsValid compare_calls (turn_on s.thread slack c s) s g.valid;
          order = (step-Keeps compare_calls (turn_on s.thread slack c s) s accepted g.order).0;
          draining =
              step-Draining compare_calls (turn_on s.thread slack c s) s calm g.valid g.draining;
          distinct = distinct;
          alive = alive;
        }

    -- A turn leaves less to do; after the end there is nothing to do.
    turn-work :
        (th : Thread C) (s : Executor C V)
        → s.thread ≡ th
        → Stopping s
        → (n : ℕ) → work s ≤ suc n
        → Stopping (turn s) × (work (turn s) ≤ n)
    unfolding turn
    turn-work ended s at g n le =
        let (distinct, alive, done) =
          subst
            (λ th.
              let s' = step compare_calls (turn_on th slack c s) s in
              DistinctKeys s'.tasks × IsAlive s'.thread × (work s' ≤ n))
            (sym at) (g.distinct, g.alive, rw at (omega arith)) in
        (turn-Stopping s g distinct alive, done)
    turn-work th s at g n le =
        let (distinct, alive, less) = turn_on-Shrinks s.thread s refl (λ e. cc) g in
        (turn-Stopping s g distinct alive, omega arith)

  no_work :
      (th : Thread C) (s : Executor C V) → s.thread ≡ th → Stopping s → work s ≤ 0 → th ≡ ended
  no_work idle s at g le = elim (rw at at (g.draining g.alive).0) [ ]
  no_work waiting s at g le = let none = rw at at le in absurd (omega arith)
  no_work ended s at g le = refl
  no_work died s at g le = elim (rw at at g.alive) [ ]
  no_work (processing ts) s at g le = let none = rw at at le in absurd (omega arith)
  no_work (executing t ts) s at g le = let none = rw at at le in absurd (omega arith)

  module _ (slack : ℕ → ℕ) (results : ℕ → Completion V) where
    take_turns-Stopping :
        (n : ℕ) (s : Executor C V)
        → Stopping s
        → work s ≤ n
        → let s' = take_turns compare_calls slack results n s in Stopping s' × (s'.thread ≡ ended)
    unfolding turn
    take_turns-Stopping zero s g le = (g, no_work s.thread s refl g le)
    take_turns-Stopping (suc n) s g le =
        let (g', le') = turn-work (slack n) (results n) s.thread s refl g n le in
        take_turns-Stopping n (turn (slack n) (results n) s) g' le'

  module _ (slack : ℕ → ℕ) (results : ℕ → Completion V) where
    stop-Stopping :
        (s : Executor C V)
        → IsValid s
        → IsQueue compare_calls s.tasks
        → DistinctKeys s.tasks
        → s.thread ≡ waiting
        → Stopping (stop true s)
    unfolding stop
    stop-Stopping s v queue distinct at = record {
      valid = stop-IsValid true s v;
      order = record {
        queue = λ a. queue;
        sorted = rw at Pairwise.nil;
        due = rw at (λ t m. absurd (not-mem-nil m));
        first = rw at (λ t m. absurd (not-mem-nil m));
      };
      draining = stop-Draining s at;
      distinct = distinct;
      alive = rw at tt;
    }

    -- stop(sync=True) while the thread waits, with a queue in which no two tasks have the same time
    -- and priority, and no other call. If every action ends, in a result or an exception, and each
    -- wait lasts at least till its timeout, the thread has left `run` after five turns for each
    -- task in the queue and two more, and every future that was handed out is over.
    pub stop_sync-ends :
        (s : Executor C V) (n f : ℕ)
        → IsValid s
        → IsQueue compare_calls s.tasks
        → DistinctKeys s.tasks
        → s.thread ≡ waiting
        → 5 * length s.tasks + 2 ≤ n
        → f < s.next_future
        → let s' = take_turns compare_calls slack results n (stop true s) in
          (s'.thread ≡ ended) × IsOver (s'.futures f)
    unfolding stop
    stop_sync-ends s n f v queue distinct at enough old =
        let start = stop-Stopping s v queue distinct at in
        let few : work (stop true s) ≤ n = rw at (omega (arith, early-le s.tasks s.clock)) in
        let (g, done) = take_turns-Stopping slack results n (stop true s) start few in
        let same = take_turns-next_future compare_calls slack results n (stop true s) in
        (done, ended-IsOver compare_calls _ f g.valid g.draining done (omega arith))
