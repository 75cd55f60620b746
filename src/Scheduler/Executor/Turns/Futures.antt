-- ===== src/Scheduler/Executor/Turns/Futures.antt =====
-- The thread of a SingleThreadExecutor makes no Future.
use mathlib.Core.Path.{subst}
use py_lwip.Prelude.{ℕ, zero, suc, ◌+◌, ◌≡◌, refl, sym, ◌∙◌, Option, none, some, List, [], ◌∷◌}
use py_lwip.Scheduler.Task.{Compared, Task}
use py_lwip.Scheduler.Future.{FutureState, Completion}
use py_lwip.Scheduler.Queue.{Popped, popped, pop_error}
use py_lwip.Scheduler.Executor.{
  Executor, Thread, idle, waiting, ended, died, processing, executing, Decision, leave, process,
  wait, wait_round, on_decision, take, take_expired, run_round, begin, begin_on, finish, finish_on,
  run_start,
}
use py_lwip.Scheduler.Executor.Events.{step, on_round, on_begin, on_end, on_start}
use py_lwip.Scheduler.Executor.Turns.{timeout, turn_on, take_turns}

module _ {C V : Type 0} (compare_calls : C → C → Compared) where
  take-next_future :
      (o : Popped C) (s : Executor C V) → (take compare_calls o s).next_future ≡ s.next_future
  take-next_future (popped tasks q) s = refl
  take-next_future (pop_error q) s = refl

  on_decision-next_future :
      (d : Decision) (s : Executor C V)
      → (on_decision compare_calls d s).next_future ≡ s.next_future
  unfolding take_expired
  on_decision-next_future leave s = refl
  on_decision-next_future process s = take-next_future _ s
  on_decision-next_future (wait timeout) s = refl

  begin_on-next_future :
      (o : Option (FutureState V)) (t : Task C) (ts : List (Task C)) (s : Executor C V)
      → (begin_on o t ts s).next_future ≡ s.next_future
  begin_on-next_future none t ts s = refl
  begin_on-next_future (some st) t ts s = refl

  finish_on-next_future :
      (o : Option (FutureState V)) (t : Task C) (ts : List (Task C)) (s : Executor C V)
      → (finish_on o t ts s).next_future ≡ s.next_future
  finish_on-next_future none t ts s = refl
  finish_on-next_future (some st) t ts s = refl

  module _ (slack : ℕ) (c : Completion V) where
    -- The thread makes no future.
    turn_on-next_future :
        (th : Thread C) (s : Executor C V)
        → s.thread ≡ th
        → (step compare_calls (turn_on th slack c s) s).next_future ≡ s.next_future
    unfolding run_start run_round begin finish
    turn_on-next_future idle s at =
        subst (λ th. (on_start th s).next_future ≡ s.next_future) (sym at) refl
    turn_on-next_future waiting s at =
        subst
          (λ th.
            (on_round compare_calls (timeout (wait_round s).1 + slack) th s).next_future
            ≡ s.next_future)
          (sym at) (on_decision-next_future (wait_round s).1 _)
    turn_on-next_future ended s at = refl
    turn_on-next_future died s at = refl
    turn_on-next_future (processing []) s at =
        subst (λ th. (on_begin th s).next_future ≡ s.next_future) (sym at) refl
    turn_on-next_future (processing (t ∷ ts)) s at =
        subst (λ th. (on_begin th s).next_future ≡ s.next_future) (sym at)
          (begin_on-next_future _ t ts s)
    turn_on-next_future (executing t ts) s at =
        subst (λ th. (on_end c th s).next_future ≡ s.next_future) (sym at)
          (finish_on-next_future _ t ts s)

  module _ (slack : ℕ → ℕ) (results : ℕ → Completion V) where
    pub take_turns-next_future :
        (n : ℕ) (s : Executor C V)
        → (take_turns compare_calls slack results n s).next_future ≡ s.next_future
    take_turns-next_future zero s = refl
    take_turns-next_future (suc n) s =
        take_turns-next_future n _ ∙ turn_on-next_future (slack n) (results n) s.thread s refl
