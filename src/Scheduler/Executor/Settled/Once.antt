-- ===== src/Scheduler/Executor/Settled/Once.antt =====
-- An action whose future is settled is not executed again.
use py_lwip.Prelude.{ℕ, ◌≡◌, ◌≢◌, some}
use py_lwip.Scheduler.Task.{Task}
use py_lwip.Scheduler.Future.{FutureState}
use py_lwip.Scheduler.Executor.{Executor}
use py_lwip.Prelude.{◌≤◌}
use py_lwip.Scheduler.Executor.Valid.{current}

module _ {C V : Type 0} where
  -- No future is forgotten.
  abbrev Grows : Executor C V → Executor C V → Type 0
  Grows s s' = s.next_future ≤ s'.next_future

  -- The future has the last state st, and the thread does not execute its action.
  pub record Over (f : ℕ) (st : FutureState V) (s : Executor C V) : Type 0 where
    pub same : s.futures f ≡ st
    pub not_executed : current s.thread ≢ some f
