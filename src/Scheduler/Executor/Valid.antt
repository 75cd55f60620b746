-- ===== src/Scheduler/Executor/Valid.antt =====
-- The invariant of a SingleThreadExecutor, and that every event keeps it.
use mathlib.Core.List.{Mem}
use py_lwip.Prelude.{ℕ, ◌≤◌, Option, none, some, List, [], ◌∷◌, ◌++◌}
use py_lwip.Scheduler.Task.{Task}
use py_lwip.Scheduler.Queue.{get_tasks}
use py_lwip.Scheduler.Queue.Keeps.{AllKeyed}
use py_lwip.Scheduler.Executor.{Executor, Thread, processing, executing, died}
use py_lwip.Scheduler.Executor.Ledger.{Ledger}

module _ {C : Type 0} where
  -- The tasks that the thread has taken and not begun.
  abbrev pub taken : Thread C → List (Task C)
  taken (processing ts) = ts
  taken (executing t ts) = ts
  taken _ = []

  -- Those, and before them the task that it executes.
  abbrev pub started : Thread C → List (Task C)
  started (processing ts) = ts
  started (executing t ts) = t ∷ ts
  started _ = []

  abbrev pub current : Thread C → Option ℕ
  current (executing t ts) = some t.future
  current _ = none

  abbrev pub IsAlive : Thread C → Type 0
  IsAlive died = ⊥
  IsAlive _ = Unit

module _ {C V : Type 0} where
  abbrev pub waiting_tasks : Executor C V → List (Task C)
  waiting_tasks s = taken s.thread ++ get_tasks s.tasks

  pub record IsValid (s : Executor C V) : Type 0 where
    pub keyed : IsAlive s.thread → AllKeyed s.tasks
    pub due : (t : Task C) → Mem t (started s.thread) → t.abs_time ≤ s.clock
    pub ledger :
        IsAlive s.thread → Ledger (waiting_tasks s) s.futures s.next_future (current s.thread)
