-- ===== src/Scheduler/Queue.antt =====
-- TaskQueue of lwip_py/utility/scheduler.py.
pub mod Rounds
pub mod Due
pub mod Keeps
pub mod Errors
pub mod Next
pub mod Bag
use mathlib.Core.List.{Mem}
use py_lwip.Prelude.{
  ℕ, zero, suc, ◌+◌, ◌≤◌, ◌<◌, ◌≡◌, Bool, true, false, Option, none, some, List, [], ◌∷◌, ◌++◌, map,
  leb, length, if◌then◌else◌,
}
use py_lwip.Prelude.Int.{ℤ, sub_ℕ}
use py_lwip.Heapq.{Outcome, returned, type_error, heappush, heappop}
use py_lwip.Heapq.Order.{IsHeap}
use py_lwip.Scheduler.Task.{Compared, Task, Entry, entry, entry_lt, entry_order, Keyed}

abbrev pub TaskQueue : Type 0 → Type 0
TaskQueue C = List (Entry C)

-- What pop_tasks_till_timestamp returns, with the queue that it leaves; in `pop_error` a
-- comparison raised TypeError, and the tasks popped so far are gone with the local list.
pub data Popped (C : Type 0) : Type 0 where
  popped : List (Task C) → TaskQueue C → Popped C
  pop_error : TaskQueue C → Popped C

abbrev pub popped_tasks : {C : Type 0} → Popped C → List (Task C)
popped_tasks (popped tasks q) = tasks
popped_tasks (pop_error q) = []

abbrev pub queue_left : {C : Type 0} → Popped C → TaskQueue C
queue_left (popped tasks q) = q
queue_left (pop_error q) = q

module _ {C : Type 0} where
  abbrev pub new_queue : TaskQueue C
  new_queue = []

  unfoldable pub is_empty : TaskQueue C → Bool
  is_empty [] = true
  is_empty (e ∷ q) = false

  abbrev pub get_tasks : TaskQueue C → List (Task C)
  get_tasks q = map (λ e. e.task) q

  -- The first entry's time less the timestamp, which is negative for a task that is overdue.
  unfoldable pub get_time_till_next_task : TaskQueue C → ℕ → Option ℤ
  get_time_till_next_task [] timestamp = none
  get_time_till_next_task (e ∷ q) timestamp = some (sub_ℕ e.time timestamp)

module _ {C : Type 0} (compare_calls : C → C → Compared) where
  unfoldable pub schedule_task : TaskQueue C → Task C → Outcome (Entry C)
  unfolding entry
  schedule_task q t = heappush (entry_lt compare_calls) q (entry t)

  -- The `while` loop. Each round removes an entry, so as many rounds as there are are enough.
  unfoldable pub pop_loop : (fuel timestamp : ℕ) → TaskQueue C → (tasks : List (Task C)) → Popped C
  pop_loop zero timestamp q tasks = popped tasks q
  pop_loop (suc fuel) timestamp [] tasks = popped tasks []
  pop_loop (suc fuel) timestamp (e ∷ q) tasks = elim (leb e.time timestamp) [
    | false ↦ popped tasks (e ∷ q)
    | true ↦ elim (heappop (entry_lt compare_calls) (e ∷ q)) [
      | returned q' ↦ pop_loop fuel timestamp q' (tasks ++ e.task ∷ [])
      | type_error q' ↦ pop_error q'
    ]
  ]

  unfoldable pub pop_tasks_till_timestamp : TaskQueue C → ℕ → Popped C
  unfolding pop_loop
  pop_tasks_till_timestamp q timestamp = pop_loop (length q) timestamp q []

  -- The list is a heap of entries that carry the key of their task.
  pub record IsQueue (q : TaskQueue C) : Type 0 where
    pub heap : IsHeap (entry_order compare_calls) q
    pub keyed : (e : Entry C) → Mem e q → Keyed e
