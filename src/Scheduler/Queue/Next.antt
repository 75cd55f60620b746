-- ===== src/Scheduler/Queue/Next.antt =====
-- The time till the next task.
use mathlib.Core.List.{Mem, mem-cons_self, not-mem-nil}
use py_lwip.Prelude.{ℕ, ◌≤◌, ◌≡◌, ap, some, [], ◌∷◌}
use py_lwip.Prelude.Int.{sub_ℕ}
use py_lwip.Heapq.Order.{root_least}
use py_lwip.Scheduler.Task.{Compared, Entry, entry_order}
use py_lwip.Scheduler.Queue.{TaskQueue, get_time_till_next_task, IsQueue}

module _ {C : Type 0} (compare_calls : C → C → Compared) where
  -- With an entry in the queue, get_time_till_next_task is the time till some entry of the queue
  -- that is no later than it.
  pub get_time_till_next_task_lem :
      (q : TaskQueue C) (timestamp : ℕ) (e : Entry C)
      → IsQueue compare_calls q
      → Mem e q
      → (next : Entry C) × (Mem next q)
        × (next.time ≤ e.time)
        × (get_time_till_next_task q timestamp ≡ some (sub_ℕ next.task.abs_time timestamp))
  unfolding get_time_till_next_task
  get_time_till_next_task_lem [] timestamp e valid m = absurd (not-mem-nil m)
  get_time_till_next_task_lem (x ∷ q) timestamp e valid m =
      let le = root_least (entry_order compare_calls) x q valid.heap e m in
      let (timed, _) = valid.keyed x mem-cons_self in
      (x, mem-cons_self, le.0, ap (λ t. some (sub_ℕ t timestamp)) timed)
