-- ===== src/Scheduler/Tests/Bag.antt =====
-- A TaskQueue of lwip_py/utility/scheduler.py against the bag of its tasks.
use py_lwip.Prelude.{ℕ, ◌≡◌, refl, some, List, [], ◌∷◌, swap}
use py_lwip.Heapq.{heappush, heappop, siftdown, siftup, lt_at, left_is_least}
use py_lwip.Scheduler.Task.{entry, entry_lt}
use py_lwip.Scheduler.Queue.{get_tasks, schedule_task, pop_loop, pop_tasks_till_timestamp}
use py_lwip.Scheduler.Queue.Bag.{QueueOp, schedules, pops, bag_of, run_bag, run_queue}
use py_lwip.Scheduler.Queue.Bag.Refinement.{Refines, run_queue-Refines}
use py_lwip.Scheduler.Tests.{by_identity, task, empty-IsQueue}

program : Unit {0}
unfolding swap schedule_task heappush heappop siftdown siftup lt_at left_is_least entry_lt entry
    by_identity pop_loop pop_tasks_till_timestamp
program = tt

abbrev ops : List (QueueOp ℕ)
ops = schedules (task 5 0 1 0) ∷ schedules (task 3 0 2 1) ∷ pops 4 ∷ []

ops_run : run_queue by_identity ops [] ≡ some (entry (task 5 0 1 0) ∷ [], (task 3 0 2 1 ∷ []) ∷ [])
unfolding program
ops_run = refl

run_queue-Refines_example :
    Refines by_identity
      (entry (task 5 0 1 0) ∷ [])
      ((task 3 0 2 1 ∷ []) ∷ [])
      (run_bag ops (bag_of (get_tasks {C = ℕ} [])))
run_queue-Refines_example =
    run_queue-Refines by_identity ops [] (entry (task 5 0 1 0) ∷ []) ((task 3 0 2 1 ∷ []) ∷ [])
      empty-IsQueue ops_run
