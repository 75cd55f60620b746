-- ===== src/Scheduler/Tests/Order.antt =====
-- Executions of lwip_py/utility/scheduler.py in which tasks overtake each other.
use mathlib.Core.List.{Pairwise}
use py_lwip.Prelude.{if◌then◌else◌, ◌+◌, ◌==◌, ℕ, ◌≡◌, refl, List, [], ◌∷◌, map, swap}
use py_lwip.Heapq.{heappush, heappop, siftdown, siftup, lt_at, left_is_least}
use py_lwip.Scheduler.Task.{entry, entry_lt}
use py_lwip.Scheduler.Future.{result}
use py_lwip.Scheduler.Queue.{schedule_task, pop_tasks_till_timestamp}
use py_lwip.Scheduler.Executor.{
  new_executor, run_start, stop, cancel_future, begin, finish, escape, schedule_delayed, run_round,
  take_expired, wait_round, count_live,
}
use py_lwip.Scheduler.Executor.Events.{
  Event, tick, schedule_call, thread_starts, thread_round, thread_begins, action_ends,
}
use py_lwip.Scheduler.Executor.InOrder.{TimeLe, processed}
use py_lwip.Scheduler.Executor.InOrder.Trace.{processed-TimeLe}
use py_lwip.Scheduler.Tests.{by_identity}
use py_lwip.Prelude.Totals.{total}
use py_lwip.Scheduler.Executor.Held.{total_held}
use py_lwip.Scheduler.Executor.Held.Executions.{all_executed, all_accepted, run_events-held}
use py_lwip.Scheduler.Executor.Events.{run_events}

program : Unit {0}
unfolding swap schedule_task heappush heappop siftdown siftup lt_at left_is_least entry_lt entry
    by_identity pop_tasks_till_timestamp new_executor run_start stop cancel_future begin finish
    escape schedule_delayed run_round wait_round take_expired count_live
program = tt

-- The second task overtakes the first; a third, scheduled by the second, comes between them.
abbrev overtaking : List (Event ℕ ℕ)
overtaking =
    thread_starts
    ∷ schedule_call 5 0 1
    ∷ schedule_call 2 0 2
    ∷ tick 3
    ∷ thread_round 0
    ∷ thread_begins
    ∷ schedule_call 1 0 3
    ∷ action_ends (result 0)
    ∷ thread_begins
    ∷ tick 3
    ∷ thread_round 0
    ∷ thread_begins
    ∷ action_ends (result 0)
    ∷ thread_begins
    ∷ []

overtaking_calls :
    map (λ t. t.call) (processed by_identity overtaking (new_executor 0)) ≡ 2 ∷ 3 ∷ 1 ∷ []
unfolding program
overtaking_calls = refl

processed-TimeLe_example : Pairwise TimeLe (processed by_identity overtaking (new_executor 0))
unfolding program
processed-TimeLe_example = processed-TimeLe by_identity overtaking 0 (
  tt,
  (
    (λ e. cc),
    ((λ e. cc), (tt, (tt, (tt, ((λ e. cc), (tt, (tt, (tt, (tt, (tt, (tt, (tt, tt)))))))))))),
  ),
)

-- The call 1 is accepted once, and executed last: it is still held.
run_events-held_example :
    total_held (λ c. if c == 1 then 1 else 0) (run_events by_identity overtaking (new_executor 0))
      + total (λ c. if c == 1 then 1 else 0) (all_executed by_identity overtaking (new_executor 0))
    ≡ total (λ c. if c == 1 then 1 else 0) (all_accepted by_identity overtaking (new_executor 0))
unfolding program
run_events-held_example =
    run_events-held by_identity (λ c. if c == 1 then 1 else 0) overtaking 0
      (tt, (tt, (tt, (tt, (tt, (tt, (tt, (tt, (tt, (tt, (tt, (tt, (tt, (tt, tt)))))))))))))) tt
