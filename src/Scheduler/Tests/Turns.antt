-- ===== src/Scheduler/Tests/Turns.antt =====
-- A synchronous stop of lwip_py/utility/scheduler.py, with a task that is due and one that is not.
use mathlib.Core.List.{Pairwise, not-mem-nil, forall_mem-cons}
use py_lwip.Prelude.{ℕ, ◌≡◌, refl, true, List, [], ◌∷◌, swap, arith}
use py_lwip.Heapq.{heappush, heappop, siftdown, siftup, lt_at, left_is_least}
use py_lwip.Scheduler.Task.{entry, entry_lt}
use py_lwip.Scheduler.Future.{Completion, exception}
use py_lwip.Scheduler.Queue.{schedule_task, pop_tasks_till_timestamp, IsQueue}
use py_lwip.Scheduler.Queue.Errors.{DistinctKeys, schedule_task-IsQueue}
use py_lwip.Scheduler.Executor.{
  Executor, ended, new_executor, run_start, stop, cancel_future, begin, finish, escape,
  schedule_delayed, run_round, take_expired, wait_round, count_live,
}
use py_lwip.Scheduler.Executor.Events.{Event, schedule_call, thread_starts, run_events}
use py_lwip.Scheduler.Executor.Invariant.{run_events-IsValid}
use py_lwip.Scheduler.Executor.SyncStop.{IsOver}
use py_lwip.Scheduler.Executor.Turns.{take_turns}
use py_lwip.Scheduler.Executor.Turns.Ends.{stop_sync-ends}
use py_lwip.Scheduler.Tests.{by_identity, task, empty-IsQueue}

program : Unit {0}
unfolding swap schedule_task heappush heappop siftdown siftup lt_at left_is_least entry_lt entry
    by_identity pop_tasks_till_timestamp new_executor run_start stop cancel_future begin finish
    escape schedule_delayed run_round wait_round take_expired count_live
program = tt

abbrev scheduling : List (Event ℕ ℕ)
scheduling = thread_starts ∷ schedule_call 5 0 1 ∷ schedule_call 0 0 2 ∷ []

abbrev two_scheduled : Executor ℕ ℕ
two_scheduled = run_events by_identity scheduling (new_executor 0)

two_scheduled-IsQueue : IsQueue by_identity two_scheduled.tasks
unfolding program
two_scheduled-IsQueue =
    schedule_task-IsQueue by_identity (entry (task 5 0 1 0) ∷ []) (task 0 0 2 1) _
      (schedule_task-IsQueue by_identity [] (task 5 0 1 0) _ empty-IsQueue refl) refl

two_scheduled-DistinctKeys : DistinctKeys two_scheduled.tasks
unfolding program
two_scheduled-DistinctKeys =
    Pairwise.cons
      ((forall_mem-cons hlevel).1 ((λ e. absurd (omega arith)), λ f m. absurd (not-mem-nil m)))
      (Pairwise.cons (λ f m. absurd (not-mem-nil m)) Pairwise.nil)

-- Each action raises.
abbrev outcomes : ℕ → Completion ℕ
outcomes n = exception n

stop_sync-ends_example :
    let s' = take_turns by_identity (λ n. 1) outcomes 12 (stop true two_scheduled) in
    (s'.thread ≡ ended) × IsOver (s'.futures 0)
unfolding program
stop_sync-ends_example =
    stop_sync-ends by_identity (λ n. 1) outcomes two_scheduled 12 0
      (run_events-IsValid by_identity scheduling 0) two_scheduled-IsQueue two_scheduled-DistinctKeys
      refl (omega arith) (omega arith)
