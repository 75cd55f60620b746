-- ===== src/Scheduler/Tests.antt =====
-- The scheduler on small inputs, and the theorems about it at these inputs.
pub mod Order
pub mod Turns
pub mod Bag
pub mod Mutex
use mathlib.Core.List.{
  Mem, mem-cons_self, mem-cons_of_mem, Perm, Pairwise, not-mem-nil, forall_mem-cons,
}
use py_lwip.Prelude.{
  ℕ, ◌≡◌, ◌≢◌, ◌≤◌, some, refl, ◌⊎◌, true, List, [], ◌∷◌, ◌++◌, arith, ◌==◌, if◌then◌else◌, swap,
}
use py_lwip.Heapq.{returned, type_error, heappush, heappop, siftdown, siftup, lt_at, left_is_least}
use py_lwip.Scheduler.Task.{Compared, equal, unordered, Task, Entry, entry, entry_lt}
use py_lwip.Scheduler.Future.{finished, result}
use py_lwip.Scheduler.Queue.{
  TaskQueue, popped, get_tasks, get_time_till_next_task, schedule_task, pop_tasks_till_timestamp,
  IsQueue,
}
use py_lwip.Prelude.Int.{sub_ℕ}
use py_lwip.Scheduler.Executor.Waits.{InTime, wait_round-InTime}
use py_lwip.Scheduler.Executor.{wait_round, waiting}
use py_lwip.Scheduler.Queue.Due.{Due, pop_tasks_till_timestamp-Due}
use py_lwip.Scheduler.Queue.Errors.{
  DistinctKeys, schedule_task-IsQueue, schedule_task_lem, pop_tasks_till_timestamp_lem,
  schedule_task-tie,
}
use py_lwip.Scheduler.Executor.{
  Executor, running, idle, executing, ended, new_executor, run_start, stop, cancel_future, begin,
  finish, escape, schedule_delayed, run_round, take_expired, wait_round, count_live,
}
use py_lwip.Scheduler.Executor.Events.{
  Event, schedule_call, stop_call, cancel_call, thread_starts, thread_round, thread_begins,
  action_ends, action_escapes, step, run_events,
}
use py_lwip.Scheduler.Executor.Valid.{IsValid}
use py_lwip.Scheduler.Executor.Invariant.{run_events-IsValid}
use py_lwip.Scheduler.Executor.Deaths.{QueueRaises, step-died}
use py_lwip.Scheduler.Executor.LostStop.{stop_before_start-lost}
use py_lwip.Scheduler.Executor.SyncStop.{IsOver, stop_sync-IsOver, stop_sync-in_flight}

-- Calls that are equal or have no order, as bound methods have none.
unfoldable pub by_identity : ℕ → ℕ → Compared
by_identity a b = if a == b then equal else unordered

abbrev pub task : (abs_time priority call future : ℕ) → Task ℕ
task abs_time priority call future = record {
  abs_time = abs_time;
  priority = priority;
  call = call;
  future = future;
}

abbrev two : TaskQueue ℕ
two = entry (task 3 0 1 1) ∷ entry (task 5 0 1 0) ∷ []

program : Unit {0}
unfolding swap schedule_task heappush heappop siftdown siftup lt_at left_is_least entry_lt
    by_identity pop_tasks_till_timestamp new_executor run_start stop cancel_future begin finish
    escape schedule_delayed run_round wait_round take_expired count_live
program = tt

pub empty-IsQueue : IsQueue by_identity []
empty-IsQueue = record { heap = λ c pos. tt; keyed = λ e m. absurd (not-mem-nil m) }

two-IsQueue : IsQueue by_identity two
unfolding program
two-IsQueue =
    schedule_task-IsQueue by_identity (entry (task 5 0 1 0) ∷ []) (task 3 0 1 1) two
      (schedule_task-IsQueue by_identity [] (task 5 0 1 0) (entry (task 5 0 1 0) ∷ []) empty-IsQueue
        refl)
      refl

two-DistinctKeys : DistinctKeys two
unfolding entry
two-DistinctKeys =
    Pairwise.cons
      ((forall_mem-cons hlevel).1 ((λ e. absurd (omega arith)), λ f m. absurd (not-mem-nil m)))
      (Pairwise.cons (λ f m. absurd (not-mem-nil m)) Pairwise.nil)

pop_tasks_till_timestamp_lem_example :
    (tasks : List (Task ℕ)) × (q' : TaskQueue ℕ) × (pop_tasks_till_timestamp by_identity two 4
      ≡ popped tasks q')
    × Due by_identity 4 two tasks q'
pop_tasks_till_timestamp_lem_example =
    pop_tasks_till_timestamp_lem by_identity two 4 two-IsQueue two-DistinctKeys

pop_tasks_till_timestamp-Due_example :
    Due by_identity 4 two (task 3 0 1 1 ∷ []) (entry (task 5 0 1 0) ∷ [])
unfolding program
pop_tasks_till_timestamp-Due_example =
    pop_tasks_till_timestamp-Due by_identity two 4 (task 3 0 1 1 ∷ []) (entry (task 5 0 1 0) ∷ [])
      two-IsQueue refl

three-DistinctKeys : DistinctKeys (entry (task 4 0 2 2) ∷ two)
unfolding entry
three-DistinctKeys =
    Pairwise.cons
      ((forall_mem-cons hlevel).1 (
        (λ e. absurd (omega arith)),
        (forall_mem-cons hlevel).1 ((λ e. absurd (omega arith)), λ f m. absurd (not-mem-nil m)),
      ))
      two-DistinctKeys

schedule_task_lem_example :
    (q' : TaskQueue ℕ) × (schedule_task by_identity two (task 4 0 2 2) ≡ returned q')
    × IsQueue by_identity q'
    × Perm (get_tasks q') (task 4 0 2 2 ∷ get_tasks two)
schedule_task_lem_example =
    schedule_task_lem by_identity two (task 4 0 2 2) two-IsQueue three-DistinctKeys

-- Two actions are scheduled at one reading of the clock.
schedule_task-tie_example :
    schedule_task by_identity (entry (task 5 0 1 0) ∷ []) (task 5 0 2 1)
    ≡ type_error ((entry (task 5 0 1 0) ∷ []) ++ entry (task 5 0 2 1) ∷ [])
unfolding program entry
schedule_task-tie_example =
    schedule_task-tie by_identity (entry (task 5 0 1 0)) [] (task 5 0 2 1)
      ((forall_mem-cons hlevel).1 ((refl, refl, refl, refl, refl), λ f m. absurd (not-mem-nil m)))

abbrev first_events : List (Event ℕ ℕ)
first_events =
    thread_starts ∷ schedule_call 0 0 7 ∷ schedule_call 9 0 8 ∷ thread_round 0 ∷ thread_begins ∷ []

abbrev in_action : Executor ℕ ℕ
in_action = run_events by_identity first_events (new_executor 0)

run_events-IsValid_example : IsValid in_action
run_events-IsValid_example = run_events-IsValid by_identity first_events 0

abbrev in_action-IsValid : IsValid in_action
in_action-IsValid = run_events-IsValid by_identity first_events 0

in_action_thread : in_action.thread ≡ executing (task 0 0 7 0) []
unfolding program entry
in_action_thread = refl

abbrev after_action : Executor ℕ ℕ
after_action = run_events by_identity (first_events ++ action_ends (result 3) ∷ []) (new_executor 0)

after_action_future : after_action.futures 0 ≡ finished (result 3)
unfolding program entry
after_action_future = refl

-- What comes after the action has ended.
abbrev further_events : List (Event ℕ ℕ)
further_events = cancel_call 0 ∷ thread_begins ∷ thread_round 0 ∷ thread_begins ∷ []

abbrev crash : Event ℕ ℕ
crash = action_escapes

step-died_example :
    (crash ≡ action_escapes)
    ⊎ ((elapsed : ℕ) × (crash ≡ thread_round elapsed) × QueueRaises by_identity elapsed in_action)
unfolding program entry
step-died_example = step-died by_identity crash in_action in_action-IsValid tt refl

abbrev waiting_state : Executor ℕ ℕ
waiting_state = run_events by_identity (thread_starts ∷ schedule_call 0 0 7 ∷ []) (new_executor 0)

abbrev last_events : List (Event ℕ ℕ)
last_events =
    thread_round 0 ∷ thread_begins ∷ action_ends (result 3) ∷ thread_begins ∷ thread_round 0 ∷ []

stop_sync-IsOver_example :
    IsOver ((run_events by_identity (stop_call true ∷ last_events) waiting_state).futures 0)
unfolding program entry
stop_sync-IsOver_example =
    stop_sync-IsOver by_identity last_events waiting_state 0
      (run_events-IsValid by_identity (thread_starts ∷ schedule_call 0 0 7 ∷ []) 0) refl
      (omega arith) refl (omega arith)

stop_sync-in_flight_example :
    let s' =
      run_events by_identity
        (stop_call true ∷ action_ends (result 3) ∷ thread_begins ∷ thread_round 1 ∷ [])
        in_action in
    (s'.thread ≡ ended)
    × (s'.tasks ≡ in_action.tasks)
    × (count_live s'.futures (get_tasks s'.tasks) ≡ 1)
unfolding program entry
stop_sync-in_flight_example =
    stop_sync-in_flight by_identity in_action (task 0 0 7 0) (result 3) 1 in_action-IsValid refl
      refl

-- A task that comes after the lost stop is taken up.
abbrev late_events : List (Event ℕ ℕ)
late_events = schedule_call 0 0 1 ∷ thread_round 0 ∷ thread_begins ∷ []

at_first : (new_executor {C = ℕ} {V = ℕ} 0).thread ≡ idle
unfolding program
at_first = refl

stop_before_start-lost_example :
    let s' =
      run_events by_identity (stop_call true ∷ thread_starts ∷ late_events) (new_executor 0) in
    (s' ≡ run_events by_identity (thread_starts ∷ late_events) (new_executor 0))
    × (s'.status ≡ running)
    × (s'.thread ≢ ended)
stop_before_start-lost_example =
    stop_before_start-lost by_identity true late_events (new_executor 0) at_first
      (tt, (tt, (tt, tt)))

-- A running executor with two tasks, the first of which is due at 5.
abbrev waiting_two : Executor ℕ ℕ
waiting_two = record (new_executor 1) { tasks = two; status = running; thread = waiting }

wait_round-InTime_example : InTime waiting_two (entry (task 5 0 1 0)) (wait_round waiting_two).1
unfolding new_executor
wait_round-InTime_example =
    wait_round-InTime by_identity waiting_two (entry (task 5 0 1 0)) two-IsQueue
      (mem-cons_of_mem _ mem-cons_self) refl
