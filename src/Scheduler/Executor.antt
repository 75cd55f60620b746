-- ===== src/Scheduler/Executor.antt =====
-- SingleThreadExecutor of lwip_py/utility/scheduler.py: its state, the calls of its clients, and
-- the steps of the thread in `run`. The mutex makes each of these one step.
pub mod Events
pub mod Waits
pub mod Ending
pub mod Ledger
pub mod Valid
pub mod Client
pub mod Work
pub mod Invariant
pub mod Settled
pub mod Deaths
pub mod Lasting
pub mod LostStop
pub mod Count
pub mod Drain
pub mod DrainSteps
pub mod SyncStop
pub mod InOrder
pub mod Turns
pub mod Uncancelled
pub mod Held
use py_lwip.Prelude.{
  ℕ, zero, suc, ◌+◌, ◌≤◌, ◌<◌, ◌≡◌, Bool, true, false, not, ◌&&◌, ◌||◌, Option, none, some, List,
  [], ◌∷◌, ◌++◌, map, ◌==◌, ltb, if◌then◌else◌,
}
use py_lwip.Prelude.Int.{ℤ, pos, negsuc, ◌-ℤ◌, leb_ℤ}
use py_lwip.Heapq.{Outcome, returned, type_error}
use py_lwip.Scheduler.Task.{Compared, Task, Entry}
use py_lwip.Scheduler.Future.{
  FutureState, pending, Completion, is_cancelled, cancel, set_running_or_notify_cancel, complete,
}
use py_lwip.Scheduler.Queue.{
  TaskQueue, Popped, popped, pop_error, is_empty, get_tasks, get_time_till_next_task, schedule_task,
  pop_tasks_till_timestamp,
}

pub data Status : Type 0 where
  running stopped stopped_sync : Status

-- Where the thread is: before `run`, in the loop of _wait_for_task_to_process, in the loop over
-- the expired tasks, in an action, after the end of `run`, or ended by an exception.
pub data Thread (C : Type 0) : Type 0 where
  idle waiting ended died : Thread C
  processing : List (Task C) → Thread C
  executing : Task C → List (Task C) → Thread C

-- `clock` is time.monotonic, in ticks. `futures` is the heap of Future objects, of which those
-- below `next_future` exist.
pub record Executor (C V : Type 0) : Type 0 where
  pub tasks : TaskQueue C
  pub status : Status
  pub tasks_to_finish : ℤ
  pub futures : ℕ → FutureState V
  pub next_future : ℕ
  pub clock : ℕ
  pub thread : Thread C

-- What schedule_delayed returns or raises.
pub data Reply : Type 0 where
  future : ℕ → Reply
  raised_stopped raised_type_error : Reply

-- What the loop of _wait_for_task_to_process does next: return False, return True, or wait on the
-- condition, with the timeout in ticks.
pub data Decision : Type 0 where
  leave process : Decision
  wait : Option ℤ → Decision

abbrev pub update {ℓ} : {A : Type ℓ} → (ℕ → A) → ℕ → A → ℕ → A
update f i a j = if i == j then a else f j

abbrev pub is_stopped_sync : Status → Bool
is_stopped_sync stopped_sync = true
is_stopped_sync _ = false

-- What follows on the time till the next task.
abbrev pub on_delay : Option ℤ → Decision
on_delay none = wait none
on_delay (some delay) = if leb_ℤ delay (pos 0) then process else wait (some delay)

abbrev pub is_zero : ℤ → Bool
is_zero (pos n) = n == 0
is_zero (negsuc n) = false

-- The `finally` clause of _process_task.
abbrev pub count_down : Status → ℤ → ℤ
count_down stopped_sync n = n -ℤ pos 1
count_down _ n = n

abbrev pub wait_on : Status → (nothing_left : Bool) → Decision → Status × Decision
wait_on stopped nothing_left next = (stopped, leave)
wait_on stopped_sync true next = (stopped, leave)
wait_on stopped_sync false next = (stopped_sync, next)
wait_on running nothing_left next = (running, next)

module _ {C V : Type 0} where
  unfoldable pub new_executor : ℕ → Executor C V
  new_executor now = record {
    tasks = [];
    status = stopped;
    tasks_to_finish = pos 0;
    futures = λ f. pending;
    next_future = 0;
    clock = now;
    thread = idle;
  }

  -- `run` up to its loop.
  unfoldable pub run_start : Executor C V → Executor C V
  run_start s = record s { tasks_to_finish = pos 0; status = running; thread = waiting }

  -- The number of tasks that are not cancelled.
  unfoldable pub count_live : (ℕ → FutureState V) → List (Task C) → ℕ
  count_live futures [] = 0
  count_live futures (t ∷ ts) =
      (if is_cancelled (futures t.future) then 0 else 1) + count_live futures ts

  unfoldable pub stop : Bool → Executor C V → Executor C V
  stop sync s =
      let count = count_live s.futures (get_tasks s.tasks) in
      record s {
        tasks_to_finish = pos count;
        status = if sync && not (count == 0) then stopped_sync else stopped;
      }

  -- Future.cancel of a future that a client was given.
  unfoldable pub cancel_future : ℕ → Executor C V → Executor C V
  cancel_future f s =
      if ltb f s.next_future
      then record s { futures = update s.futures f (cancel (s.futures f)) }
      else s

  -- One round of the loop in _wait_for_task_to_process: the new status, and what follows.
  unfoldable pub wait_round : Executor C V → Status × Decision
  unfolding is_empty get_time_till_next_task
  wait_round s =
      wait_on s.status (is_empty s.tasks || is_zero s.tasks_to_finish)
        (on_delay (get_time_till_next_task s.tasks s.clock))

  -- `none` is an exception of set_running_or_notify_cancel, which nothing in the thread catches.
  abbrev pub begin_on :
      Option (FutureState V) → Task C → List (Task C) → Executor C V → Executor C V
  begin_on none t ts s = record s { thread = died }
  begin_on (some st) t ts s = record s {
    futures = update s.futures t.future st;
    thread = if is_cancelled st then processing ts else executing t ts;
  }

  -- _process_task up to the call of the action.
  unfoldable pub begin : Task C → List (Task C) → Executor C V → Executor C V
  begin t ts s = begin_on (set_running_or_notify_cancel (s.futures t.future)) t ts s

  -- `none` is InvalidStateError. The `finally` clause runs in either case.
  abbrev pub finish_on :
      Option (FutureState V) → Task C → List (Task C) → Executor C V → Executor C V
  finish_on none t ts s = record s {
    tasks_to_finish = count_down s.status s.tasks_to_finish;
    thread = died;
  }
  finish_on (some st) t ts s = record s {
    futures = update s.futures t.future st;
    tasks_to_finish = count_down s.status s.tasks_to_finish;
    thread = processing ts;
  }

  -- _process_task from the end of the action. `Ending` has its two halves, the result of the future
  -- and the `finally` clause, with the calls of clients between them.
  unfoldable pub finish : Completion V → Task C → List (Task C) → Executor C V → Executor C V
  unfolding ◌-ℤ◌
  finish c t ts s = finish_on (complete c (s.futures t.future)) t ts s

  -- _process_task when the action ends by an exception that `except Exception` lets pass.
  unfoldable pub escape : Executor C V → Executor C V
  unfolding ◌-ℤ◌
  escape s = record s { tasks_to_finish = count_down s.status s.tasks_to_finish; thread = died }

module _ {C V : Type 0} where
  abbrev pub new_task : (delay priority : ℕ) → C → Executor C V → Task C
  new_task delay priority call s = record {
    abs_time = s.clock + delay;
    priority = priority;
    call = call;
    future = s.next_future;
  }

  -- The executor with a new Future and the queue that schedule_task left.
  abbrev pub with_future : Executor C V → TaskQueue C → Executor C V
  with_future s q = record s {
    tasks = q;
    futures = update s.futures s.next_future pending;
    next_future = suc s.next_future;
  }

module _ {C V : Type 0} (compare_calls : C → C → Compared) where
  abbrev pub accept : Outcome (Entry C) → Executor C V → Executor C V × Reply
  accept (returned q) s = (with_future s q, future s.next_future)
  accept (type_error q) s = (with_future s q, raised_type_error)

  abbrev pub schedule_on : Status → (delay priority : ℕ) → C → Executor C V → Executor C V × Reply
  schedule_on running delay priority call s =
      accept (schedule_task compare_calls s.tasks (new_task delay priority call s)) s
  schedule_on stopped delay priority call s = (s, raised_stopped)
  schedule_on stopped_sync delay priority call s = (s, raised_stopped)

  -- A Future is made before the queue is asked to take the task.
  unfoldable pub schedule_delayed : (delay priority : ℕ) → C → Executor C V → Executor C V × Reply
  schedule_delayed delay priority call s = schedule_on s.status delay priority call s

  abbrev pub take : Popped C → Executor C V → Executor C V
  take (popped tasks q) s = record s { tasks = q; thread = processing tasks }
  take (pop_error q) s = record s { tasks = q; thread = died }

  -- _process_expired_tasks up to its loop.
  unfoldable pub take_expired : Executor C V → Executor C V
  take_expired s = take (pop_tasks_till_timestamp compare_calls s.tasks s.clock) s

  abbrev pub on_decision : Decision → Executor C V → Executor C V
  on_decision leave s = record s { thread = ended }
  on_decision process s = take_expired s
  on_decision (wait timeout) s = s

  -- One round of the loop in `run`, or a wait; `elapsed` passes between its readings of the time.
  unfoldable pub run_round : (elapsed : ℕ) → Executor C V → Executor C V
  unfolding take_expired
  run_round elapsed s =
      let (status', decision) = wait_round s in
      on_decision decision (record s { status = status'; clock = s.clock + elapsed })
