-- ===== src/Scheduler/Executor/InOrder.antt =====
-- The order in which the thread of a SingleThreadExecutor takes up the tasks: _process_task of
-- lwip_py/utility/scheduler.py is called for them in the order of their times.
pub mod Steps
pub mod Trace
use mathlib.Core.List.{
  Mem, Perm, Pairwise, mem-append_left, mem-append_right, forall_mem-cons, not-mem-nil,
  mem-cons_self, mem-cons_of_mem,
}
use mathlib.Core.List.Perm
use mathlib.Core.List.Pairwise
use native.Mathlib.Bridge.{le_prop}
use py_lwip.Prelude.{ℕ, ◌+◌, ◌≤◌, ◌≡◌, ◌≢◌, refl, List, [], ◌∷◌, ◌++◌, arith}
use py_lwip.Heapq.{Outcome, returned, type_error, items}
use py_lwip.Scheduler.Task.{Compared, Task, Entry}
use py_lwip.Scheduler.Queue.{
  TaskQueue, Popped, popped, pop_error, get_tasks, schedule_task, pop_tasks_till_timestamp, IsQueue,
}
use py_lwip.Scheduler.Queue.Due.{pop_tasks_till_timestamp-Due}
use py_lwip.Scheduler.Queue.Errors.{schedule_task-perm, schedule_task-IsQueue}
use py_lwip.Scheduler.Executor.{
  Executor, Thread, Status, running, stopped, stopped_sync, idle, waiting, ended, died, processing,
  executing, raised_type_error, new_executor, run_start, stop, cancel_future, finish, escape, begin,
  schedule_delayed, schedule_on, new_task, accept, with_future, take, on_decision, Decision, leave,
  process, wait, wait_round, run_round,
}
use py_lwip.Scheduler.Executor.Events.{
  Event, tick, schedule_call, stop_call, cancel_call, thread_starts, thread_round, thread_begins,
  action_ends, action_escapes, step, run_events, on_start, on_begin, on_end, on_escape, on_round,
}
use py_lwip.Scheduler.Executor.Valid.{taken, IsAlive}

module _ {C : Type 0} where
  abbrev pub TimeLe : Task C → Task C → Type 0
  TimeLe t u = t.abs_time ≤ u.abs_time

  -- No task of the list has a time before `b`.
  abbrev pub AllFrom : ℕ → List (Task C) → Type 0
  AllFrom b ts = (t : Task C) → Mem t ts → b ≤ t.abs_time

  pub AllFrom-cons :
      (b : ℕ) (t : Task C) (ts : List (Task C)) → b ≤ t.abs_time → AllFrom b ts → AllFrom b (t ∷ ts)
  AllFrom-cons b t ts first rest = (forall_mem-cons (λ u. le_prop)).1 (first, rest)

  pub AllFrom-perm : (b : ℕ) (ts us : List (Task C)) → Perm ts us → AllFrom b us → AllFrom b ts
  AllFrom-perm b ts us same all t m = all t ((Perm.mem_iff same).0 m)

  -- The task that _process_task is called for, if the thread goes on to the next task.
  abbrev pub next_of : Thread C → List (Task C)
  next_of (processing (t ∷ ts)) = t ∷ []
  next_of _ = []

module _ {C V : Type 0} where
  abbrev pub taken_up : Event C V → Executor C V → List (Task C)
  taken_up thread_begins s = next_of s.thread
  taken_up _ s = []

  -- Nothing that is still to come is before `b`.
  pub record NothingBefore (b : ℕ) (s : Executor C V) : Type 0 where
    pub now : b ≤ s.clock
    pub taken_tasks : AllFrom b (taken s.thread)
    pub queued : IsAlive s.thread → AllFrom b (get_tasks s.tasks)

module _ {C V : Type 0} (compare_calls : C → C → Compared) where
  -- The tasks that _process_task is called for in an execution, in this order.
  abbrev pub processed : List (Event C V) → Executor C V → List (Task C)
  processed [] s = []
  processed (e ∷ es) s = taken_up e s ++ processed es (step compare_calls e s)

  abbrev pub IsAccepted : Event C V → Executor C V → Type 0
  IsAccepted (schedule_call delay priority call) s =
      (schedule_delayed compare_calls delay priority call s).1 ≢ raised_type_error
  IsAccepted _ s = Unit

  -- No call of schedule_delayed raises TypeError.
  abbrev pub AllAccepted : List (Event C V) → Executor C V → Type 0
  AllAccepted [] s = Unit
  AllAccepted (e ∷ es) s = IsAccepted e s × AllAccepted es (step compare_calls e s)

  -- The tasks that the thread has taken are sorted, due, and no later than those in the queue.
  pub record InOrder (s : Executor C V) : Type 0 where
    pub queue : IsAlive s.thread → IsQueue compare_calls s.tasks
    pub sorted : Pairwise TimeLe (taken s.thread)
    pub due : (t : Task C) → Mem t (taken s.thread) → t.abs_time ≤ s.clock
    pub first : (t : Task C) → Mem t (taken s.thread) → AllFrom t.abs_time (get_tasks s.tasks)

  -- A step keeps the order, and whatever bound holds.
  abbrev pub Keeps : Executor C V → Executor C V → Type 0
  Keeps s s' = InOrder s' × ((b : ℕ) → NothingBefore b s → NothingBefore b s')

  with_future-Keeps :
      (delay priority : ℕ) (call : C) (s : Executor C V) (q : TaskQueue C)
      → InOrder s
      → (IsAlive s.thread → IsQueue compare_calls q)
      → Perm (get_tasks q) (new_task delay priority call s ∷ get_tasks s.tasks)
      → Keeps s (with_future s q)
  with_future-Keeps delay priority call s q v valid same =
      let t = new_task delay priority call s in
      let all : (b : ℕ) → b ≤ s.clock → AllFrom b (get_tasks s.tasks) → AllFrom b (get_tasks q) =
        λ b le old.
          AllFrom-perm b (get_tasks q) (t ∷ get_tasks s.tasks) same
            (AllFrom-cons b t (get_tasks s.tasks) (omega arith) old) in
      (
        record {
          queue = valid;
          sorted = v.sorted;
          due = v.due;
          first = λ u m. all u.abs_time (v.due u m) (v.first u m);
        },
        λ b n. record {
          now = n.now;
          taken_tasks = n.taken_tasks;
          queued = λ a. all b n.now (n.queued a);
        },
      )

  pub schedule_delayed-Keeps :
      (delay priority : ℕ) (call : C) (s : Executor C V)
      → (schedule_delayed compare_calls delay priority call s).1 ≢ raised_type_error
      → InOrder s
      → Keeps s (schedule_delayed compare_calls delay priority call s).0
  unfolding schedule_delayed
  schedule_delayed-Keeps delay priority call s ok v = on_status s.status ok
    where
      t : Task C
      t = new_task delay priority call s

      on_outcome :
          (o : Outcome (Entry C))
          → schedule_task compare_calls s.tasks t ≡ o
          → Perm (get_tasks (items o)) (t ∷ get_tasks s.tasks)
          → (accept compare_calls o s).1 ≢ raised_type_error
          → Keeps s (accept compare_calls o s).0
      on_outcome (returned q) r same ok =
          with_future-Keeps delay priority call s q v
            (λ a. schedule_task-IsQueue compare_calls s.tasks t q (v.queue a) r) same
      on_outcome (type_error q) r same ok = absurd (ok refl)

      on_status :
          (st : Status)
          → (schedule_on compare_calls st delay priority call s).1 ≢ raised_type_error
          → Keeps s (schedule_on compare_calls st delay priority call s).0
      on_status running =
          on_outcome (schedule_task compare_calls s.tasks t) refl
            (schedule_task-perm compare_calls s.tasks t)
      on_status stopped = λ ok. (v, λ b n. n)
      on_status stopped_sync = λ ok. (v, λ b n. n)
