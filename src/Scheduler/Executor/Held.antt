-- ===== src/Scheduler/Executor/Held.antt =====
-- The tasks that a SingleThreadExecutor holds: each call that is accepted is held until its action
-- has ended.
pub mod Executions
use mathlib.Core.List.{Perm, mem-cons_self}
use py_lwip.Prelude.{ℕ, ◌+◌, ◌≡◌, refl, Bool, false, List, [], ◌∷◌, ◌++◌, arith}
use py_lwip.Prelude.Totals.{total, total-append, total-perm}
use py_lwip.Heapq.{Outcome, returned, type_error, items}
use py_lwip.Scheduler.Task.{Compared, Task, Entry}
use py_lwip.Scheduler.Future.{
  FutureState, pending, cancelled, cancelled_and_notified, finished, Completion, IsWaiting,
  is_cancelled, set_running_or_notify_cancel,
}
use py_lwip.Scheduler.Queue.{Popped, popped, pop_error, get_tasks, pop_tasks_till_timestamp}
use py_lwip.Scheduler.Queue.Keeps.{pop_tasks_till_timestamp-Taken}
use py_lwip.Scheduler.Queue.Errors.{schedule_task-perm}
use py_lwip.Scheduler.Executor.{
  Executor, Thread, idle, waiting, processing, executing, Status, running, stopped, stopped_sync,
  Decision, leave, process, wait, wait_round, on_decision, take, take_expired, run_round, run_start,
  begin, begin_on, finish, stop, schedule_delayed, schedule_on, accept, new_task,
}
use py_lwip.Scheduler.Executor.Events.{
  Event, tick, schedule_call, stop_call, cancel_call, thread_starts, thread_round, thread_begins,
  action_ends, action_escapes, step, on_start, on_begin, on_end, on_round,
}
use py_lwip.Scheduler.Executor.Valid.{started, IsAlive, IsValid}
use py_lwip.Scheduler.Executor.Uncancelled.{NoneCancelled, IsPlain}

module _ {C : Type 0} where
  abbrev pub accepted_at : Status → C → List C
  accepted_at running call = call ∷ []
  accepted_at _ call = []

  abbrev pub executed_by : Thread C → List C
  executed_by (executing t ts) = t.call ∷ []
  executed_by _ = []

module _ {C V : Type 0} where
  -- The calls that an event brings in, and those whose action it ends.
  abbrev pub accepted : Event C V → Executor C V → List C
  accepted (schedule_call delay priority call) s = accepted_at s.status call
  accepted _ s = []

  abbrev pub executed : Event C V → Executor C V → List C
  executed (action_ends c) s = executed_by s.thread
  executed _ s = []

module _ {C : Type 0} (weight : C → ℕ) where
  -- What the calls that the thread executes or has taken, and those in the queue, weigh together.
  abbrev pub total_calls : List (Task C) → ℕ
  total_calls ts = total (λ t. weight t.call) ts

  abbrev pub held_by : Thread C → List (Task C) → ℕ
  held_by th queued = total_calls (started th ++ queued)

  abbrev pub total_held : {V : Type 0} → Executor C V → ℕ
  total_held s = held_by s.thread (get_tasks s.tasks)

  held_by-append :
      (th : Thread C) (queued : List (Task C))
      → held_by th queued ≡ total_calls (started th) + total_calls queued
  held_by-append th queued = total-append (λ t. weight t.call) (started th) queued

module _ {C V : Type 0} (compare_calls : C → C → Compared) (weight : C → ℕ) where
  -- What an event makes of the weight of the calls that are held.
  abbrev Accounts : Executor C V → List C → List C → Executor C V → Type 0
  Accounts s new over s' =
      total_held weight s' + total weight over ≡ total_held weight s + total weight new

  accept-held :
      (delay priority : ℕ) (call : C) (s : Executor C V) (o : Outcome (Entry C))
      → Perm (get_tasks (items o)) (new_task delay priority call s ∷ get_tasks s.tasks)
      → Accounts s (call ∷ []) [] (accept compare_calls o s).0
  accept-held delay priority call s (returned q) same = omega (
    arith,
    held_by-append weight s.thread (get_tasks q),
    held_by-append weight s.thread (get_tasks s.tasks),
    total-perm (λ t. weight t.call) same,
  )
  accept-held delay priority call s (type_error q) same = omega (
    arith,
    held_by-append weight s.thread (get_tasks q),
    held_by-append weight s.thread (get_tasks s.tasks),
    total-perm (λ t. weight t.call) same,
  )

  schedule_on-held :
      (st : Status) (delay priority : ℕ) (call : C) (s : Executor C V)
      → Accounts s (accepted_at st call) [] (schedule_on compare_calls st delay priority call s).0
  schedule_on-held running delay priority call s =
      accept-held delay priority call s _ (schedule_task-perm compare_calls s.tasks _)
  schedule_on-held stopped delay priority call s = refl
  schedule_on-held stopped_sync delay priority call s = refl

  pub schedule_delayed-held :
      (delay priority : ℕ) (call : C) (s : Executor C V)
      → Accounts s
          (accepted_at s.status call)
          []
          (schedule_delayed compare_calls delay priority call s).0
  unfolding schedule_delayed
  schedule_delayed-held delay priority call s = schedule_on-held s.status delay priority call s

  take-held :
      (s : Executor C V) (o : Popped C)
      → s.thread ≡ waiting
      → IsValid s
      → pop_tasks_till_timestamp compare_calls s.tasks s.clock ≡ o
      → IsAlive (take compare_calls o s).thread
      → Accounts s [] [] (take compare_calls o s)
  take-held s (pop_error q) at v r a = elim a [ ]
  take-held s (popped tasks q) at v r a =
      let out =
        pop_tasks_till_timestamp-Taken compare_calls s.tasks s.clock tasks q (v.keyed (rw at tt))
          r in
      rw at (omega (arith, total-perm (λ t. weight t.call) out.same))

  on_decision-held :
      (d : Decision) (s : Executor C V)
      → s.thread ≡ waiting
      → IsValid s
      → IsAlive (on_decision compare_calls d s).thread
      → Accounts s [] [] (on_decision compare_calls d s)
  unfolding take_expired
  on_decision-held leave s at v a = rw at refl
  on_decision-held process s at v a = take-held s _ at v refl a
  on_decision-held (wait timeout) s at v a = refl

  on_round-held :
      (elapsed : ℕ) (th : Thread C) (s : Executor C V)
      → s.thread ≡ th
      → IsValid s
      → IsAlive (on_round compare_calls elapsed th s).thread
      → Accounts s [] [] (on_round compare_calls elapsed th s)
  unfolding run_round
  on_round-held elapsed waiting s at v a =
      on_decision-held (wait_round s).1
        (record s { status = (wait_round s).0; clock = s.clock + elapsed }) at
        (record { keyed = v.keyed; due = λ t m. omega (arith, v.due t m); ledger = v.ledger }) a
  on_round-held elapsed _ s at v a = refl

  begin_on-held :
      (s : Executor C V) (t : Task C) (ts : List (Task C)) (st : FutureState V)
      → s.thread ≡ processing (t ∷ ts)
      → IsWaiting st
      → is_cancelled st ≡ false
      → Accounts s [] [] (begin_on (set_running_or_notify_cancel st) t ts s)
  begin_on-held s t ts pending at w n = rw at refl
  begin_on-held s t ts cancelled at w n = cc
  begin_on-held s t ts FutureState.running at w n = elim w [ ]
  begin_on-held s t ts cancelled_and_notified at w n = elim w [ ]
  begin_on-held s t ts (finished c) at w n = elim w [ ]

  on_begin-held :
      (th : Thread C) (s : Executor C V)
      → s.thread ≡ th
      → IsValid s
      → NoneCancelled s
      → Accounts s [] [] (on_begin th s)
  unfolding begin
  on_begin-held (processing []) s at v n = rw at refl
  on_begin-held (processing (t ∷ ts)) s at v n =
      begin_on-held s t ts (s.futures t.future) at
        ((rw at at (v.ledger (rw at tt))).waits t mem-cons_self) (n t.future)
  on_begin-held _ s at v n = refl

  on_end-held :
      (c : Completion V) (th : Thread C) (s : Executor C V)
      → s.thread ≡ th
      → IsValid s
      → Accounts s [] (executed_by th) (on_end c th s)
  unfolding finish
  on_end-held c (executing t ts) s at v =
      let l = rw at at (v.ledger (rw at tt)) in
      rw (l.current_runs t.future refl) (rw at (omega arith))
  on_end-held c _ s at v = refl

  on_start-held :
      (th : Thread C) (s : Executor C V) → s.thread ≡ th → Accounts s [] [] (on_start th s)
  unfolding run_start
  on_start-held idle s at = rw at refl
  on_start-held _ s at = refl

  -- While no future is cancelled and the thread does not end by an exception, an event keeps the
  -- accounts: the calls that are held after it and those whose action it ends are those that were
  -- held before it and those that it brings in. This is stated of
  -- what they weigh together, for any weight of calls.
  pub step-held :
      (e : Event C V) (s : Executor C V)
      → IsPlain e
      → IsValid s
      → NoneCancelled s
      → IsAlive (step compare_calls e s).thread
      → total_held weight (step compare_calls e s) + total weight (executed e s)
        ≡ total_held weight s + total weight (accepted e s)
  unfolding stop
  step-held (tick n) s h v n' a = refl
  step-held (schedule_call delay priority call) s h v n a =
      schedule_delayed-held delay priority call s
  step-held (stop_call sync) s h v n a = refl
  step-held (cancel_call f) s h v n a = elim h [ ]
  step-held thread_starts s h v n a = on_start-held s.thread s refl
  step-held (thread_round elapsed) s h v n a = on_round-held elapsed s.thread s refl v a
  step-held thread_begins s h v n a = on_begin-held s.thread s refl v n
  step-held (action_ends c) s h v n a = on_end-held c s.thread s refl v
  step-held action_escapes s h v n a = elim h [ ]
