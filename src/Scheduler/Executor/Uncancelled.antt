-- ===== src/Scheduler/Executor/Uncancelled.antt =====
-- Executions of a SingleThreadExecutor in which nobody cancels a future, as when the futures are
-- dropped by those who got them.
use py_lwip.Prelude.{ℕ, ◌+◌, ◌≡◌, refl, false, List, [], ◌∷◌, ◌==◌, inl, inr, Bool-cases}
use py_lwip.Heapq.{Outcome, returned, type_error}
use py_lwip.Scheduler.Task.{Compared, Task, Entry}
use py_lwip.Scheduler.Future.{
  FutureState, pending, cancelled, cancelled_and_notified, finished, Completion, is_cancelled,
  set_running_or_notify_cancel, complete,
}
use py_lwip.Scheduler.Queue.{Popped, popped, pop_error}
use py_lwip.Scheduler.Executor.{
  Executor, Thread, idle, waiting, processing, executing, Status, running, stopped, stopped_sync,
  Decision, leave, process, wait, wait_round, on_decision, take, take_expired, run_round, run_start,
  begin, begin_on, finish_on, finish, stop, schedule_delayed, schedule_on, accept, update,
}
use py_lwip.Scheduler.Executor.Events.{
  Event, tick, schedule_call, stop_call, cancel_call, thread_starts, thread_round, thread_begins,
  action_ends, action_escapes, step, on_start, on_begin, on_end, on_round,
}

module _ {C V : Type 0} where
  abbrev pub NoneCancelled : Executor C V → Type 0
  NoneCancelled s = (f : ℕ) → is_cancelled (s.futures f) ≡ false

  -- Nobody cancels a future, and no action ends the thread.
  abbrev pub IsPlain : Event C V → Type 0
  IsPlain (cancel_call f) = ⊥
  IsPlain action_escapes = ⊥
  IsPlain _ = Unit

update-uncancelled :
    {V : Type 0} (futures : ℕ → FutureState V) (i : ℕ) (st : FutureState V)
    → is_cancelled st ≡ false
    → ((f : ℕ) → is_cancelled (futures f) ≡ false)
    → (f : ℕ) → is_cancelled (update futures i st f) ≡ false
update-uncancelled futures i st live all f = elim (Bool-cases (i == f)) [
  | inl here ↦ rw here live
  | inr elsewhere ↦ rw elsewhere (all f)
]

module _ {C V : Type 0} where
  begin_on-NoneCancelled :
      (s : Executor C V) (t : Task C) (ts : List (Task C)) (st : FutureState V)
      → is_cancelled st ≡ false
      → NoneCancelled s
      → NoneCancelled (begin_on (set_running_or_notify_cancel st) t ts s)
  begin_on-NoneCancelled s t ts pending live n =
      update-uncancelled s.futures t.future FutureState.running refl n
  begin_on-NoneCancelled s t ts cancelled live n = cc
  begin_on-NoneCancelled s t ts FutureState.running live n = n
  begin_on-NoneCancelled s t ts cancelled_and_notified live n = n
  begin_on-NoneCancelled s t ts (finished c) live n = n

  on_begin-NoneCancelled :
      (th : Thread C) (s : Executor C V) → NoneCancelled s → NoneCancelled (on_begin th s)
  unfolding begin
  on_begin-NoneCancelled (processing []) s n = n
  on_begin-NoneCancelled (processing (t ∷ ts)) s n =
      begin_on-NoneCancelled s t ts (s.futures t.future) (n t.future) n
  on_begin-NoneCancelled _ s n = n

  finish_on-NoneCancelled :
      (c : Completion V) (s : Executor C V) (t : Task C) (ts : List (Task C)) (st : FutureState V)
      → NoneCancelled s
      → NoneCancelled (finish_on (complete c st) t ts s)
  finish_on-NoneCancelled c s t ts pending n =
      update-uncancelled s.futures t.future (finished c) refl n
  finish_on-NoneCancelled c s t ts FutureState.running n =
      update-uncancelled s.futures t.future (finished c) refl n
  finish_on-NoneCancelled c s t ts st n = n

  on_end-NoneCancelled :
      (c : Completion V) (th : Thread C) (s : Executor C V)
      → NoneCancelled s
      → NoneCancelled (on_end c th s)
  unfolding finish
  on_end-NoneCancelled c (executing t ts) s n =
      finish_on-NoneCancelled c s t ts (s.futures t.future) n
  on_end-NoneCancelled c _ s n = n

  on_start-NoneCancelled :
      (th : Thread C) (s : Executor C V) → NoneCancelled s → NoneCancelled (on_start th s)
  unfolding run_start
  on_start-NoneCancelled idle s n = n
  on_start-NoneCancelled _ s n = n

module _ {C V : Type 0} (compare_calls : C → C → Compared) where
  accept-NoneCancelled :
      (o : Outcome (Entry C)) (s : Executor C V)
      → NoneCancelled s
      → NoneCancelled (accept compare_calls o s).0
  accept-NoneCancelled (returned q) s n = update-uncancelled s.futures s.next_future pending refl n
  accept-NoneCancelled (type_error q) s n =
      update-uncancelled s.futures s.next_future pending refl n

  schedule_on-NoneCancelled :
      (st : Status) (delay priority : ℕ) (call : C) (s : Executor C V)
      → NoneCancelled s
      → NoneCancelled (schedule_on compare_calls st delay priority call s).0
  schedule_on-NoneCancelled running delay priority call s n = accept-NoneCancelled _ s n
  schedule_on-NoneCancelled stopped delay priority call s n = n
  schedule_on-NoneCancelled stopped_sync delay priority call s n = n

  take-NoneCancelled :
      (o : Popped C) (s : Executor C V) → NoneCancelled s → NoneCancelled (take compare_calls o s)
  take-NoneCancelled (popped tasks q) s n = n
  take-NoneCancelled (pop_error q) s n = n

  on_round-NoneCancelled :
      (elapsed : ℕ) (th : Thread C) (s : Executor C V)
      → NoneCancelled s
      → NoneCancelled (on_round compare_calls elapsed th s)
  unfolding run_round take_expired
  on_round-NoneCancelled elapsed waiting s n = on_choice (wait_round s).1
    where
      on_choice :
          (d : Decision)
          → NoneCancelled (
              on_decision compare_calls d
                (record s { status = (wait_round s).0; clock = s.clock + elapsed }))
      on_choice leave = n
      on_choice process = take-NoneCancelled _ _ n
      on_choice (wait timeout) = n
  on_round-NoneCancelled elapsed _ s n = n

  pub step-NoneCancelled :
      (e : Event C V) (s : Executor C V)
      → IsPlain e
      → NoneCancelled s
      → NoneCancelled (step compare_calls e s)
  unfolding stop schedule_delayed
  step-NoneCancelled (tick k) s h n = n
  step-NoneCancelled (schedule_call delay priority call) s h n =
      schedule_on-NoneCancelled s.status delay priority call s n
  step-NoneCancelled (stop_call sync) s h n = n
  step-NoneCancelled (cancel_call f) s h n = elim h [ ]
  step-NoneCancelled thread_starts s h n = on_start-NoneCancelled s.thread s n
  step-NoneCancelled (thread_round elapsed) s h n = on_round-NoneCancelled elapsed s.thread s n
  step-NoneCancelled thread_begins s h n = on_begin-NoneCancelled s.thread s n
  step-NoneCancelled (action_ends c) s h n = on_end-NoneCancelled c s.thread s n
  step-NoneCancelled action_escapes s h n = elim h [ ]
