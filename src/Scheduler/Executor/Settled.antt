-- ===== src/Scheduler/Executor/Settled.antt =====
-- A future keeps its last state.
pub mod Once
use py_lwip.Prelude.{ℕ, ◌<◌, ◌≡◌, ◌≢◌, refl, sym, ap, ◌∙◌, Option, none, some, List, [], ◌∷◌, arith}
use mathlib.Core.Path.{subst}
use mathlib.Core.List.{mem-cons_self}
use py_lwip.Heapq.{Outcome, returned, type_error}
use py_lwip.Scheduler.Task.{Compared, Task, Entry}
use py_lwip.Scheduler.Future.{
  FutureState, pending, running, cancelled, cancelled_and_notified, finished, IsWaiting, IsSettled,
  Completion, cancel,
}
use py_lwip.Scheduler.Queue.{Popped, popped, pop_error}
use py_lwip.Scheduler.Executor.{
  Executor, Thread, idle, waiting, processing, executing, Status, stopped, stopped_sync, Decision,
  leave, process, wait, begin, finish, run_start, stop, cancel_future, schedule_delayed,
  schedule_on, accept, run_round, begin_on, finish_on, take, on_decision, wait_round, escape,
  take_expired,
}
use py_lwip.Scheduler.Executor.Events.{
  Event, tick, schedule_call, stop_call, cancel_call, thread_starts, thread_round, thread_begins,
  action_ends, action_escapes, step, on_start, on_begin, on_end, on_escape, on_round,
}
use py_lwip.Scheduler.Executor.Valid.{IsValid}

module _ {V : Type 0} where
  cancel-settled : (st : FutureState V) → IsSettled st → cancel st ≡ st
  cancel-settled cancelled_and_notified h = refl
  cancel-settled (finished c) h = refl
  cancel-settled pending h = elim h [ ]
  cancel-settled running h = elim h [ ]
  cancel-settled cancelled h = elim h [ ]

  not-IsWaiting : (st : FutureState V) → IsSettled st → ¬ IsWaiting st
  not-IsWaiting pending h w = h
  not-IsWaiting running h w = w
  not-IsWaiting cancelled h w = h
  not-IsWaiting cancelled_and_notified h w = w
  not-IsWaiting (finished c) h w = w

module _ {C V : Type 0} where
  -- The future at `f` has its last state, and `s'` has that state too.
  abbrev Keeps : ℕ → Executor C V → Executor C V → Type 0
  Keeps f s s' = s'.futures f ≡ s.futures f

  module _ (f : ℕ) (s : Executor C V) (settled : IsSettled (s.futures f)) where
    cancel_future-Keeps : (g : ℕ) → Keeps f s (cancel_future g s)
    unfolding cancel_future
    cancel_future-Keeps g = ground (arith, cancel-settled (s.futures f) settled)

    begin_on-Keeps :
        (o : Option (FutureState V)) (t : Task C) (ts : List (Task C))
        → t.future ≢ f
        → Keeps f s (begin_on o t ts s)
    begin_on-Keeps none t ts other = refl
    begin_on-Keeps (some st) t ts other = ground arith

    finish_on-Keeps :
        (o : Option (FutureState V)) (t : Task C) (ts : List (Task C))
        → t.future ≢ f
        → Keeps f s (finish_on o t ts s)
    finish_on-Keeps none t ts other = refl
    finish_on-Keeps (some st) t ts other = ground arith

    on_start-Keeps : (th : Thread C) → Keeps f s (on_start th s)
    unfolding run_start
    on_start-Keeps idle = refl
    on_start-Keeps _ = refl

    on_escape-Keeps : (th : Thread C) → Keeps f s (on_escape th s)
    unfolding escape
    on_escape-Keeps (executing t ts) = refl
    on_escape-Keeps _ = refl

    on_begin-Keeps : IsValid s → (th : Thread C) → s.thread ≡ th → Keeps f s (on_begin th s)
    unfolding begin
    on_begin-Keeps v (processing []) at = refl
    on_begin-Keeps v (processing (t ∷ ts)) at =
        let w = (rw at at (v.ledger (rw at tt))).waits t mem-cons_self in
        begin_on-Keeps _ t ts (λ e. not-IsWaiting (s.futures f) settled (rw e at w))
    on_begin-Keeps v _ at = refl

    on_end-Keeps :
        IsValid s → (c : Completion V) (th : Thread C) → s.thread ≡ th → Keeps f s (on_end c th s)
    unfolding finish
    on_end-Keeps v c (executing t ts) at =
        let now = (rw at at (v.ledger (rw at tt))).current_runs t.future refl in
        finish_on-Keeps _ t ts (λ e. subst IsSettled (sym (ap s.futures e) ∙ now) settled)
    on_end-Keeps v c _ at = refl

module _ {C V : Type 0} (compare_calls : C → C → Compared) where
  accept-Keeps :
      (f : ℕ) (s : Executor C V) (o : Outcome (Entry C))
      → f < s.next_future
      → Keeps f s (accept compare_calls o s).0
  accept-Keeps f s (returned q) old = ground arith
  accept-Keeps f s (type_error q) old = ground arith

  schedule_on-Keeps :
      (f : ℕ) (st : Status) (delay priority : ℕ) (call : C) (s : Executor C V)
      → f < s.next_future
      → Keeps f s (schedule_on compare_calls st delay priority call s).0
  schedule_on-Keeps f Status.running delay priority call s old = accept-Keeps f s _ old
  schedule_on-Keeps f stopped delay priority call s old = refl
  schedule_on-Keeps f stopped_sync delay priority call s old = refl

  take-Keeps : (f : ℕ) (s : Executor C V) (o : Popped C) → Keeps f s (take compare_calls o s)
  take-Keeps f s (popped tasks q) = refl
  take-Keeps f s (pop_error q) = refl

  on_decision-Keeps :
      (f : ℕ) (d : Decision) (s : Executor C V) → Keeps f s (on_decision compare_calls d s)
  unfolding take_expired
  on_decision-Keeps f leave s = refl
  on_decision-Keeps f process s = take-Keeps f s _
  on_decision-Keeps f (wait timeout) s = refl

  on_round-Keeps :
      (f elapsed : ℕ) (th : Thread C) (s : Executor C V)
      → Keeps f s (on_round compare_calls elapsed th s)
  unfolding run_round
  on_round-Keeps f elapsed waiting s = on_decision-Keeps f (wait_round s).1 _
  on_round-Keeps f elapsed _ s = refl

  -- No event changes a future that has its last state.
  pub step-settled :
      (e : Event C V) (s : Executor C V) (f : ℕ)
      → IsValid s
      → f < s.next_future
      → IsSettled (s.futures f)
      → (step compare_calls e s).futures f ≡ s.futures f
  unfolding stop schedule_delayed
  step-settled (tick n) s f v old h = refl
  step-settled (schedule_call delay priority call) s f v old h =
      schedule_on-Keeps f s.status delay priority call s old
  step-settled (stop_call sync) s f v old h = refl
  step-settled (cancel_call g) s f v old h = cancel_future-Keeps f s h g
  step-settled thread_starts s f v old h = on_start-Keeps f s h s.thread
  step-settled (thread_round elapsed) s f v old h = on_round-Keeps f elapsed s.thread s
  step-settled thread_begins s f v old h = on_begin-Keeps f s h v s.thread refl
  step-settled (action_ends c) s f v old h = on_end-Keeps f s h v c s.thread refl
  step-settled action_escapes s f v old h = on_escape-Keeps f s h s.thread
