-- ===== src/Scheduler/Executor/Deaths.antt =====
-- What can end the thread of a SingleThreadExecutor by an exception.
use py_lwip.Prelude.{ℕ, ◌+◌, ◌≡◌, ◌≢◌, refl, sym, ◌∙◌, List, [], ◌∷◌, inl, inr, ◌⊎◌, arith}
use mathlib.Core.List.{mem-cons_self}
use py_lwip.Heapq.{Outcome, returned, type_error}
use py_lwip.Scheduler.Task.{Compared, Task, Entry}
use py_lwip.Scheduler.Future.{
  FutureState, pending, running, cancelled, cancelled_and_notified, finished, IsWaiting, Completion,
  set_running_or_notify_cancel,
}
use py_lwip.Scheduler.Queue.{TaskQueue, Popped, popped, pop_error, pop_tasks_till_timestamp}
use py_lwip.Scheduler.Executor.{
  Executor, Thread, idle, waiting, processing, executing, ended, died, Status, stopped,
  stopped_sync, Decision, leave, process, wait, begin, finish, run_start, stop, cancel_future,
  schedule_delayed, schedule_on, accept, run_round, begin_on, take, on_decision, wait_round,
  take_expired,
}
use py_lwip.Scheduler.Executor.Events.{
  Event, tick, schedule_call, stop_call, cancel_call, thread_starts, thread_round, thread_begins,
  action_ends, action_escapes, step, on_start, on_begin, on_end, on_round,
}
use py_lwip.Scheduler.Executor.Valid.{IsAlive, IsValid}

IsAlive-ne : {C : Type 0} {th : Thread C} → IsAlive th → th ≢ died
IsAlive-ne a e = elim (rw e at a) [ ]

module _ {C V : Type 0} where
  begin_on-alive :
      (s : Executor C V) (t : Task C) (ts : List (Task C)) (st : FutureState V)
      → IsWaiting st
      → (begin_on (set_running_or_notify_cancel st) t ts s).thread ≢ died
  begin_on-alive s t ts pending w e = cc
  begin_on-alive s t ts cancelled w e = cc
  begin_on-alive s t ts running w e = w
  begin_on-alive s t ts cancelled_and_notified w e = w
  begin_on-alive s t ts (finished c) w e = w

  on_begin-alive :
      (s : Executor C V) (th : Thread C)
      → IsValid s
      → s.thread ≡ th
      → IsAlive th
      → (on_begin th s).thread ≢ died
  unfolding begin
  on_begin-alive s (processing []) v at a e = cc
  on_begin-alive s (processing (t ∷ ts)) v at a e =
      begin_on-alive s t ts (s.futures t.future)
        ((rw at at (v.ledger (rw at tt))).waits t mem-cons_self) e
  on_begin-alive s idle v at a e = cc
  on_begin-alive s waiting v at a e = cc
  on_begin-alive s ended v at a e = cc
  on_begin-alive s died v at a e = a
  on_begin-alive s (executing t ts) v at a e = cc

  on_end-alive :
      (c : Completion V) (s : Executor C V) (th : Thread C)
      → IsValid s
      → s.thread ≡ th
      → IsAlive th
      → (on_end c th s).thread ≢ died
  unfolding finish
  on_end-alive c s (executing t ts) v at a e =
      let l = rw at at (v.ledger (rw at tt)) in cc (rw (l.current_runs t.future refl) at e)
  on_end-alive c s idle v at a e = cc
  on_end-alive c s waiting v at a e = cc
  on_end-alive c s ended v at a e = cc
  on_end-alive c s died v at a e = a
  on_end-alive c s (processing ts) v at a e = cc

  on_start-alive :
      (s : Executor C V) (th : Thread C)
      → s.thread ≡ th
      → IsAlive th
      → (on_start th s).thread ≢ died
  unfolding run_start
  on_start-alive s idle at a e = cc
  on_start-alive s waiting at a e = cc
  on_start-alive s ended at a e = cc
  on_start-alive s died at a e = a
  on_start-alive s (processing ts) at a e = cc
  on_start-alive s (executing t ts) at a e = cc

module _ {C V : Type 0} (compare_calls : C → C → Compared) where
  -- The comparison of two entries raises while the thread takes the expired tasks.
  abbrev pub QueueRaises : ℕ → Executor C V → Type 0
  QueueRaises elapsed s =
      (q : TaskQueue C) × (pop_tasks_till_timestamp compare_calls s.tasks (s.clock + elapsed)
        ≡ pop_error q)

  take-died :
      (s : Executor C V) (o : Popped C)
      → (take compare_calls o s).thread ≡ died
      → (q : TaskQueue C) × (o ≡ pop_error q)
  take-died s (popped tasks q) e = absurd (cc)
  take-died s (pop_error q) e = (q, refl)

  on_decision-died :
      (elapsed : ℕ) (s : Executor C V) (st : Status) (d : Decision)
      → IsAlive s.thread
      → (on_decision compare_calls d (record s { status = st; clock = s.clock + elapsed })).thread
        ≡ died
      → QueueRaises elapsed s
  unfolding take_expired
  on_decision-died elapsed s st leave a e = absurd (cc)
  on_decision-died elapsed s st process a e = take-died _ _ e
  on_decision-died elapsed s st (wait timeout) a e = elim (rw e at a) [ ]

  on_round-died :
      (elapsed : ℕ) (s : Executor C V) (th : Thread C)
      → s.thread ≡ th
      → IsAlive th
      → (on_round compare_calls elapsed th s).thread ≡ died
      → QueueRaises elapsed s
  unfolding run_round
  on_round-died elapsed s waiting at a e =
      on_decision-died elapsed s (wait_round s).0 (wait_round s).1 (rw at tt) e
  on_round-died elapsed s idle at a e = absurd (cc)
  on_round-died elapsed s ended at a e = absurd (cc)
  on_round-died elapsed s died at a e = elim a [ ]
  on_round-died elapsed s (processing ts) at a e = absurd (cc)
  on_round-died elapsed s (executing t ts) at a e = absurd (cc)

  pub accept-thread :
      (s : Executor C V) (o : Outcome (Entry C)) → (accept compare_calls o s).0.thread ≡ s.thread
  accept-thread s (returned q) = refl
  accept-thread s (type_error q) = refl

  pub schedule_on-thread :
      (st : Status) (delay priority : ℕ) (call : C) (s : Executor C V)
      → (schedule_on compare_calls st delay priority call s).0.thread ≡ s.thread
  schedule_on-thread Status.running delay priority call s = accept-thread s _
  schedule_on-thread stopped delay priority call s = refl
  schedule_on-thread stopped_sync delay priority call s = refl

  pub cancel_future-thread : (f : ℕ) (s : Executor C V) → (cancel_future f s).thread ≡ s.thread
  unfolding cancel_future
  cancel_future-thread f s = ground arith

  -- From a state that satisfies the invariant, with a thread that is alive, an event ends the
  -- thread by an exception only in two ways: an action ends by an exception that is not an
  -- Exception, or a comparison of the queue raises TypeError. No future is ever in a state in which
  -- _process_task cannot take it up or complete it.
  pub step-died :
      (e : Event C V) (s : Executor C V)
      → IsValid s
      → IsAlive s.thread
      → (step compare_calls e s).thread ≡ died
      → (e ≡ action_escapes) ⊎ ((elapsed : ℕ) × (e ≡ thread_round elapsed) × QueueRaises elapsed s)
  unfolding stop schedule_delayed
  step-died (tick n) s v a dead = absurd (IsAlive-ne a dead)
  step-died (schedule_call delay priority call) s v a dead =
      absurd (IsAlive-ne a (sym (schedule_on-thread s.status delay priority call s) ∙ dead))
  step-died (stop_call sync) s v a dead = absurd (IsAlive-ne a dead)
  step-died (cancel_call g) s v a dead =
      absurd (IsAlive-ne a (sym (cancel_future-thread g s) ∙ dead))
  step-died thread_starts s v a dead = absurd (on_start-alive s s.thread refl a dead)
  step-died (thread_round elapsed) s v a dead =
      inr (elapsed, refl, on_round-died elapsed s s.thread refl a dead)
  step-died thread_begins s v a dead = absurd (on_begin-alive s s.thread v refl a dead)
  step-died (action_ends c) s v a dead = absurd (on_end-alive c s s.thread v refl a dead)
  step-died action_escapes s v a dead = inl refl
