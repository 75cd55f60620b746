-- ===== src/Scheduler/Executor/Lasting.antt =====
-- What lasts: a thread that is over, and the status of an executor that nobody stops.
use py_lwip.Prelude.{
  ℕ, ◌≡◌, refl, ap, ◌∙◌, Bool, true, false, Option, none, some, List, [], ◌∷◌, arith,
}
use py_lwip.Heapq
use py_lwip.Heapq.{Outcome, returned}
use py_lwip.Scheduler.Task.{Compared, Task, Entry}
use py_lwip.Scheduler.Future.{FutureState, Completion}
use py_lwip.Scheduler.Queue.{Popped, popped, pop_error}
use py_lwip.Scheduler.Executor.{
  Executor, Status, running, stopped, stopped_sync, Thread, idle, waiting, ended, died, processing,
  executing, Decision, leave, process, wait, stop, cancel_future, schedule_delayed, schedule_on,
  accept, run_start, begin, begin_on, finish, finish_on, escape, take, take_expired, on_decision,
  wait_round, wait_on, run_round,
}
use py_lwip.Scheduler.Executor.Events.{
  Event, tick, schedule_call, stop_call, cancel_call, thread_starts, thread_round, thread_begins,
  action_ends, action_escapes, step, IsNoStop, on_start, on_begin, on_end, on_escape, on_round,
  next_task,
}
use py_lwip.Scheduler.Executor.Deaths.{schedule_on-thread, cancel_future-thread}

abbrev pub is_over : {C : Type 0} → Thread C → Bool
is_over ended = true
is_over died = true
is_over _ = false

module _ {C V : Type 0} where
  on_start-over : (th : Thread C) (s : Executor C V) → is_over th ≡ true → on_start th s ≡ s
  on_start-over idle s over = cc
  on_start-over waiting s over = refl
  on_start-over ended s over = refl
  on_start-over died s over = refl
  on_start-over (processing ts) s over = refl
  on_start-over (executing t ts) s over = refl

  on_begin-over : (th : Thread C) (s : Executor C V) → is_over th ≡ true → on_begin th s ≡ s
  on_begin-over idle s over = refl
  on_begin-over waiting s over = refl
  on_begin-over ended s over = refl
  on_begin-over died s over = refl
  on_begin-over (processing ts) s over = cc
  on_begin-over (executing t ts) s over = refl

  on_end-over :
      (c : Completion V) (th : Thread C) (s : Executor C V) → is_over th ≡ true → on_end c th s ≡ s
  on_end-over c idle s over = refl
  on_end-over c waiting s over = refl
  on_end-over c ended s over = refl
  on_end-over c died s over = refl
  on_end-over c (processing ts) s over = refl
  on_end-over c (executing t ts) s over = cc

  on_escape-over : (th : Thread C) (s : Executor C V) → is_over th ≡ true → on_escape th s ≡ s
  on_escape-over idle s over = refl
  on_escape-over waiting s over = refl
  on_escape-over ended s over = refl
  on_escape-over died s over = refl
  on_escape-over (processing ts) s over = refl
  on_escape-over (executing t ts) s over = cc

  pub stop-thread : (sync : Bool) (s : Executor C V) → (stop sync s).thread ≡ s.thread
  unfolding stop
  stop-thread sync s = refl

  cancel_future-status : (f : ℕ) (s : Executor C V) → (cancel_future f s).status ≡ s.status
  unfolding cancel_future
  cancel_future-status f s = ground arith

module _ {C V : Type 0} (compare_calls : C → C → Compared) where
  on_round-over :
      (elapsed : ℕ) (th : Thread C) (s : Executor C V)
      → is_over th ≡ true
      → on_round compare_calls elapsed th s ≡ s
  on_round-over elapsed idle s over = refl
  on_round-over elapsed waiting s over = cc
  on_round-over elapsed ended s over = refl
  on_round-over elapsed died s over = refl
  on_round-over elapsed (processing ts) s over = refl
  on_round-over elapsed (executing t ts) s over = refl

  -- A thread that is over stays so.
  pub step-over :
      (e : Event C V) (s : Executor C V)
      → is_over s.thread ≡ true
      → (step compare_calls e s).thread ≡ s.thread
  unfolding schedule_delayed
  step-over (tick n) s over = refl
  step-over (schedule_call delay priority call) s over =
      schedule_on-thread compare_calls s.status delay priority call s
  step-over (stop_call sync) s over = stop-thread sync s
  step-over (cancel_call f) s over = cancel_future-thread compare_calls f s
  step-over thread_starts s over = ap (λ x. x.thread) (on_start-over s.thread s over)
  step-over (thread_round elapsed) s over =
      ap (λ x. x.thread) (on_round-over elapsed s.thread s over)
  step-over thread_begins s over = ap (λ x. x.thread) (on_begin-over s.thread s over)
  step-over (action_ends c) s over = ap (λ x. x.thread) (on_end-over c s.thread s over)
  step-over action_escapes s over = ap (λ x. x.thread) (on_escape-over s.thread s over)

module _ {C V : Type 0} where
  on_start-running :
      (th : Thread C) (s : Executor C V) → s.status ≡ running → (on_start th s).status ≡ running
  unfolding run_start
  on_start-running idle s runs = refl
  on_start-running waiting s runs = runs
  on_start-running ended s runs = runs
  on_start-running died s runs = runs
  on_start-running (processing ts) s runs = runs
  on_start-running (executing t ts) s runs = runs

  begin_on-status :
      (o : Option (FutureState V)) (t : Task C) (ts : List (Task C)) (s : Executor C V)
      → (begin_on o t ts s).status ≡ s.status
  begin_on-status none t ts s = refl
  begin_on-status (some st) t ts s = refl

  next_task-status : (ts : List (Task C)) (s : Executor C V) → (next_task ts s).status ≡ s.status
  unfolding begin
  next_task-status [] s = refl
  next_task-status (t ∷ ts) s = begin_on-status _ t ts s

  on_begin-status : (th : Thread C) (s : Executor C V) → (on_begin th s).status ≡ s.status
  on_begin-status idle s = refl
  on_begin-status waiting s = refl
  on_begin-status ended s = refl
  on_begin-status died s = refl
  on_begin-status (processing ts) s = next_task-status ts s
  on_begin-status (executing t ts) s = refl

  finish_on-status :
      (o : Option (FutureState V)) (t : Task C) (ts : List (Task C)) (s : Executor C V)
      → (finish_on o t ts s).status ≡ s.status
  finish_on-status none t ts s = refl
  finish_on-status (some st) t ts s = refl

  on_end-status :
      (c : Completion V) (th : Thread C) (s : Executor C V) → (on_end c th s).status ≡ s.status
  unfolding finish
  on_end-status c idle s = refl
  on_end-status c waiting s = refl
  on_end-status c ended s = refl
  on_end-status c died s = refl
  on_end-status c (processing ts) s = refl
  on_end-status c (executing t ts) s = finish_on-status _ t ts s

  on_escape-status : (th : Thread C) (s : Executor C V) → (on_escape th s).status ≡ s.status
  unfolding escape
  on_escape-status idle s = refl
  on_escape-status waiting s = refl
  on_escape-status ended s = refl
  on_escape-status died s = refl
  on_escape-status (processing ts) s = refl
  on_escape-status (executing t ts) s = refl

wait_on-running :
    (st : Status) (nothing_left : Bool) (next : Decision)
    → st ≡ running
    → (wait_on st nothing_left next).0 ≡ running
wait_on-running running nothing_left next runs = refl
wait_on-running stopped nothing_left next runs = cc
wait_on-running stopped_sync nothing_left next runs = cc

module _ {C V : Type 0} (compare_calls : C → C → Compared) where
  take-status : (p : Popped C) (s : Executor C V) → (take compare_calls p s).status ≡ s.status
  take-status (popped ts q) s = refl
  take-status (pop_error q) s = refl

  accept-status :
      (o : Outcome (Entry C)) (s : Executor C V) → (accept compare_calls o s).0.status ≡ s.status
  accept-status (returned q) s = refl
  accept-status (Heapq.type_error q) s = refl

  schedule_on-status :
      (st : Status) (delay priority : ℕ) (call : C) (s : Executor C V)
      → (schedule_on compare_calls st delay priority call s).0.status ≡ s.status
  schedule_on-status running delay priority call s = accept-status _ s
  schedule_on-status stopped delay priority call s = refl
  schedule_on-status stopped_sync delay priority call s = refl

  -- A call of schedule_delayed does not change the status.
  pub schedule_delayed-status :
      (delay priority : ℕ) (call : C) (s : Executor C V)
      → (schedule_delayed compare_calls delay priority call s).0.status ≡ s.status
  unfolding schedule_delayed
  schedule_delayed-status delay priority call s = schedule_on-status s.status delay priority call s

  on_decision-status :
      (d : Decision) (s : Executor C V) → (on_decision compare_calls d s).status ≡ s.status
  unfolding take_expired
  on_decision-status leave s = refl
  on_decision-status process s = take-status _ s
  on_decision-status (wait timeout) s = refl

  run_round-running :
      (elapsed : ℕ) (s : Executor C V)
      → s.status ≡ running
      → (run_round compare_calls elapsed s).status ≡ running
  unfolding run_round wait_round
  run_round-running elapsed s runs = on_decision-status _ _ ∙ wait_on-running s.status _ _ runs

  on_round-running :
      (elapsed : ℕ) (th : Thread C) (s : Executor C V)
      → s.status ≡ running
      → (on_round compare_calls elapsed th s).status ≡ running
  on_round-running elapsed idle s runs = runs
  on_round-running elapsed waiting s runs = run_round-running elapsed s runs
  on_round-running elapsed ended s runs = runs
  on_round-running elapsed died s runs = runs
  on_round-running elapsed (processing ts) s runs = runs
  on_round-running elapsed (executing t ts) s runs = runs

  -- Without a call of stop, an executor that runs keeps its status.
  pub step-running :
      (e : Event C V) (s : Executor C V)
      → IsNoStop e
      → s.status ≡ running
      → (step compare_calls e s).status ≡ running
  step-running (tick n) s calm runs = runs
  step-running (schedule_call delay priority call) s calm runs =
      schedule_delayed-status delay priority call s ∙ runs
  step-running (stop_call sync) s calm runs = elim calm [ ]
  step-running (cancel_call f) s calm runs = cancel_future-status f s ∙ runs
  step-running thread_starts s calm runs = on_start-running s.thread s runs
  step-running (thread_round elapsed) s calm runs = on_round-running elapsed s.thread s runs
  step-running thread_begins s calm runs = on_begin-status s.thread s ∙ runs
  step-running (action_ends c) s calm runs = on_end-status c s.thread s ∙ runs
  step-running action_escapes s calm runs = on_escape-status s.thread s ∙ runs
