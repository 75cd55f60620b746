-- ===== src/Scheduler/Executor/LostStop.antt =====
-- A stop that comes before the thread has entered `run`.
use py_lwip.Prelude.{
  ap, ℕ, ◌≡◌, ◌≢◌, refl, sym, ◌∙◌, Bool, Option, none, some, List, [], ◌∷◌, ◌+◌, arith,
}
use py_lwip.Prelude.Int.{ℤ}
use py_lwip.Scheduler.Task.{Compared, Task}
use py_lwip.Scheduler.Future.{FutureState, Completion}
use py_lwip.Scheduler.Queue.{Popped, popped, pop_error, get_time_till_next_task}
use py_lwip.Scheduler.Executor.{
  Executor, Status, running, stopped, stopped_sync, Thread, idle, waiting, ended, died, processing,
  executing, Decision, leave, process, wait, stop, schedule_delayed, run_start, begin, begin_on,
  finish, finish_on, escape, take, take_expired, on_decision, on_delay, wait_round, wait_on,
  run_round,
}
use py_lwip.Scheduler.Executor.Events.{
  Event, tick, schedule_call, stop_call, cancel_call, thread_starts, thread_round, thread_begins,
  action_ends, action_escapes, step, run_events, IsNoStop, AreNoStops, on_start, on_begin, on_end,
  on_escape, on_round, next_task,
}
use py_lwip.Scheduler.Executor.Deaths.{schedule_on-thread, cancel_future-thread}
use py_lwip.Scheduler.Executor.Lasting.{step-running}

module _ {C V : Type 0} where
  on_start-ne-ended :
      (th : Thread C) (s : Executor C V)
      → s.thread ≡ th
      → th ≢ ended
      → (on_start th s).thread ≢ ended
  unfolding run_start
  on_start-ne-ended idle s at n e = cc
  on_start-ne-ended waiting s at n e = n (sym at ∙ e)
  on_start-ne-ended ended s at n e = n refl
  on_start-ne-ended died s at n e = n (sym at ∙ e)
  on_start-ne-ended (processing ts) s at n e = n (sym at ∙ e)
  on_start-ne-ended (executing t ts) s at n e = n (sym at ∙ e)

  begin_on-ne-ended :
      (o : Option (FutureState V)) (t : Task C) (ts : List (Task C)) (s : Executor C V)
      → (begin_on o t ts s).thread ≢ ended
  begin_on-ne-ended none t ts s e = cc
  begin_on-ne-ended (some st) t ts s e = ground arith

  next_task-ne-ended : (ts : List (Task C)) (s : Executor C V) → (next_task ts s).thread ≢ ended
  unfolding begin
  next_task-ne-ended [] s e = cc
  next_task-ne-ended (t ∷ ts) s e = begin_on-ne-ended _ t ts s e

  on_begin-ne-ended :
      (th : Thread C) (s : Executor C V) → s.thread ≢ ended → (on_begin th s).thread ≢ ended
  on_begin-ne-ended idle s n = n
  on_begin-ne-ended waiting s n = n
  on_begin-ne-ended ended s n = n
  on_begin-ne-ended died s n = n
  on_begin-ne-ended (processing ts) s n = next_task-ne-ended ts s
  on_begin-ne-ended (executing t ts) s n = n

  finish_on-ne-ended :
      (o : Option (FutureState V)) (t : Task C) (ts : List (Task C)) (s : Executor C V)
      → (finish_on o t ts s).thread ≢ ended
  finish_on-ne-ended none t ts s e = cc
  finish_on-ne-ended (some st) t ts s e = cc

  on_end-ne-ended :
      (c : Completion V) (th : Thread C) (s : Executor C V)
      → s.thread ≢ ended
      → (on_end c th s).thread ≢ ended
  unfolding finish
  on_end-ne-ended c idle s n = n
  on_end-ne-ended c waiting s n = n
  on_end-ne-ended c ended s n = n
  on_end-ne-ended c died s n = n
  on_end-ne-ended c (processing ts) s n = n
  on_end-ne-ended c (executing t ts) s n = finish_on-ne-ended _ t ts s

  on_escape-ne-ended :
      (th : Thread C) (s : Executor C V) → s.thread ≢ ended → (on_escape th s).thread ≢ ended
  unfolding escape
  on_escape-ne-ended idle s n = n
  on_escape-ne-ended waiting s n = n
  on_escape-ne-ended ended s n = n
  on_escape-ne-ended died s n = n
  on_escape-ne-ended (processing ts) s n = n
  on_escape-ne-ended (executing t ts) s n = λ e. cc

on_delay-ne-leave : (delay : Option ℤ) → on_delay delay ≢ leave
on_delay-ne-leave none e = cc
on_delay-ne-leave (some delay) e = ground arith

wait_on-ne-leave :
    (st : Status) (nothing_left : Bool) (next : Decision)
    → st ≡ running
    → next ≢ leave
    → (wait_on st nothing_left next).1 ≢ leave
wait_on-ne-leave running nothing_left next runs n = n
wait_on-ne-leave stopped nothing_left next runs n = cc
wait_on-ne-leave stopped_sync nothing_left next runs n = cc

module _ {C V : Type 0} (compare_calls : C → C → Compared) where
  take-ne-ended : (p : Popped C) (s : Executor C V) → (take compare_calls p s).thread ≢ ended
  take-ne-ended (popped ts q) s e = cc
  take-ne-ended (pop_error q) s e = cc

  on_decision-ne-ended :
      (d : Decision) (s : Executor C V)
      → d ≢ leave
      → s.thread ≢ ended
      → (on_decision compare_calls d s).thread ≢ ended
  unfolding take_expired
  on_decision-ne-ended leave s stay n = absurd (stay refl)
  on_decision-ne-ended process s stay n = take-ne-ended _ s
  on_decision-ne-ended (wait timeout) s stay n = n

  run_round-ne-ended :
      (elapsed : ℕ) (s : Executor C V)
      → s.status ≡ running
      → s.thread ≢ ended
      → (run_round compare_calls elapsed s).thread ≢ ended
  unfolding run_round wait_round
  run_round-ne-ended elapsed s runs n =
      on_decision-ne-ended _ (record s { status = (wait_round s).0; clock = s.clock + elapsed })
        (wait_on-ne-leave s.status _ _ runs
          (on_delay-ne-leave (get_time_till_next_task s.tasks s.clock)))
        n

  on_round-ne-ended :
      (elapsed : ℕ) (th : Thread C) (s : Executor C V)
      → s.status ≡ running
      → s.thread ≢ ended
      → (on_round compare_calls elapsed th s).thread ≢ ended
  on_round-ne-ended elapsed idle s runs n = n
  on_round-ne-ended elapsed waiting s runs n = run_round-ne-ended elapsed s runs n
  on_round-ne-ended elapsed ended s runs n = n
  on_round-ne-ended elapsed died s runs n = n
  on_round-ne-ended elapsed (processing ts) s runs n = n
  on_round-ne-ended elapsed (executing t ts) s runs n = n

  step-ne-ended :
      (e : Event C V) (s : Executor C V)
      → IsNoStop e
      → s.status ≡ running
      → s.thread ≢ ended
      → (step compare_calls e s).thread ≢ ended
  unfolding schedule_delayed
  step-ne-ended (tick m) s calm runs n = n
  step-ne-ended (schedule_call delay priority call) s calm runs n =
      λ e. n (sym (schedule_on-thread compare_calls s.status delay priority call s) ∙ e)
  step-ne-ended (stop_call sync) s calm runs n = elim calm [ ]
  step-ne-ended (cancel_call f) s calm runs n =
      λ e. n (sym (cancel_future-thread compare_calls f s) ∙ e)
  step-ne-ended thread_starts s calm runs n = on_start-ne-ended s.thread s refl n
  step-ne-ended (thread_round elapsed) s calm runs n = on_round-ne-ended elapsed s.thread s runs n
  step-ne-ended thread_begins s calm runs n = on_begin-ne-ended s.thread s n
  step-ne-ended (action_ends c) s calm runs n = on_end-ne-ended c s.thread s n
  step-ne-ended action_escapes s calm runs n = on_escape-ne-ended s.thread s n

  run_events-runs :
      (es : List (Event C V)) (s : Executor C V)
      → AreNoStops es
      → s.status ≡ running
      → s.thread ≢ ended
      → ((run_events compare_calls es s).status ≡ running)
        × ((run_events compare_calls es s).thread ≢ ended)
  run_events-runs [] s calm runs n = (runs, n)
  run_events-runs (e ∷ es) s (c, calm) runs n =
      run_events-runs es (step compare_calls e s) calm (step-running compare_calls e s c runs)
        (step-ne-ended e s c runs n)

  stop-on_start :
      (sync : Bool) (th : Thread C) (s : Executor C V)
      → th ≡ idle
      → on_start th (stop sync s) ≡ on_start th s
  unfolding stop run_start
  stop-on_start sync idle s at = refl
  stop-on_start sync waiting s at = cc
  stop-on_start sync ended s at = cc
  stop-on_start sync died s at = cc
  stop-on_start sync (processing ts) s at = cc
  stop-on_start sync (executing t ts) s at = cc

  -- A stop that comes before the thread has entered `run` is lost: every execution goes on as if
  -- there had been none. Unless stop is called again, the executor accepts tasks, and the thread
  -- does not return from `run`, which only an exception can end.
  pub stop_before_start-lost :
      (sync : Bool) (es : List (Event C V)) (s : Executor C V)
      → s.thread ≡ idle
      → AreNoStops es
      → let s' = run_events compare_calls (stop_call sync ∷ thread_starts ∷ es) s in
        (s' ≡ run_events compare_calls (thread_starts ∷ es) s)
        × (s'.status ≡ running)
        × (s'.thread ≢ ended)
  unfolding stop run_start
  stop_before_start-lost sync es s at calm =
      let (runs, stays) = run_events-runs es _ calm (rw at refl) (rw at (λ e. cc)) in
      (ap (run_events compare_calls es) (stop-on_start sync s.thread s at), runs, stays)
