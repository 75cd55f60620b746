-- ===== src/Scheduler/Executor/Events.antt =====
-- The executions of a SingleThreadExecutor: sequences of what its clients and its thread do.
use py_lwip.Prelude.{ℕ, ◌+◌, Bool, List, [], ◌∷◌}
use py_lwip.Scheduler.Task.{Compared, Task}
use py_lwip.Scheduler.Future.{Completion}
use py_lwip.Scheduler.Executor.{
  Executor, Thread, idle, waiting, processing, executing, run_start, stop, cancel_future, begin,
  finish, escape, schedule_delayed, run_round,
}

-- What can happen next: time passes, a client calls, or the thread takes a step. An action that
-- schedules, stops or cancels does so as a client, between its begin and its end.
pub data Event (C V : Type 0) : Type 0 where
  tick : ℕ → Event C V
  schedule_call : (delay priority : ℕ) → C → Event C V
  stop_call : Bool → Event C V
  cancel_call : ℕ → Event C V
  thread_starts : Event C V
  thread_round : (elapsed : ℕ) → Event C V
  thread_begins : Event C V
  action_ends : Completion V → Event C V
  action_escapes : Event C V

abbrev pub IsNoStop : {C V : Type 0} → Event C V → Type 0
IsNoStop (stop_call sync) = ⊥
IsNoStop _ = Unit

abbrev pub AreNoStops : {C V : Type 0} → List (Event C V) → Type 0
AreNoStops [] = Unit
AreNoStops (e ∷ es) = IsNoStop e × AreNoStops es

module _ {C V : Type 0} where
  -- The loop over the expired tasks: the next task, or back to the loop of `run`.
  abbrev pub next_task : List (Task C) → Executor C V → Executor C V
  next_task [] s = record s { thread = waiting }
  next_task (t ∷ ts) s = begin t ts s

  -- An event of the thread happens only where the thread is ready for it.
  abbrev pub on_start : Thread C → Executor C V → Executor C V
  on_start idle s = run_start s
  on_start _ s = s

  abbrev pub on_begin : Thread C → Executor C V → Executor C V
  on_begin (processing ts) s = next_task ts s
  on_begin _ s = s

  abbrev pub on_end : Completion V → Thread C → Executor C V → Executor C V
  on_end c (executing t ts) s = finish c t ts s
  on_end c _ s = s

  abbrev pub on_escape : Thread C → Executor C V → Executor C V
  on_escape (executing t ts) s = escape s
  on_escape _ s = s

module _ {C V : Type 0} (compare_calls : C → C → Compared) where
  abbrev pub on_round : ℕ → Thread C → Executor C V → Executor C V
  on_round elapsed waiting s = run_round compare_calls elapsed s
  on_round elapsed _ s = s

  abbrev pub step : Event C V → Executor C V → Executor C V
  step (tick n) s = record s { clock = s.clock + n }
  step (schedule_call delay priority call) s =
      (schedule_delayed compare_calls delay priority call s).0
  step (stop_call sync) s = stop sync s
  step (cancel_call f) s = cancel_future f s
  step thread_starts s = on_start s.thread s
  step (thread_round elapsed) s = on_round elapsed s.thread s
  step thread_begins s = on_begin s.thread s
  step (action_ends c) s = on_end c s.thread s
  step action_escapes s = on_escape s.thread s

  -- An execution, as the sequence of its events.
  abbrev pub run_events : List (Event C V) → Executor C V → Executor C V
  run_events [] s = s
  run_events (e ∷ es) s = run_events es (step e s)
