-- ===== src/Scheduler/Executor/Invariant.antt =====
-- Every execution of a SingleThreadExecutor keeps the invariant, and what follows from it.
use mathlib.Core.List.{not-mem-nil}
use mathlib.Core.List.Pairwise
use py_lwip.Prelude.{ℕ, ◌≡◌, refl, List, [], ◌∷◌, arith}
use py_lwip.Scheduler.Task.{Compared}
use py_lwip.Scheduler.Future.{Completion}
use py_lwip.Scheduler.Executor.{
  Executor, Thread, idle, waiting, processing, executing, new_executor,
}
use py_lwip.Scheduler.Executor.Events.{
  Event, tick, schedule_call, stop_call, cancel_call, thread_starts, thread_round, thread_begins,
  action_ends, action_escapes, step, run_events, on_start, on_begin, on_end, on_escape, on_round,
}
use py_lwip.Scheduler.Executor.Valid.{IsValid}
use py_lwip.Scheduler.Executor.Client.{
  tick-IsValid, stop-IsValid, cancel_future-IsValid, schedule_delayed-IsValid,
}
use py_lwip.Scheduler.Executor.Work.{
  run_start-IsValid, run_round-IsValid, begin-IsValid, finish-IsValid, escape-IsValid,
}

module _ {C V : Type 0} (compare_calls : C → C → Compared) where
  pub new_executor-IsValid : (now : ℕ) → IsValid (new_executor {C = C} {V = V} now)
  unfolding new_executor
  new_executor-IsValid now = record {
    keyed = λ a e m. absurd (not-mem-nil m);
    due = λ t m. absurd (not-mem-nil m);
    ledger = λ a. record {
      distinct = Pairwise.nil;
      below = λ t m. absurd (not-mem-nil m);
      waits = λ t m. absurd (not-mem-nil m);
      fresh = λ f later. refl;
      kept = λ f old w. absurd (omega arith);
      runs = λ f e. cc;
      current_runs = λ f e. cc;
    };
  }

  back_to_wait-IsValid :
      (s : Executor C V)
      → s.thread ≡ processing []
      → IsValid s
      → IsValid (record s { thread = waiting })
  back_to_wait-IsValid s at v = record {
    keyed = λ a. v.keyed (rw at tt);
    due = λ t m. absurd (not-mem-nil m);
    ledger = λ a. rw at at (v.ledger (rw at tt));
  }

  begins-IsValid :
      (th : Thread C) (s : Executor C V) → s.thread ≡ th → IsValid s → IsValid (on_begin th s)
  begins-IsValid (processing []) s at v = back_to_wait-IsValid s at v
  begins-IsValid (processing (t ∷ ts)) s at v = begin-IsValid s t ts at v
  begins-IsValid _ s at v = v

  ends-IsValid :
      (c : Completion V) (th : Thread C) (s : Executor C V)
      → s.thread ≡ th
      → IsValid s
      → IsValid (on_end c th s)
  ends-IsValid c (executing t ts) s at v = finish-IsValid s t ts c at v
  ends-IsValid c _ s at v = v

  starts-IsValid :
      (th : Thread C) (s : Executor C V) → s.thread ≡ th → IsValid s → IsValid (on_start th s)
  starts-IsValid idle s at v = run_start-IsValid s at v
  starts-IsValid _ s at v = v

  escapes-IsValid :
      (th : Thread C) (s : Executor C V) → s.thread ≡ th → IsValid s → IsValid (on_escape th s)
  escapes-IsValid (executing t ts) s at v = escape-IsValid s t ts v
  escapes-IsValid _ s at v = v

  rounds-IsValid :
      (elapsed : ℕ) (th : Thread C) (s : Executor C V)
      → s.thread ≡ th
      → IsValid s
      → IsValid (on_round compare_calls elapsed th s)
  rounds-IsValid elapsed waiting s at v = run_round-IsValid compare_calls elapsed s at v
  rounds-IsValid elapsed _ s at v = v

  pub step-IsValid :
      (e : Event C V) (s : Executor C V) → IsValid s → IsValid (step compare_calls e s)
  step-IsValid (tick n) s v = tick-IsValid n s v
  step-IsValid (schedule_call delay priority call) s v =
      schedule_delayed-IsValid compare_calls delay priority call s v
  step-IsValid (stop_call sync) s v = stop-IsValid sync s v
  step-IsValid (cancel_call f) s v = cancel_future-IsValid f s v
  step-IsValid thread_starts s v = starts-IsValid s.thread s refl v
  step-IsValid (thread_round elapsed) s v = rounds-IsValid elapsed s.thread s refl v
  step-IsValid thread_begins s v = begins-IsValid s.thread s refl v
  step-IsValid (action_ends c) s v = ends-IsValid c s.thread s refl v
  step-IsValid action_escapes s v = escapes-IsValid s.thread s refl v

  run_events_from-IsValid :
      (es : List (Event C V)) (s : Executor C V)
      → IsValid s
      → IsValid (run_events compare_calls es s)
  run_events_from-IsValid [] s v = v
  run_events_from-IsValid (e ∷ es) s v =
      run_events_from-IsValid es (step compare_calls e s) (step-IsValid e s v)

  -- After every sequence of events, from a new executor: while the thread has not ended by an
  -- exception, each future that waits is that of exactly one task in the queue or taken by the
  -- thread, exactly the future of the action that is executed runs, no future that does not exist
  -- has been touched; and every task that the thread has taken or executes is due.
  pub run_events-IsValid :
      (es : List (Event C V)) (now : ℕ) → IsValid (run_events compare_calls es (new_executor now))
  run_events-IsValid es now =
      run_events_from-IsValid es (new_executor now) (new_executor-IsValid now)
