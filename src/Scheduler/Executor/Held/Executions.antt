-- ===== src/Scheduler/Executor/Held/Executions.antt =====
-- Whole executions of a SingleThreadExecutor: every call that is accepted is executed once, or still
-- held.
use mathlib.Core.Path.{subst}
use py_lwip.Prelude.{ℕ, ◌+◌, ◌≡◌, refl, ◌∙◌, List, [], ◌∷◌, ◌++◌, arith}
use py_lwip.Prelude.Totals.{total, total-append}
use py_lwip.Scheduler.Task.{Compared}
use py_lwip.Scheduler.Executor.{Executor, Thread, died, new_executor}
use py_lwip.Scheduler.Executor.Events.{Event, step, run_events}
use py_lwip.Scheduler.Executor.Valid.{IsAlive, IsValid}
use py_lwip.Scheduler.Executor.Invariant.{new_executor-IsValid, step-IsValid}
use py_lwip.Scheduler.Executor.Lasting.{step-over}
use py_lwip.Scheduler.Executor.Uncancelled.{NoneCancelled, IsPlain, step-NoneCancelled}
use py_lwip.Scheduler.Executor.Held.{accepted, executed, total_held, step-held}

module _ {C V : Type 0} (compare_calls : C → C → Compared) where
  -- The calls that an execution brings in, and those whose action ends in it.
  abbrev pub all_accepted : List (Event C V) → Executor C V → List C
  all_accepted [] s = []
  all_accepted (e ∷ es) s = accepted e s ++ all_accepted es (step compare_calls e s)

  abbrev pub all_executed : List (Event C V) → Executor C V → List C
  all_executed [] s = []
  all_executed (e ∷ es) s = executed e s ++ all_executed es (step compare_calls e s)

  abbrev pub ArePlain : List (Event C V) → Type 0
  ArePlain [] = Unit
  ArePlain (e ∷ es) = IsPlain e × ArePlain es

  -- A thread that is alive later is alive now.
  step-IsAlive :
      (e : Event C V) (th : Thread C) (s : Executor C V)
      → s.thread ≡ th
      → IsAlive (step compare_calls e s).thread
      → IsAlive th
  step-IsAlive e died s at a = subst IsAlive (step-over compare_calls e s (rw at refl) ∙ at) a
  step-IsAlive e _ s at a = tt

  run_events-IsAlive :
      (es : List (Event C V)) (s : Executor C V)
      → IsAlive (run_events compare_calls es s).thread
      → IsAlive s.thread
  run_events-IsAlive [] s a = a
  run_events-IsAlive (e ∷ es) s a =
      step-IsAlive e s.thread s refl (run_events-IsAlive es (step compare_calls e s) a)

  module _ (weight : C → ℕ) where
    run_events_from-held :
        (es : List (Event C V)) (s : Executor C V)
        → ArePlain es
        → IsValid s
        → NoneCancelled s
        → IsAlive (run_events compare_calls es s).thread
        → total_held weight (run_events compare_calls es s) + total weight (all_executed es s)
          ≡ total_held weight s + total weight (all_accepted es s)
    run_events_from-held [] s plain v n a = refl
    run_events_from-held (e ∷ es) s (h, plain) v n a =
        let s' = step compare_calls e s in
        omega (
          arith,
          step-held compare_calls weight e s h v n (run_events-IsAlive es s' a),
          run_events_from-held es s' plain (step-IsValid compare_calls e s v)
              (step-NoneCancelled compare_calls e s h n) a,
          total-append weight (executed e s) (all_executed es s'),
          total-append weight (accepted e s) (all_accepted es s'),
        )

    -- In every execution from a new executor in which no future is cancelled and which the thread
    -- survives, the calls that are accepted are exactly those whose action has ended and those that
    -- are still held, each as often as it was accepted. This is stated of what they weigh
    -- together, for any weight of calls.
    pub run_events-held :
        (es : List (Event C V)) (now : ℕ)
        → ArePlain es
        → IsAlive (run_events compare_calls es (new_executor now)).thread
        → total_held weight (run_events compare_calls es (new_executor now))
            + total weight (all_executed es (new_executor now))
          ≡ total weight (all_accepted es (new_executor now))
    unfolding new_executor
    run_events-held es now plain a =
        let all =
          run_events_from-held es (new_executor now) plain (new_executor-IsValid compare_calls now)
            (λ f. refl) a in
        omega arith
