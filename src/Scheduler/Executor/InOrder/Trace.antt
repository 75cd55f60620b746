-- ===== src/Scheduler/Executor/InOrder/Trace.antt =====
-- The executions of a SingleThreadExecutor take up the tasks in the order of their times.
use mathlib.Core.List.{Pairwise, mem-cons_self, not-mem-nil, rel_of_Pairwise-cons}
use native.Mathlib.Nat.{le_refl}
use py_lwip.Prelude.{ℕ, ◌≤◌, ◌≡◌, refl, List, [], ◌∷◌, ◌++◌, arith}
use py_lwip.Scheduler.Task.{Compared, Task}
use py_lwip.Scheduler.Executor.{Executor, Thread, processing, new_executor}
use py_lwip.Scheduler.Executor.Events.{Event, thread_begins, step}
use py_lwip.Scheduler.Executor.InOrder.{
  TimeLe, AllFrom, AllFrom-cons, taken_up, next_of, processed, AllAccepted, InOrder, NothingBefore,
}
use py_lwip.Scheduler.Executor.InOrder.Steps.{step-Keeps}

module _ {C : Type 0} where
  abbrev Sorted : ℕ → List (Task C) → Type 0
  Sorted b ts = Pairwise TimeLe ts × AllFrom b ts

  Sorted-cons :
      (b : ℕ) (t : Task C) (ts : List (Task C))
      → b ≤ t.abs_time
      → Sorted t.abs_time ts
      → Sorted b (t ∷ ts)
  Sorted-cons b t ts le (sorted, all) =
      (Pairwise.cons all sorted, AllFrom-cons b t ts le (λ u m. omega (arith, all u m)))

module _ {C V : Type 0} (compare_calls : C → C → Compared) where
  -- Of the task that is taken up next, nothing else that is to come is before it.
  next_first :
      (s : Executor C V) (t : Task C) (ts : List (Task C))
      → s.thread ≡ processing (t ∷ ts)
      → InOrder compare_calls s
      → NothingBefore t.abs_time s
  next_first s t ts at v = record {
    now = v.due t (rw at mem-cons_self);
    taken_tasks = rw at (
        AllFrom-cons t.abs_time t ts (le_refl _)
          (λ u m. rel_of_Pairwise-cons (rw at at v.sorted) m));
    queued = λ a. v.first t (rw at mem-cons_self);
  }

  new_executor-InOrder : (now : ℕ) → InOrder compare_calls (new_executor {C = C} {V = V} now)
  unfolding new_executor
  new_executor-InOrder now = record {
    queue = λ a. record { heap = λ c p. tt; keyed = λ e m. absurd (not-mem-nil m) };
    sorted = Pairwise.nil;
    due = λ t m. absurd (not-mem-nil m);
    first = λ t m. absurd (not-mem-nil m);
  }

  Sorted-next :
      (th : Thread C) (s : Executor C V) (rest : List (Task C)) (b : ℕ)
      → s.thread ≡ th
      → InOrder compare_calls s
      → NothingBefore b s
      → ((c : ℕ) → NothingBefore c s → Sorted c rest)
      → Sorted b (next_of th ++ rest)
  Sorted-next (processing (t ∷ ts)) s rest b at v n all =
      Sorted-cons b t rest (n.taken_tasks t (rw at mem-cons_self))
        (all t.abs_time (next_first s t ts at v))
  Sorted-next _ s rest b at v n all = all b n

  taken_up-Sorted :
      (e : Event C V) (s : Executor C V) (rest : List (Task C)) (b : ℕ)
      → InOrder compare_calls s
      → NothingBefore b s
      → ((c : ℕ) → NothingBefore c s → Sorted c rest)
      → Sorted b (taken_up e s ++ rest)
  taken_up-Sorted thread_begins s rest b v n all = Sorted-next s.thread s rest b refl v n all
  taken_up-Sorted _ s rest b v n all = all b n

  processed-Sorted :
      (es : List (Event C V)) (s : Executor C V) (b : ℕ)
      → AllAccepted compare_calls es s
      → InOrder compare_calls s
      → NothingBefore b s
      → Sorted b (processed compare_calls es s)
  processed-Sorted [] s b ok v n = (Pairwise.nil, λ t m. absurd (not-mem-nil m))
  processed-Sorted (e ∷ es) s b (ok, oks) v n =
      let (v', keep) = step-Keeps compare_calls e s ok v in
      taken_up-Sorted e s (processed compare_calls es (step compare_calls e s)) b v n
        λ c n. processed-Sorted es (step compare_calls e s) c oks v' (keep c n)

  -- In every execution from a new executor in which no call of schedule_delayed raises TypeError,
  -- _process_task is called for the tasks in the order of their times, whatever the order and the
  -- delays with which they are scheduled, and whatever is cancelled or stopped in between.
  pub processed-TimeLe :
      (es : List (Event C V)) (now : ℕ)
      → AllAccepted compare_calls es (new_executor now)
      → Pairwise TimeLe (processed compare_calls es (new_executor now))
  processed-TimeLe es now ok =
      (processed-Sorted es (new_executor now) 0 ok (new_executor-InOrder now) record {
        now = omega arith;
        taken_tasks = λ t m. omega arith;
        queued = λ a t m. omega arith;
      }).0
