-- ===== src/Scheduler/Task.antt =====
-- The tasks of lwip_py/utility/scheduler.py, and how Python orders the tuples of the queue.
use mathlib.Core.HLevel.{×_prop, Π_prop}
use native.Mathlib.Bridge.{le_prop}
use py_lwip.Prelude.{
  ℕ, ◌≤◌, ◌≡◌, ◌≢◌, ◌⊎◌, Bool, true, false, Option, none, some, arith, ltb, ◌==◌, if◌then◌else◌,
}
use py_lwip.Heapq.Order.{Comparison}

-- What Python says of two values in a tuple comparison: equal, ordered one way or the other, or
-- not ordered (TypeError).
pub data Compared : Type 0 where
  equal : Compared
  before : Bool → Compared
  unordered : Compared

-- `call` is the action with its arguments, and `future` the identity of the Future.
pub record Task (C : Type 0) : Type 0 where
  pub abs_time : ℕ
  pub priority : ℕ
  pub call : C
  pub future : ℕ

-- The tuple that the queue holds.
pub record Entry (C : Type 0) : Type 0 where
  pub time : ℕ
  pub prio : ℕ
  pub task : Task C

unfoldable pub entry : {C : Type 0} → Task C → Entry C
entry t = record { time = t.abs_time; prio = t.priority; task = t }

-- `compare_calls` is Python's comparison of (action, args, kwargs), which are the client's values.
module _ {C : Type 0} (compare_calls : C → C → Compared) where
  -- Two futures are equal if they are one, and have no order.
  abbrev by_call : Compared → Bool → Option Bool
  by_call equal same = if same then some false else none
  by_call (before b) same = some b
  by_call unordered same = none

  unfoldable pub task_lt : Task C → Task C → Option Bool
  task_lt t u =
      if t.abs_time == u.abs_time
      then if t.priority == u.priority
        then by_call (compare_calls t.call u.call) (t.future == u.future)
        else some (ltb t.priority u.priority)
      else some (ltb t.abs_time u.abs_time)

  -- Tuples are compared at the first place where they differ.
  unfoldable pub entry_lt : Entry C → Entry C → Option Bool
  unfolding task_lt
  entry_lt e f =
      if e.time == f.time
      then if e.prio == f.prio then task_lt e.task f.task else some (ltb e.prio f.prio)
      else some (ltb e.time f.time)

module _ {C : Type 0} where
  -- Earlier, or at the same time with a priority that is at least as high.
  abbrev pub KeyLe : Entry C → Entry C → Type 0
  KeyLe e f = (e.time ≤ f.time) × (e.time ≡ f.time → e.prio ≤ f.prio)

  abbrev pub TaskLe : Task C → Task C → Type 0
  TaskLe t u = (t.abs_time ≤ u.abs_time) × (t.abs_time ≡ u.abs_time → t.priority ≤ u.priority)

  abbrev pub SameKey : Task C → Task C → Type 0
  SameKey t u = (t.abs_time ≡ u.abs_time) × (t.priority ≡ u.priority)

  abbrev pub Keyed : Entry C → Type 0
  Keyed e = (e.time ≡ e.task.abs_time) × (e.prio ≡ e.task.priority)

module _ {C : Type 0} (compare_calls : C → C → Compared) where
  pub entry_lt-true : (e f : Entry C) → entry_lt compare_calls e f ≡ some true → KeyLe e f
  unfolding entry_lt
  entry_lt-true e f h = ground arith

  pub entry_lt-false : (e f : Entry C) → entry_lt compare_calls e f ≡ some false → KeyLe f e
  unfolding entry_lt
  entry_lt-false e f h = ground arith

  -- Whatever Python says of calls, the comparison of entries follows time and priority.
  abbrev pub entry_order : Comparison (entry_lt compare_calls)
  entry_order = record {
    Le = KeyLe;
    le_refl = λ e. omega arith;
    le_trans = λ e f g h k. omega arith;
    lt_true = entry_lt-true;
    lt_false = entry_lt-false;
    le_prop = λ e f. ×_prop le_prop (Π_prop λ same. le_prop);
  }

  -- Entries with different keys compare without a look at their tasks.
  pub entry_lt-ne-none :
      (e f : Entry C) → (e.time ≢ f.time) ⊎ (e.prio ≢ f.prio) → entry_lt compare_calls e f ≢ none
  unfolding entry_lt
  entry_lt-ne-none e f h = ground arith
