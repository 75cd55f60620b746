-- ===== src/Scheduler/Queue/Keeps.antt =====
-- What pop_tasks_till_timestamp does on any list of entries, also on one that a TypeError left out
-- of order: it loses no task and takes none before its time.
use mathlib.Core.List.{Mem, Perm, mem-cons_self, mem-cons_of_mem, not-mem-nil, forall_mem-cons}
use mathlib.Core.List.Perm
use native.Mathlib.Bridge.{le_prop}
use py_lwip.Prelude.{ℕ, ◌≤◌, ◌≡◌, List, [], ◌++◌, arith}
use py_lwip.Scheduler.Task.{Compared, Task, Entry, Keyed}
use py_lwip.Scheduler.Queue.{TaskQueue, popped, get_tasks, pop_tasks_till_timestamp}
use py_lwip.Scheduler.Queue.Rounds.{PopRule, pop-perm, pop_tasks_ind}

abbrev pub AllKeyed : {C : Type 0} → TaskQueue C → Type 0
AllKeyed {C} q = (e : Entry C) → Mem e q → Keyed e

pub record Taken {C : Type 0} (timestamp : ℕ) (q : TaskQueue C) (tasks : List (Task C))
    (q' : TaskQueue C) : Type 0 where
  pub same : Perm (tasks ++ get_tasks q') (get_tasks q)
  pub due : (t : Task C) → Mem t tasks → t.abs_time ≤ timestamp
  pub keyed : AllKeyed q'

module _ {C : Type 0} (compare_calls : C → C → Compared) where
  Taken-rule : (timestamp : ℕ) → PopRule compare_calls timestamp AllKeyed (Taken timestamp)
  Taken-rule timestamp = record {
    finish =
        λ keyed. record { same = Perm.refl []; due = λ t m. absurd (not-mem-nil m); keyed = keyed };
    stop = λ e q keyed late. record {
      same = Perm.refl _;
      due = λ t m. absurd (not-mem-nil m);
      keyed = keyed;
    };
    keep = λ e q q₁ keyed pops f m.
        keyed f ((Perm.mem_iff (pop-perm compare_calls e q q₁ pops)).0 (mem-cons_of_mem e m));
    next = λ e q q₁ q' tasks keyed early pops rest. record {
      same =
          Perm.trans (Perm.cons e.task rest.same)
            (Perm.map (λ f. f.task) (pop-perm compare_calls e q q₁ pops));
      due =
          let key = keyed e mem-cons_self in
          (forall_mem-cons (λ t. le_prop)).1 (ground arith, rest.due);
      keyed = rest.keyed;
    };
  }

  pub pop_tasks_till_timestamp-Taken :
      (q : TaskQueue C) (timestamp : ℕ) (tasks : List (Task C)) (q' : TaskQueue C)
      → AllKeyed q
      → pop_tasks_till_timestamp compare_calls q timestamp ≡ popped tasks q'
      → Taken timestamp q tasks q'
  pop_tasks_till_timestamp-Taken q timestamp tasks q' keyed r =
      pop_tasks_ind compare_calls (Taken-rule timestamp) q tasks q' keyed r
