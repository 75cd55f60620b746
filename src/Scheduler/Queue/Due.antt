-- ===== src/Scheduler/Queue/Due.antt =====
-- pop_tasks_till_timestamp returns the tasks that are due, in order, and leaves the others.
use mathlib.Core.Logic.{∥∥₁_elim}
use mathlib.Core.Path.{subst}
use mathlib.Core.HLevel.{×_prop, Π_prop}
use native.Mathlib.Bridge.{le_prop}
use mathlib.Core.List.{
  Mem, Perm, Pairwise, not-mem-nil, mem-append_left, forall_mem-cons, exists_of_mem-map,
  mem-cons_self, mem-cons_of_mem,
}
use mathlib.Core.List.Perm
use py_lwip.Prelude.{ℕ, ◌≤◌, ◌<◌, ◌≡◌, true, false, List, [], ◌∷◌, ◌++◌, leb, arith}
use py_lwip.Heapq.{returned, heappop}
use py_lwip.Heapq.Order.{root_least}
use py_lwip.Heapq.Ops.{heappop-IsHeap}
use py_lwip.Scheduler.Task.{Compared, Task, Entry, entry_lt, entry_order, TaskLe}
use py_lwip.Scheduler.Queue.Rounds.{PopRule, pop-perm, pop_tasks_ind}
use py_lwip.Scheduler.Queue.{TaskQueue, popped, get_tasks, pop_tasks_till_timestamp, IsQueue}

-- What holds of the tasks that are returned and of the queue that is left.
pub record Due {C : Type 0} (compare_calls : C → C → Compared) (timestamp : ℕ) (q : TaskQueue C)
    (tasks : List (Task C)) (q' : TaskQueue C) : Type 0 where
  pub same : Perm (tasks ++ get_tasks q') (get_tasks q)
  pub sorted : Pairwise TaskLe tasks
  pub due : (t : Task C) → Mem t tasks → t.abs_time ≤ timestamp
  pub later : (t : Task C) → Mem t (get_tasks q') → timestamp < t.abs_time
  pub queue : IsQueue compare_calls q'

TaskLe-prop : {C : Type 0} (t u : Task C) → IsProp (TaskLe t u)
TaskLe-prop t u = ×_prop le_prop (Π_prop λ same. le_prop)

-- What holds of the task of each entry holds of each task.
pub get_tasks-all :
    {C : Type 0} (P : Task C → Type 0)
    → ((t : Task C) → IsProp (P t))
    → (q : TaskQueue C) → ((e : Entry C) → Mem e q → P e.task)
    → (t : Task C) → Mem t (get_tasks q)
    → P t
get_tasks-all P prop q each t m =
    ∥∥₁_elim (exists_of_mem-map {f = λ e. e.task} {l = q} m) (prop t)
      (λ (e, inside, same). subst P same (each e inside))

module _ {C : Type 0} (compare_calls : C → C → Compared) where
  module _ (e : Entry C) (q : TaskQueue C) (valid : IsQueue compare_calls (e ∷ q))
      (q' : TaskQueue C) (pops : heappop (entry_lt compare_calls) (e ∷ q) ≡ returned q') where
    pop-IsQueue : IsQueue compare_calls q'
    pop-IsQueue = record {
      heap = heappop-IsHeap (entry_order compare_calls) (e ∷ q) valid.heap pops;
      keyed = λ f m.
          valid.keyed f
            ((Perm.mem_iff (pop-perm compare_calls e q q' pops)).0 (mem-cons_of_mem e m));
    }

    pop_first : (f : Entry C) → Mem f q' → TaskLe e.task f.task
    pop_first f m =
        let inside = (Perm.mem_iff (pop-perm compare_calls e q q' pops)).0 (mem-cons_of_mem e m) in
        let le = root_least (entry_order compare_calls) e q valid.heap f inside in
        let (ke, kf) = valid.keyed e mem-cons_self in
        let (kt, kp) = valid.keyed f inside in omega arith

  first_later :
      (timestamp : ℕ) (e : Entry C) (q : TaskQueue C)
      → IsQueue compare_calls (e ∷ q)
      → leb e.time timestamp ≡ false
      → (t : Task C) → Mem t (get_tasks (e ∷ q))
      → timestamp < t.abs_time
  first_later timestamp e q valid late =
      get_tasks-all (λ t. timestamp < t.abs_time) (λ t. le_prop) (e ∷ q)
        λ f m.
          let le = root_least (entry_order compare_calls) e q valid.heap f m in
          let key = valid.keyed f m in ground arith

  Due-nil : (timestamp : ℕ) → Due compare_calls timestamp [] [] []
  Due-nil timestamp = record {
    same = Perm.refl [];
    sorted = Pairwise.nil;
    due = λ t m. absurd (not-mem-nil m);
    later = λ t m. absurd (not-mem-nil m);
    queue = record { heap = λ c pos. tt; keyed = λ e m. absurd (not-mem-nil m) };
  }

  Due-stop :
      (timestamp : ℕ) (e : Entry C) (q : TaskQueue C)
      → IsQueue compare_calls (e ∷ q)
      → leb e.time timestamp ≡ false
      → Due compare_calls timestamp (e ∷ q) [] (e ∷ q)
  Due-stop timestamp e q valid late = record {
    same = Perm.refl _;
    sorted = Pairwise.nil;
    due = λ t m. absurd (not-mem-nil m);
    later = first_later timestamp e q valid late;
    queue = valid;
  }

  Due-step :
      (timestamp : ℕ) (e : Entry C) (q q₁ q' : TaskQueue C) (tasks : List (Task C))
      → IsQueue compare_calls (e ∷ q)
      → leb e.time timestamp ≡ true
      → heappop (entry_lt compare_calls) (e ∷ q) ≡ returned q₁
      → Due compare_calls timestamp q₁ tasks q'
      → Due compare_calls timestamp (e ∷ q) (e.task ∷ tasks) q'
  Due-step timestamp e q q₁ q' tasks valid early pops rest = record {
    same =
        Perm.trans (Perm.cons e.task rest.same)
          (Perm.map (λ f. f.task) (pop-perm compare_calls e q q₁ pops));
    sorted =
        Pairwise.cons
          (λ t m.
            get_tasks-all (TaskLe e.task) (TaskLe-prop e.task) q₁ (pop_first e q valid q₁ pops) t
              ((Perm.mem_iff rest.same).0 (mem-append_left (get_tasks q') m)))
          rest.sorted;
    due =
        let key = valid.keyed e mem-cons_self in
        (forall_mem-cons (λ t. le_prop)).1 (ground arith, rest.due);
    later = rest.later;
    queue = rest.queue;
  }

  Due-rule :
      (timestamp : ℕ)
      → PopRule compare_calls timestamp (IsQueue compare_calls) (Due compare_calls timestamp)
  Due-rule timestamp = record {
    finish = λ valid. Due-nil timestamp;
    stop = Due-stop timestamp;
    keep = λ e q q₁ valid pops. pop-IsQueue e q valid q₁ pops;
    next = Due-step timestamp;
  }

-- On a queue, pop_tasks_till_timestamp returns exactly the tasks with a time up to the timestamp,
-- sorted by time and priority; the later tasks stay, in a queue again.
pub pop_tasks_till_timestamp-Due :
    {C : Type 0} (compare_calls : C → C → Compared) (q : TaskQueue C) (timestamp : ℕ)
    (tasks : List (Task C)) (q' : TaskQueue C)
    → IsQueue compare_calls q
    → pop_tasks_till_timestamp compare_calls q timestamp ≡ popped tasks q'
    → Due compare_calls timestamp q tasks q'
pop_tasks_till_timestamp-Due compare_calls q timestamp tasks q' valid r =
    pop_tasks_ind compare_calls (Due-rule compare_calls timestamp) q tasks q' valid r
