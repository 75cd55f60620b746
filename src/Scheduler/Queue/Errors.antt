-- ===== src/Scheduler/Queue/Errors.antt =====
-- Scheduling a task, and when a TaskQueue raises TypeError.
use mathlib.Core.Path.{subst}
use mathlib.Core.List.{Mem, Perm, Pairwise, forall_mem-cons}
use mathlib.Core.List.Perm
use mathlib.Core.List.Pairwise
use mathlib.Core.HLevel.{×_prop}
use native.Mathlib.Nat.{ℕ_set}
use py_lwip.Prelude.{
  ℕ, zero, suc, ◌<◌, ◌≡◌, ◌≢◌, refl, ap, ◌∙◌, none, List, [], ◌∷◌, ◌++◌, leb, length, inl, inr,
  Bool-cases, arith, get_elem?-some, get_elem?-mem, get_elem?-append_left, get_elem?-snoc,
}
use py_lwip.Heapq.{returned, type_error, heappush, heappop, items, lt_at, siftdown, parent}
use py_lwip.Heapq.Ops.{heappush-perm, heappush-IsHeap, heappop-perm}
use py_lwip.Heapq.Answers.{Answers, AllAnswer, AllAnswer-perm, heappush-returns, heappop-returns}
use py_lwip.Scheduler.Task.{
  Compared, unordered, Task, Entry, entry, entry_lt, entry_lt-ne-none, entry_order,
}
use py_lwip.Scheduler.Queue.{
  TaskQueue, popped, get_tasks, schedule_task, pop_loop, pop_tasks_till_timestamp, IsQueue,
}
use py_lwip.Scheduler.Queue.Due.{Due, pop_tasks_till_timestamp-Due}

module _ {C : Type 0} where
  abbrev pub KeysDiffer : Entry C → Entry C → Type 0
  KeysDiffer e f = e.time ≡ f.time → e.prio ≢ f.prio

  abbrev pub DistinctKeys : TaskQueue C → Type 0
  DistinctKeys = Pairwise KeysDiffer

module _ {C : Type 0} (compare_calls : C → C → Compared) where
  KeysDiffer-Answers : (e f : Entry C) → KeysDiffer e f → Answers (entry_lt compare_calls) e f
  KeysDiffer-Answers e f differ = (
    entry_lt-ne-none compare_calls e f (grind arith),
    entry_lt-ne-none compare_calls f e (grind arith),
  )

  DistinctKeys-AllAnswer : (q : TaskQueue C) → DistinctKeys q → AllAnswer (entry_lt compare_calls) q
  DistinctKeys-AllAnswer q = Pairwise.imp KeysDiffer-Answers

  -- Whether it raises or not, schedule_task has added the task.
  pub schedule_task-perm :
      (q : TaskQueue C) (t : Task C)
      → Perm (get_tasks (items (schedule_task compare_calls q t))) (t ∷ get_tasks q)
  unfolding schedule_task
  schedule_task-perm q t =
      Perm.map (λ e. e.task) (heappush-perm (entry_lt compare_calls) q (entry t))

  pub schedule_task-entries :
      (q : TaskQueue C) (t : Task C) → Perm (items (schedule_task compare_calls q t)) (entry t ∷ q)
  unfolding schedule_task
  schedule_task-entries q t = heappush-perm (entry_lt compare_calls) q (entry t)

  pub schedule_task-IsQueue :
      (q : TaskQueue C) (t : Task C) (q' : TaskQueue C)
      → IsQueue compare_calls q
      → schedule_task compare_calls q t ≡ returned q'
      → IsQueue compare_calls q'
  unfolding schedule_task
  schedule_task-IsQueue q t q' valid r =
      let same =
        subst (λ l. Perm l (entry t ∷ q)) (ap items r)
          (heappush-perm (entry_lt compare_calls) q (entry t)) in
      record {
        heap = heappush-IsHeap (entry_order compare_calls) q (entry t) valid.heap r;
        keyed = λ e m.
            (forall_mem-cons (λ f. ×_prop (ℕ_set _ _) (ℕ_set _ _))).1 ((refl, refl), valid.keyed) e
              ((Perm.mem_iff same).0 m);
      }

  -- With distinct keys scheduling does not raise, and leaves a queue with exactly the task added.
  pub schedule_task_lem :
      (q : TaskQueue C) (t : Task C)
      → IsQueue compare_calls q
      → DistinctKeys (entry t ∷ q)
      → (q' : TaskQueue C) × (schedule_task compare_calls q t ≡ returned q')
        × IsQueue compare_calls q'
        × Perm (get_tasks q') (t ∷ get_tasks q)
  unfolding schedule_task
  schedule_task_lem q t valid distinct =
      let q' = items (heappush (entry_lt compare_calls) q (entry t)) in
      let r =
        heappush-returns (entry_lt compare_calls) q (entry t)
          (DistinctKeys-AllAnswer (entry t ∷ q) distinct) in
      (q', r, schedule_task-IsQueue q t q' valid r, schedule_task-perm q t)

  pop_loop-returns :
      (fuel timestamp : ℕ) (q : TaskQueue C) (acc : List (Task C))
      → AllAnswer (entry_lt compare_calls) q
      → (tasks : List (Task C)) × (q' : TaskQueue C) × (pop_loop compare_calls fuel timestamp q acc
          ≡ popped tasks q')
  unfolding pop_loop
  pop_loop-returns zero timestamp q acc all = (acc, q, refl)
  pop_loop-returns (suc fuel) timestamp [] acc all = (acc, [], refl)
  pop_loop-returns (suc fuel) timestamp (e ∷ q) acc all = elim (Bool-cases (leb e.time timestamp)) [
    | inr late ↦ (acc, e ∷ q, rw (late, pop_loop))
    | inl early ↦
        let q₁ = items (heappop (entry_lt compare_calls) (e ∷ q)) in
        let pops = heappop-returns (entry_lt compare_calls) (e ∷ q) all in
        let left = Pairwise.of_cons (
          AllAnswer-perm (entry_lt compare_calls)
            (Perm.symm (heappop-perm (entry_lt compare_calls) e q)) all) in
        let (tasks, q', r) = pop_loop-returns fuel timestamp q₁ (acc ++ e.task ∷ []) left in
        (tasks, q', rw (early, pop_loop) (rw pops r))
  ]

  -- With distinct keys pop_tasks_till_timestamp does not raise, and returns exactly what is due.
  pub pop_tasks_till_timestamp_lem :
      (q : TaskQueue C) (timestamp : ℕ)
      → IsQueue compare_calls q
      → DistinctKeys q
      → (tasks : List (Task C)) × (q' : TaskQueue C) × (pop_tasks_till_timestamp compare_calls q
            timestamp
          ≡ popped tasks q')
        × Due compare_calls timestamp q tasks q'
  unfolding pop_tasks_till_timestamp
  pop_tasks_till_timestamp_lem q timestamp valid distinct =
      let (tasks, q', r) =
        pop_loop-returns (length q) timestamp q [] (DistinctKeys-AllAnswer q distinct) in
      (tasks, q', r, pop_tasks_till_timestamp-Due compare_calls q timestamp tasks q' valid r)

  -- The entry has the key of the task, and Python does not order their calls.
  abbrev pub Ties : Task C → Entry C → Type 0
  Ties t e =
      (e.time ≡ t.abs_time)
      × (e.prio ≡ t.priority)
      × (e.task.abs_time ≡ t.abs_time)
      × (e.task.priority ≡ t.priority)
      × (compare_calls t.call e.task.call ≡ unordered)

  tie-none : (t : Task C) (e : Entry C) → Ties t e → entry_lt compare_calls (entry t) e ≡ none
  unfolding entry_lt entry
  tie-none t e (kt, kp, tt', tp, u) = ground arith

  push_tie :
      (e : Entry C) (q : TaskQueue C) (x : Entry C)
      → ((f : Entry C) → Mem f (e ∷ q) → entry_lt compare_calls x f ≡ none)
      → heappush (entry_lt compare_calls) (e ∷ q) x ≡ type_error ((e ∷ q) ++ x ∷ [])
  unfolding heappush siftdown lt_at
  push_tie e q x ties =
      let n = length (e ∷ q) in
      let inside : parent n < n = omega arith in
      let (f, at_f) = get_elem?-some (e ∷ q) (parent n) inside in
      let at_last = get_elem?-snoc q x in
      let at_parent = get_elem?-append_left (e ∷ q) (x ∷ []) (parent n) inside ∙ at_f in
      let stuck = ties f (get_elem?-mem (e ∷ q) (parent n) f at_f) in ground arith

  -- A task with the key of every task in the queue, and a call that Python does not order against
  -- theirs, cannot be scheduled: schedule_task raises TypeError. The task is in the queue
  -- nevertheless, behind the others.
  pub schedule_task-tie :
      (e : Entry C) (q : TaskQueue C) (t : Task C)
      → ((f : Entry C) → Mem f (e ∷ q) → Ties t f)
      → schedule_task compare_calls (e ∷ q) t ≡ type_error ((e ∷ q) ++ entry t ∷ [])
  unfolding schedule_task
  schedule_task-tie e q t ties = push_tie e q (entry t) (λ f m. tie-none t f (ties f m))
