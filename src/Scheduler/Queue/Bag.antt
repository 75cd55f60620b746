-- ===== src/Scheduler/Queue/Bag.antt =====
-- The abstract view of TaskQueue: a bag of tasks, from which the due ones are taken.
pub mod Refinement
use mathlib.Core.Path.{subst}
use mathlib.Core.Quot
use mathlib.Core.Quot.{Quot, Quot-set}
use mathlib.Core.List.{Mem, Perm, mem-append_left, mem-append_right}
use mathlib.Core.List.Perm
use py_lwip.Prelude.{
  ℕ, ◌≤◌, ◌<◌, ◌≡◌, refl, sym, ap, ◌∙◌, Bool, true, false, not, Option, none, some, List, [], ◌∷◌,
  ◌++◌, map, append-nil, leb, arith,
}
use py_lwip.Prelude.Select.{select, select-append, select-all, select-none, select-perm}
use py_lwip.Heapq.{Outcome, returned, type_error, items}
use py_lwip.Scheduler.Task.{Compared, Task, Entry}
use py_lwip.Scheduler.Queue.{
  TaskQueue, Popped, popped, pop_error, get_tasks, schedule_task, pop_tasks_till_timestamp, IsQueue,
}
use py_lwip.Scheduler.Queue.Due.{Due, pop_tasks_till_timestamp-Due}
use py_lwip.Scheduler.Queue.Errors.{schedule_task-perm, schedule_task-IsQueue}

-- Lists of tasks up to their order.
abbrev pub TaskBag : Type 0 → Type 0
TaskBag C = Quot (Perm {A = Task C})

module _ {C : Type 0} where
  abbrev pub bag_of : List (Task C) → TaskBag C
  bag_of ts = Quot.mk ts

  unfoldable pub put : Task C → TaskBag C → TaskBag C
  put t = Quot.lift Quot-set (λ ts. bag_of (t ∷ ts)) (λ ts us p. Quot.sound (Perm.cons t p))

  abbrev pub is_due : ℕ → Task C → Bool
  is_due timestamp t = leb t.abs_time timestamp

  -- The tasks up to a time, and the others.
  unfoldable pub due_part : ℕ → TaskBag C → TaskBag C
  due_part timestamp =
      Quot.lift Quot-set (λ ts. bag_of (select (is_due timestamp) ts))
        (λ ts us p. Quot.sound (select-perm (is_due timestamp) p))

  unfoldable pub later_part : ℕ → TaskBag C → TaskBag C
  later_part timestamp =
      Quot.lift Quot-set (λ ts. bag_of (select (λ t. not (is_due timestamp t)) ts))
        (λ ts us p. Quot.sound (select-perm (λ t. not (is_due timestamp t)) p))

-- The operations of TaskQueue that change it.
pub data QueueOp (C : Type 0) : Type 0 where
  schedules : Task C → QueueOp C
  pops : (timestamp : ℕ) → QueueOp C

module _ {C : Type 0} where
  -- The specification: the bag that is left, and what each pop takes out.
  abbrev pub run_bag : List (QueueOp C) → TaskBag C → TaskBag C × List (TaskBag C)
  run_bag [] b = (b, [])
  run_bag (schedules t ∷ ops) b = run_bag ops (put t b)
  run_bag (pops timestamp ∷ ops) b =
      let rest = run_bag ops (later_part timestamp b) in (rest.0, due_part timestamp b ∷ rest.1)

module _ {C : Type 0} (compare_calls : C → C → Compared) where
  abbrev pub Result : Type 0
  Result = Option (TaskQueue C × List (List (Task C)))

  abbrev pub with_popped : List (Task C) → Result → Result
  with_popped ts none = none
  with_popped ts (some (q, out)) = some (q, ts ∷ out)

  abbrev pub if_scheduled : Outcome (Entry C) → (TaskQueue C → Result) → Result
  if_scheduled (returned q) next = next q
  if_scheduled (type_error q) next = none

  abbrev pub if_popped : Popped C → (TaskQueue C → Result) → Result
  if_popped (popped ts q) next = with_popped ts (next q)
  if_popped (pop_error q) next = none

  -- The queue that is left, and what each pop returns; `none` is TypeError.
  abbrev pub run_queue : List (QueueOp C) → TaskQueue C → Result
  run_queue [] q = some (q, [])
  run_queue (schedules t ∷ ops) q =
      if_scheduled (schedule_task compare_calls q t) (λ q'. run_queue ops q')
  run_queue (pops timestamp ∷ ops) q =
      if_popped (pop_tasks_till_timestamp compare_calls q timestamp) (λ q'. run_queue ops q')

  pub put-bag :
      (q : TaskQueue C) (t : Task C) (q' : TaskQueue C)
      → schedule_task compare_calls q t ≡ returned q'
      → bag_of (get_tasks q') ≡ put t (bag_of (get_tasks q))
  unfolding put
  put-bag q t q' r = Quot.sound (
      subst (λ o. Perm (get_tasks (items o)) (t ∷ get_tasks q)) r
        (schedule_task-perm compare_calls q t))

  pub due_part-bag :
      (q : TaskQueue C) (timestamp : ℕ) (ts : List (Task C)) (q' : TaskQueue C)
      → Due compare_calls timestamp q ts q'
      → bag_of ts ≡ due_part timestamp (bag_of (get_tasks q))
  unfolding due_part
  due_part-bag q timestamp ts q' out =
      let test = is_due {C = C} timestamp in
      let all = select-all test ts (λ t m. let due = out.due t m in ground arith) in
      let others =
        select-none test (get_tasks q') (λ t m. let later = out.later t m in ground arith) in
      let split : ts ≡ select test (ts ++ get_tasks q') = sym (
        select-append test ts (get_tasks q')
        ∙ ap (λ l. l ++ select test (get_tasks q')) all
        ∙ ap (λ l. ts ++ l) others
        ∙ append-nil ts) in
      ap bag_of split ∙ Quot.sound (select-perm test out.same)

  pub later_part-bag :
      (q : TaskQueue C) (timestamp : ℕ) (ts : List (Task C)) (q' : TaskQueue C)
      → Due compare_calls timestamp q ts q'
      → bag_of (get_tasks q') ≡ later_part timestamp (bag_of (get_tasks q))
  unfolding later_part
  later_part-bag q timestamp ts q' out =
      let test : Task C → Bool = λ t. not (is_due timestamp t) in
      let gone = select-none test ts (λ t m. let due = out.due t m in ground arith) in
      let all = select-all test (get_tasks q') (λ t m. let later = out.later t m in ground arith) in
      let split : get_tasks q' ≡ select test (ts ++ get_tasks q') = sym (
        select-append test ts (get_tasks q')
        ∙ ap (λ l. l ++ select test (get_tasks q')) gone
        ∙ all) in
      ap bag_of split ∙ Quot.sound (select-perm test out.same)
