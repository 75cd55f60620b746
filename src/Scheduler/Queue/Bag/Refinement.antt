-- ===== src/Scheduler/Queue/Bag/Refinement.antt =====
-- TaskQueue does what the bag of tasks promises.
use mathlib.Core.Path.{subst}
use mathlib.Core.List.{Pairwise}
use py_lwip.Prelude.{ℕ, ◌≡◌, refl, sym, ap, ◌∙◌, none, some, some-injective, List, [], ◌∷◌, map}
use py_lwip.Heapq.{Outcome, returned, type_error}
use py_lwip.Scheduler.Task.{Compared, Task, Entry, TaskLe}
use py_lwip.Scheduler.Queue.{
  TaskQueue, Popped, popped, pop_error, get_tasks, schedule_task, pop_tasks_till_timestamp, IsQueue,
}
use py_lwip.Scheduler.Queue.Due.{pop_tasks_till_timestamp-Due}
use py_lwip.Scheduler.Queue.Errors.{schedule_task-IsQueue}
use py_lwip.Scheduler.Queue.Bag.{
  TaskBag, bag_of, put, due_part, QueueOp, schedules, pops, run_bag, Result, with_popped,
  if_scheduled, if_popped, run_queue, put-bag, due_part-bag, later_part-bag,
}

abbrev pub AllSorted : {C : Type 0} → List (List (Task C)) → Type 0
AllSorted [] = Unit
AllSorted (ts ∷ out) = Pairwise TaskLe ts × AllSorted out

-- The queue that is left and the lists that were popped, against what the specification says.
pub record Refines {C : Type 0} (compare_calls : C → C → Compared) (q : TaskQueue C)
    (out : List (List (Task C))) (spec : TaskBag C × List (TaskBag C)) : Type 0 where
  pub left : bag_of (get_tasks q) ≡ spec.0
  pub taken : map bag_of out ≡ spec.1
  pub sorted : AllSorted out
  pub queue : IsQueue compare_calls q

module _ {C : Type 0} (compare_calls : C → C → Compared) where
  with_popped-some :
      (ts : List (Task C)) (r : Result compare_calls) (q : TaskQueue C) (out : List (List (Task C)))
      → with_popped compare_calls ts r ≡ some (q, out)
      → (rest : List (List (Task C))) × (r ≡ some (q, rest)) × (out ≡ ts ∷ rest)
  with_popped-some ts none q out h = cc
  with_popped-some ts (some (q₁, rest)) q out h =
      let same = some-injective _ _ h in
      (
        rest,
        ap (λ (p : TaskQueue C × List (List (Task C))). some (p.0, rest)) same,
        sym (ap (λ (p : TaskQueue C × List (List (Task C))). p.1) same),
      )

  -- The operations refine what they promise from every queue.
  abbrev Promise : List (QueueOp C) → Type 0
  Promise ops =
      (q q' : TaskQueue C) (out : List (List (Task C)))
      → IsQueue compare_calls q
      → run_queue compare_calls ops q ≡ some (q', out)
      → Refines compare_calls q' out (run_bag ops (bag_of (get_tasks q)))

  scheduled-Refines :
      (ops : List (QueueOp C)) (t : Task C) (q q' : TaskQueue C) (out : List (List (Task C)))
      (o : Outcome (Entry C))
      → Promise ops
      → IsQueue compare_calls q
      → schedule_task compare_calls q t ≡ o
      → if_scheduled compare_calls o (λ q₁. run_queue compare_calls ops q₁) ≡ some (q', out)
      → Refines compare_calls q' out (run_bag ops (put t (bag_of (get_tasks q))))
  scheduled-Refines ops t q q' out (type_error q₁) later valid r h = cc
  scheduled-Refines ops t q q' out (returned q₁) later valid r h =
      subst (λ b. Refines compare_calls q' out (run_bag ops b)) (put-bag compare_calls q t q₁ r)
        (later q₁ q' out (schedule_task-IsQueue compare_calls q t q₁ valid r) h)

  popped-Refines :
      (ops : List (QueueOp C)) (timestamp : ℕ) (q q' : TaskQueue C) (out : List (List (Task C)))
      (o : Popped C)
      → Promise ops
      → IsQueue compare_calls q
      → pop_tasks_till_timestamp compare_calls q timestamp ≡ o
      → if_popped compare_calls o (λ q₁. run_queue compare_calls ops q₁) ≡ some (q', out)
      → Refines compare_calls q' out (run_bag (pops timestamp ∷ ops) (bag_of (get_tasks q)))
  popped-Refines ops timestamp q q' out (pop_error q₁) later valid r h = cc
  popped-Refines ops timestamp q q' out (popped ts q₁) later valid r h =
      let due = pop_tasks_till_timestamp-Due compare_calls q timestamp ts q₁ valid r in
      let (rest, ran, same) = with_popped-some ts (run_queue compare_calls ops q₁) q' out h in
      let v =
        subst (λ b. Refines compare_calls q' rest (run_bag ops b))
          (later_part-bag compare_calls q timestamp ts q₁ due) (later q₁ q' rest due.queue ran) in
      subst
        (λ l. Refines compare_calls q' l (run_bag (pops timestamp ∷ ops) (bag_of (get_tasks q))))
        (sym same)
        (record {
          left = v.left;
          taken =
              ap (λ b. b ∷ map bag_of rest) (due_part-bag compare_calls q timestamp ts q₁ due)
              ∙ ap (λ l. due_part timestamp (bag_of (get_tasks q)) ∷ l) v.taken;
          sorted = (due.sorted, v.sorted);
          queue = v.queue;
        })

  -- For every sequence of operations on which the queue does not raise TypeError: the queue that
  -- is left is, as a bag, the one of the specification, in which schedule_task puts a task into the
  -- bag and pop_tasks_till_timestamp takes out the tasks up to the timestamp; each list that was
  -- popped is, as a bag, what the specification takes out, and it is sorted by time and priority.
  pub run_queue-Refines :
      (ops : List (QueueOp C)) (q q' : TaskQueue C) (out : List (List (Task C)))
      → IsQueue compare_calls q
      → run_queue compare_calls ops q ≡ some (q', out)
      → Refines compare_calls q' out (run_bag ops (bag_of (get_tasks q)))
  run_queue-Refines [] q q' out valid h =
      let same = some-injective _ _ h in
      subst
        (λ (p : TaskQueue C × List (List (Task C))).
          Refines compare_calls p.0 p.1 (bag_of (get_tasks q), []))
        same (record { left = refl; taken = refl; sorted = tt; queue = valid })
  run_queue-Refines (schedules t ∷ ops) q q' out valid h =
      scheduled-Refines ops t q q' out (schedule_task compare_calls q t) (run_queue-Refines ops)
        valid refl h
  run_queue-Refines (pops timestamp ∷ ops) q q' out valid h =
      popped-Refines ops timestamp q q' out (pop_tasks_till_timestamp compare_calls q timestamp)
        (run_queue-Refines ops) valid refl h
