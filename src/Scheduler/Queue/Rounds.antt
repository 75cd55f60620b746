-- ===== src/Scheduler/Queue/Rounds.antt =====
-- A proof rule for the loop of pop_tasks_till_timestamp.
use mathlib.Core.Path.{subst}
use mathlib.Core.List.{Perm}
use native.Mathlib.Nat.{le_refl}
use py_lwip.Prelude.{
  ℕ, zero, suc, ◌≤◌, ◌≡◌, refl, sym, ap, ◌∙◌, true, false, List, [], ◌∷◌, ◌++◌, leb, length, inl,
  inr, Bool-cases, arith, append_assoc, append-nil, length-perm,
}
use py_lwip.Heapq.{Outcome, returned, type_error, heappop, items}
use py_lwip.Heapq.Ops.{heappop-perm}
use py_lwip.Scheduler.Task.{Compared, Task, Entry, entry_lt}
use py_lwip.Scheduler.Queue.{
  TaskQueue, popped, popped_tasks, queue_left, pop_loop, pop_tasks_till_timestamp,
}

-- What to show of an invariant of the queue, and of a relation of the queue to the tasks that are
-- returned and the queue that is left.
pub record PopRule {C : Type 0} (compare_calls : C → C → Compared) (timestamp : ℕ)
    (Inv : TaskQueue C → Type 0) (P : TaskQueue C → List (Task C) → TaskQueue C → Type 0)
    : Type 0 where
  pub finish : Inv [] → P [] [] []
  pub stop :
      (e : Entry C) (q : TaskQueue C)
      → Inv (e ∷ q)
      → leb e.time timestamp ≡ false
      → P (e ∷ q) [] (e ∷ q)
  pub keep :
      (e : Entry C) (q q₁ : TaskQueue C)
      → Inv (e ∷ q)
      → heappop (entry_lt compare_calls) (e ∷ q) ≡ returned q₁
      → Inv q₁
  pub next :
      (e : Entry C) (q q₁ q' : TaskQueue C) (tasks : List (Task C))
      → Inv (e ∷ q)
      → leb e.time timestamp ≡ true
      → heappop (entry_lt compare_calls) (e ∷ q) ≡ returned q₁
      → P q₁ tasks q'
      → P (e ∷ q) (e.task ∷ tasks) q'

module _ {C : Type 0} (compare_calls : C → C → Compared) where
  -- The cases of a call of heappop, with the equation.
  data Pops (o : Outcome (Entry C)) : Type 0 where
    returns : (q : TaskQueue C) → o ≡ returned q → Pops o
    raises : (q : TaskQueue C) → o ≡ type_error q → Pops o

  Pops-cases : (o : Outcome (Entry C)) → Pops o
  Pops-cases (returned q) = returns q refl
  Pops-cases (type_error q) = raises q refl

  pub pop-perm :
      (e : Entry C) (q q' : TaskQueue C)
      → heappop (entry_lt compare_calls) (e ∷ q) ≡ returned q'
      → Perm (e ∷ q') (e ∷ q)
  pop-perm e q q' pops =
      subst (λ l. Perm (e ∷ l) (e ∷ q)) (ap items pops) (heappop-perm (entry_lt compare_calls) e q)

  module _ {timestamp : ℕ} {Inv : TaskQueue C → Type 0}
      {P : TaskQueue C → List (Task C) → TaskQueue C → Type 0}
      (rule : PopRule compare_calls timestamp Inv P) where
    pop_loop_ends :
        (q : TaskQueue C) (acc all : List (Task C)) (q₀ q' : TaskQueue C)
        → P q [] q₀
        → popped acc q₀ ≡ popped all q'
        → (tasks : List (Task C)) × (all ≡ acc ++ tasks) × P q tasks q'
    pop_loop_ends q acc all q₀ q' p r = (
      [],
      sym (ap popped_tasks r) ∙ sym (append-nil acc),
      subst (λ x. P q [] x) (ap queue_left r) p,
    )

    -- The accumulator is passed on in front of what the other rounds add.
    pop_loop_ind :
        (fuel : ℕ) (q : TaskQueue C) (acc all : List (Task C)) (q' : TaskQueue C)
        → length q ≤ fuel
        → Inv q
        → pop_loop compare_calls fuel timestamp q acc ≡ popped all q'
        → (tasks : List (Task C)) × (all ≡ acc ++ tasks) × P q tasks q'
    unfolding pop_loop
    pop_loop_ind zero [] acc all q' fits inv r = pop_loop_ends [] acc all [] q' (rule.finish inv) r
    pop_loop_ind zero (e ∷ q) acc all q' fits inv r = absurd (omega arith)
    pop_loop_ind (suc fuel) [] acc all q' fits inv r =
        pop_loop_ends [] acc all [] q' (rule.finish inv) r
    pop_loop_ind (suc fuel) (e ∷ q) acc all q' fits inv r =
        elim (Bool-cases (leb e.time timestamp)) [
          | inr late ↦
              pop_loop_ends (e ∷ q) acc all (e ∷ q) q' (rule.stop e q inv late)
                (rw (late, pop_loop) at r)
          | inl early ↦ elim (Pops-cases (heappop (entry_lt compare_calls) (e ∷ q))) [
            | raises q₁ pops ↦ let s = rw (early, pop_loop) at r in cc (rw pops at s)
            | returns q₁ pops ↦
                let (tasks, split, rest) =
                  pop_loop_ind fuel q₁ (acc ++ e.task ∷ []) all q'
                    (omega (arith, length-perm (pop-perm e q q₁ pops))) (rule.keep e q q₁ inv pops)
                    (let s = rw (early, pop_loop) at r in rw pops at s) in
                (
                  e.task ∷ tasks,
                  split ∙ append_assoc acc (e.task ∷ []) tasks,
                  rule.next e q q₁ q' tasks inv early pops rest,
                )
          ]
        ]

    pub pop_tasks_ind :
        (q : TaskQueue C) (tasks : List (Task C)) (q' : TaskQueue C)
        → Inv q
        → pop_tasks_till_timestamp compare_calls q timestamp ≡ popped tasks q'
        → P q tasks q'
    unfolding pop_tasks_till_timestamp
    pop_tasks_ind q tasks q' inv r =
        let (tasks', split, p) = pop_loop_ind (length q) q [] tasks q' (le_refl _) inv r in
        rw split p
