-- ===== src/Scheduler/Executor/Waits.antt =====
-- How long _wait_for_task_to_process waits.
use mathlib.Core.List.{Mem}
use mathlib.Core.Path.{subst}
use py_lwip.Prelude.{
  leb, ◌<◌, ◌-◌, ◌⊎◌, ℕ, ◌+◌, ◌≤◌, ◌≡◌, refl, sym, ap, ◌∙◌, Bool, none, some, inl, inr, Bool-cases,
  arith,
}
use py_lwip.Prelude.Int.{pos, negsuc, sub_ℕ}
use py_lwip.Scheduler.Task.{Compared, Entry}
use py_lwip.Scheduler.Queue.{IsQueue, get_time_till_next_task}
use py_lwip.Scheduler.Queue.Next.{get_time_till_next_task_lem}
use py_lwip.Scheduler.Executor.{
  Executor, Status, stopped, stopped_sync, running, Decision, leave, process, wait, on_delay,
  wait_on, wait_round,
}

on_delay-sub_ℕ :
    (t clock : ℕ)
    → ((t ≤ clock) × (on_delay (some (sub_ℕ t clock)) ≡ process))
      ⊎ ((clock < t) × (on_delay (some (sub_ℕ t clock)) ≡ wait (some (pos (t - clock)))))
on_delay-sub_ℕ t clock = elim (Bool-cases (leb t clock)) [
  | inl due ↦ inl (ground arith, ground arith)
  | inr early ↦ inr (ground arith, ground arith)
]

wait_on-running :
    (st : Status) (nothing_left : Bool) (next : Decision)
    → st ≡ running
    → (wait_on st nothing_left next).1 ≡ next
wait_on-running running nothing_left next runs = refl
wait_on-running stopped nothing_left next runs = cc
wait_on-running stopped_sync nothing_left next runs = cc

module _ {C V : Type 0} where
  -- The thread processes a task that is due, or it waits with a timeout, at most till the time of e
  -- and exactly till that of some entry of the queue.
  pub InTime : Executor C V → Entry C → Decision → Type 0
  InTime s e leave = ⊥
  InTime s e process = (next : Entry C) × (Mem next s.tasks) × (next.task.abs_time ≤ s.clock)
  InTime s e (wait none) = ⊥
  InTime s e (wait (some (negsuc n))) = ⊥
  InTime s e (wait (some (pos n))) =
      (s.clock + n ≤ e.time)
      × ((next : Entry C) × (Mem next s.tasks) × (next.task.abs_time ≡ s.clock + n))

  on_delay-InTime :
      (s : Executor C V) (e next : Entry C)
      → Mem next s.tasks
      → next.task.abs_time ≤ e.time
      → InTime s e (on_delay (some (sub_ℕ next.task.abs_time s.clock)))
  unfolding InTime
  on_delay-InTime s e next m le = elim (on_delay-sub_ℕ next.task.abs_time s.clock) [
    | inl (due, at) ↦ subst (InTime s e) (sym at) (next, m, due)
    | inr (early, at) ↦ subst (InTime s e) (sym at) (omega arith, (next, m, omega arith))
  ]

module _ {C V : Type 0} (compare_calls : C → C → Compared) where
  -- While the executor runs and an entry e is in its queue, each round of
  -- _wait_for_task_to_process ends the wait with a task that is due, or waits with a timeout that
  -- ends at the time of a task that is not later than e.
  pub wait_round-InTime :
      (s : Executor C V) (e : Entry C)
      → IsQueue compare_calls s.tasks
      → Mem e s.tasks
      → s.status ≡ running
      → InTime s e (wait_round s).1
  unfolding wait_round
  wait_round-InTime s e valid m runs =
      let (next, next_m, le, at) =
        get_time_till_next_task_lem compare_calls s.tasks s.clock e valid m in
      let (timed, _) = valid.keyed next next_m in
      let decided =
        wait_on-running s.status _ (on_delay (get_time_till_next_task s.tasks s.clock)) runs in
      subst (InTime s e) (sym (decided ∙ ap on_delay at))
        (on_delay-InTime s e next next_m (subst (λ t. t ≤ e.time) timed le))
