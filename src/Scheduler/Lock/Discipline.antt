-- ===== src/Scheduler/Lock/Discipline.antt =====
-- The thread never waits for itself, and leaves the mutex as it found it.
pub mod Run
use py_lwip.Prelude.{
  ℕ, ◌≡◌, refl, Bool, true, false, List, [], ◌∷◌, if◌then◌else◌, inl, inr, Bool-cases,
}
use py_lwip.Prelude.Ran.{Exception, type_error, other}
use py_lwip.Scheduler.Task.{Compared, Task}
use py_lwip.Scheduler.Future.{Completion}
use py_lwip.Scheduler.Queue.{Popped, popped, pop_error, pop_tasks_till_timestamp}
use py_lwip.Scheduler.Executor.{
  Executor, Thread, idle, waiting, processing, executing, ended, died, Decision, leave, process,
  wait, run_start, begin, finish, wait_round,
}
use py_lwip.Scheduler.Lock.{
  Guarded, Locked, returns, raises, asleep, blocks, and_then, change, acquire, release, leave_scope,
  with_condition, with_unlocker, condition_wait, unless_died, end_action, call_action, process_task,
  process_tasks, process_popped, process_expired_tasks, on_wait, wait_for_task_to_process, run_once,
  run_loop, run,
}

-- The call does not block; at its end, normal or not, the thread holds the mutex or not as `b`
-- says. A thread that sleeps in a wait does not hold it.
unfoldable pub Leaves : {W A : Type 0} → Bool → Locked W A → Type 0
Leaves b (returns s a) = s.held ≡ b
Leaves b (raises s x) = s.held ≡ b
Leaves b (asleep s) = s.held ≡ false
Leaves b blocks = ⊥

module _ {W : Type 0} where
  pub and_then-Leaves :
      {A B : Type 0} (b : Bool) (r : Locked W A) (next : A → Guarded W → Locked W B)
      → Leaves b r
      → ((a : A) (s : Guarded W) → s.held ≡ b → Leaves b (next a s))
      → Leaves b (and_then r next)
  unfolding Leaves
  and_then-Leaves b (returns s a) next left then_leaves = then_leaves a s left
  and_then-Leaves b (raises s x) next left then_leaves = left
  and_then-Leaves b (asleep s) next left then_leaves = left
  and_then-Leaves b blocks next left then_leaves = left

  leave_scope-release-Leaves :
      {A : Type 0} (r : Locked W A) → Leaves true r → Leaves false (leave_scope release r)
  unfolding Leaves release
  leave_scope-release-Leaves (returns s a) held = rw held refl
  leave_scope-release-Leaves (raises s x) held = rw held refl
  leave_scope-release-Leaves (asleep s) held = held
  leave_scope-release-Leaves blocks held = held

  leave_scope-acquire-Leaves :
      {A : Type 0} (r : Locked W A) → Leaves false r → Leaves true (leave_scope acquire r)
  unfolding Leaves acquire
  leave_scope-acquire-Leaves (returns s a) held = rw held refl
  leave_scope-acquire-Leaves (raises s x) held = rw held refl
  leave_scope-acquire-Leaves (asleep s) held = held
  leave_scope-acquire-Leaves blocks held = held

  -- A body that runs with the mutex.
  pub with_condition-Leaves :
      {A : Type 0} (body : Guarded W → Locked W A) (s : Guarded W)
      → ((s₁ : Guarded W) → s₁.held ≡ true → Leaves true (body s₁))
      → s.held ≡ false
      → Leaves false (with_condition body s)
  unfolding acquire
  with_condition-Leaves body s body_leaves free =
      rw free (leave_scope-release-Leaves _ (body_leaves (record s { held = true }) refl))

  -- A body that runs without it.
  pub with_unlocker-Leaves :
      {A : Type 0} (body : Guarded W → Locked W A) (s : Guarded W)
      → ((s₁ : Guarded W) → s₁.held ≡ false → Leaves false (body s₁))
      → s.held ≡ true
      → Leaves true (with_unlocker body s)
  unfolding with_unlocker release
  with_unlocker-Leaves body s body_leaves held =
      rw held (leave_scope-acquire-Leaves _ (body_leaves (record s { held = false }) refl))

  pub condition_wait-Leaves :
      (wake : W → W) (s : Guarded W) → s.held ≡ true → Leaves true (condition_wait wake s)
  unfolding Leaves acquire release
  condition_wait-Leaves wake s held = rw held refl
