-- ===== src/Scheduler/Lock.antt =====
-- The mutex of SingleThreadExecutor in lwip_py/utility/scheduler.py, as the thread in `run` takes and
-- releases it: `with self._condition`, ScopedUnlocker, and condition.wait.
pub mod Discipline
use py_lwip.Prelude.{Bool, true, false, List, [], ◌∷◌, if◌then◌else◌}
use py_lwip.Prelude.Ran.{Exception, type_error, other}
use py_lwip.Scheduler.Task.{Compared, Task}
use py_lwip.Scheduler.Future.{Completion}
use py_lwip.Scheduler.Queue.{Popped, popped, pop_error, pop_tasks_till_timestamp}
use py_lwip.Scheduler.Executor.{
  Executor, Thread, executing, died, Decision, leave, process, wait, run_start, begin, finish,
  escape, wait_round,
}

-- The world, and whether the thread itself holds the mutex.
pub record Guarded (W : Type 0) : Type 0 where
  pub held : Bool
  pub world : W

-- What a call does that may use the mutex: `asleep` is in condition.wait for good, and `blocks`
-- waits for a mutex that the thread itself holds.
pub data Locked (W A : Type 0) : Type 0 where
  returns : Guarded W → A → Locked W A
  raises : Guarded W → Exception → Locked W A
  asleep : Guarded W → Locked W A
  blocks : Locked W A

module _ {W A B : Type 0} where
  abbrev pub and_then : Locked W A → (A → Guarded W → Locked W B) → Locked W B
  and_then (returns s a) next = next a s
  and_then (raises s x) next = raises s x
  and_then (asleep s) next = asleep s
  and_then blocks next = blocks

module _ {W : Type 0} where
  abbrev pub change : (W → W) → Guarded W → Guarded W
  change f s = record s { world = f s.world }

  -- threading.Lock is not reentrant, and its release without the lock raises RuntimeError.
  unfoldable pub acquire : Guarded W → Locked W (Unit {0})
  acquire s = if s.held then blocks else returns (record s { held = true }) tt

  unfoldable pub release : Guarded W → Locked W (Unit {0})
  release s = if s.held then returns (record s { held = false }) tt else raises s other

  -- A with statement, whose exit runs on an exception too.
  module _ {A : Type 0} where
    abbrev pub leave_scope : (Guarded W → Locked W (Unit {0})) → Locked W A → Locked W A
    leave_scope exit (returns s a) = and_then (exit s) λ _ s₁. returns s₁ a
    leave_scope exit (raises s x) = and_then (exit s) λ _ s₁. raises s₁ x
    leave_scope exit (asleep s) = asleep s
    leave_scope exit blocks = blocks

    abbrev pub with_condition : (Guarded W → Locked W A) → Guarded W → Locked W A
    with_condition body s = and_then (acquire s) λ _ s₁. leave_scope release (body s₁)

    -- ScopedUnlocker.
    unfoldable pub with_unlocker : (Guarded W → Locked W A) → Guarded W → Locked W A
    with_unlocker body s = and_then (release s) λ _ s₁. leave_scope acquire (body s₁)

  -- condition.wait, during which the others do `wake`.
  abbrev pub condition_wait : (wake : W → W) → Guarded W → Locked W (Unit {0})
  condition_wait wake s = and_then (release s) λ _ s₁. acquire (change wake s₁)

module _ {C V : Type 0} where
  -- `died` is an exception of the future.
  abbrev pub unless_died : Thread C → Guarded (Executor C V) → Locked (Executor C V) (Unit {0})
  unless_died died s = raises s other
  unless_died _ s = returns s tt

  abbrev pub end_action :
      Task C
      → List (Task C)
      → Locked (Executor C V) (Completion V)
      → Locked (Executor C V) (Unit {0})
  end_action t ts (returns s c) =
      let s₁ = change (finish c t ts) s in unless_died s₁.world.thread s₁
  end_action t ts (raises s x) = raises (change escape s) x
  end_action t ts (asleep s) = asleep s
  end_action t ts blocks = blocks

  -- What others do during each wait is a list; after it nobody wakes the thread.
  abbrev pub on_wait :
      Decision → Locked (Executor C V) Bool → Guarded (Executor C V) → Locked (Executor C V) Bool
  on_wait leave waits s = returns s false
  on_wait process waits s = returns s true
  on_wait (wait delay) waits s = waits

  abbrev pub wait_for_task_to_process :
      List (Executor C V → Executor C V) → Guarded (Executor C V) → Locked (Executor C V) Bool
  wait_for_task_to_process [] s =
      let (status', decision) = wait_round s.world in
      let s₁ = change (λ w. record w { status = status' }) s in
      on_wait decision (and_then (release s₁) λ _ s₂. asleep s₂) s₁
  wait_for_task_to_process (wake ∷ wakes) s =
      let (status', decision) = wait_round s.world in
      let s₁ = change (λ w. record w { status = status' }) s in
      on_wait decision (and_then (condition_wait wake s₁) λ _ s₂. wait_for_task_to_process wakes s₂)
        s₁

-- `perform` calls an action, which may use the mutex itself; BaseException is raised.
module _ {C V : Type 0} (compare_calls : C → C → Compared)
    (perform : C → Guarded (Executor C V) → Locked (Executor C V) (Completion V)) where
  abbrev pub call_action :
      Thread C → Task C → List (Task C) → Guarded (Executor C V) → Locked (Executor C V) (Unit {0})
  call_action (executing _ _) t ts s = end_action t ts (perform t.call s)
  call_action thread t ts s = unless_died thread s

  abbrev pub process_task :
      Task C → List (Task C) → Guarded (Executor C V) → Locked (Executor C V) (Unit {0})
  process_task t ts s = let s₁ = change (begin t ts) s in call_action s₁.world.thread t ts s₁

  abbrev pub process_tasks :
      List (Task C) → Guarded (Executor C V) → Locked (Executor C V) (Unit {0})
  process_tasks [] s = returns s tt
  process_tasks (t ∷ ts) s = and_then (process_task t ts s) λ _ s₁. process_tasks ts s₁

  abbrev pub process_popped : Popped C → Guarded (Executor C V) → Locked (Executor C V) (Unit {0})
  process_popped (popped ts q) s =
      with_unlocker (process_tasks ts) (change (λ w. record w { tasks = q }) s)
  process_popped (pop_error q) s = raises (change (λ w. record w { tasks = q }) s) type_error

  abbrev pub process_expired_tasks : Guarded (Executor C V) → Locked (Executor C V) (Unit {0})
  process_expired_tasks s =
      process_popped (pop_tasks_till_timestamp compare_calls s.world.tasks s.world.clock) s

  -- The loop of `run`, as many times as the list says; `false` ends it.
  abbrev pub run_once :
      List (Executor C V → Executor C V) → Guarded (Executor C V) → Locked (Executor C V) Bool
  run_once wakes s =
      with_condition
        (λ s₁. and_then (wait_for_task_to_process wakes s₁) λ ready s₂.
          if ready
          then (and_then (process_expired_tasks s₂) (λ _ s₃. returns s₃ true))
          else returns s₂ false)
        s

  abbrev pub run_loop :
      List (List (Executor C V → Executor C V))
      → Guarded (Executor C V)
      → Locked (Executor C V) (Unit {0})
  run_loop [] s = returns s tt
  run_loop (wakes ∷ later) s =
      and_then (run_once wakes s)
        λ more s₁. let rest = run_loop later s₁ in if more then rest else returns s₁ tt

  abbrev pub run :
      List (List (Executor C V → Executor C V))
      → Guarded (Executor C V)
      → Locked (Executor C V) (Unit {0})
  run loops s =
      and_then (with_condition (λ s₁. returns (change run_start s₁) tt) s) λ _ s₁. run_loop loops s₁
