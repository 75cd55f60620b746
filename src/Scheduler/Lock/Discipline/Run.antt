-- ===== src/Scheduler/Lock/Discipline/Run.antt =====
-- `run` of SingleThreadExecutor keeps to the mutex, with actions that do.
use py_lwip.Prelude.{◌≡◌, refl, Bool, true, false, List, [], ◌∷◌, if◌then◌else◌}
use py_lwip.Scheduler.Task.{Compared, Task}
use py_lwip.Scheduler.Future.{Completion}
use py_lwip.Scheduler.Queue.{Popped, popped, pop_error}
use py_lwip.Scheduler.Executor.{
  Executor, Thread, idle, waiting, processing, executing, ended, died, Decision, leave, process,
  wait, run_start, begin, wait_round,
}
use py_lwip.Scheduler.Lock.{
  Guarded, Locked, returns, raises, asleep, blocks, and_then, change, release, with_condition,
  condition_wait, unless_died, end_action, call_action, process_task, process_tasks, process_popped,
  process_expired_tasks, on_wait, wait_for_task_to_process, run_once, run_loop, run,
}
use py_lwip.Scheduler.Lock.Discipline.{
  Leaves, and_then-Leaves, with_condition-Leaves, with_unlocker-Leaves, condition_wait-Leaves,
}

module _ {C V : Type 0} where
  unless_died-Leaves :
      (b : Bool) (thread : Thread C) (s : Guarded (Executor C V))
      → s.held ≡ b
      → Leaves b (unless_died thread s)
  unfolding Leaves
  unless_died-Leaves b idle s held = held
  unless_died-Leaves b waiting s held = held
  unless_died-Leaves b ended s held = held
  unless_died-Leaves b died s held = held
  unless_died-Leaves b (processing ts) s held = held
  unless_died-Leaves b (executing t ts) s held = held

  end_action-Leaves :
      (t : Task C) (ts : List (Task C)) (r : Locked (Executor C V) (Completion V))
      → Leaves false r
      → Leaves false (end_action t ts r)
  unfolding Leaves
  end_action-Leaves t ts (returns s c) free = unless_died-Leaves false _ _ free
  end_action-Leaves t ts (raises s x) free = free
  end_action-Leaves t ts (asleep s) free = free
  end_action-Leaves t ts blocks free = free

  on_wait-Leaves :
      (d : Decision) (waits : Locked (Executor C V) Bool) (s : Guarded (Executor C V))
      → s.held ≡ true
      → Leaves true waits
      → Leaves true (on_wait d waits s)
  unfolding Leaves
  on_wait-Leaves leave waits s held waits_leave = held
  on_wait-Leaves process waits s held waits_leave = held
  on_wait-Leaves (wait delay) waits s held waits_leave = waits_leave

  wait_for_task_to_process-Leaves :
      (wakes : List (Executor C V → Executor C V)) (s : Guarded (Executor C V))
      → s.held ≡ true
      → Leaves true (wait_for_task_to_process wakes s)
  unfolding Leaves release
  wait_for_task_to_process-Leaves [] s held =
      on_wait-Leaves (wait_round s.world).1 _ _ held (rw held refl)
  wait_for_task_to_process-Leaves (wake ∷ wakes) s held =
      on_wait-Leaves (wait_round s.world).1 _ _ held (
        and_then-Leaves true (condition_wait wake _) _ (condition_wait-Leaves wake _ held)
          (λ _ s₁ held₁. wait_for_task_to_process-Leaves wakes s₁ held₁))

module _ {C V : Type 0} (compare_calls : C → C → Compared)
    (perform : C → Guarded (Executor C V) → Locked (Executor C V) (Completion V)) where
  module _
      (performs : (c : C) (s : Guarded (Executor C V))
        → s.held ≡ false
        → Leaves false (perform c s)) where
    call_action-Leaves :
        (thread : Thread C) (t : Task C) (ts : List (Task C)) (s : Guarded (Executor C V))
        → s.held ≡ false
        → Leaves false (call_action compare_calls perform thread t ts s)
    unfolding Leaves
    call_action-Leaves idle t ts s free = free
    call_action-Leaves waiting t ts s free = free
    call_action-Leaves ended t ts s free = free
    call_action-Leaves died t ts s free = free
    call_action-Leaves (processing us) t ts s free = free
    call_action-Leaves (executing u us) t ts s free =
        end_action-Leaves t ts _ (performs t.call s free)

    process_tasks-Leaves :
        (ts : List (Task C)) (s : Guarded (Executor C V))
        → s.held ≡ false
        → Leaves false (process_tasks compare_calls perform ts s)
    unfolding Leaves
    process_tasks-Leaves [] s free = free
    process_tasks-Leaves (t ∷ ts) s free =
        and_then-Leaves false (process_task compare_calls perform t ts s) _
          (call_action-Leaves _ t ts (change (begin t ts) s) free)
          (λ _ s₁ free₁. process_tasks-Leaves ts s₁ free₁)

    process_popped-Leaves :
        (p : Popped C) (s : Guarded (Executor C V))
        → s.held ≡ true
        → Leaves true (process_popped compare_calls perform p s)
    unfolding Leaves
    process_popped-Leaves (popped ts q) s held =
        with_unlocker-Leaves (process_tasks compare_calls perform ts) _ (process_tasks-Leaves ts)
          held
    process_popped-Leaves (pop_error q) s held = held

    on_ready-Leaves :
        (ready : Bool) (s : Guarded (Executor C V))
        → s.held ≡ true
        → Leaves true (
            if ready
            then (and_then
                (process_expired_tasks compare_calls perform s)
                (λ _ s₁. returns s₁ true))
            else returns s false)
    unfolding Leaves
    on_ready-Leaves true s held =
        and_then-Leaves true (process_expired_tasks compare_calls perform s) _
          (process_popped-Leaves _ s held) (λ _ s₁ held₁. held₁)
    on_ready-Leaves false s held = held

    on_more-Leaves :
        (more : Bool) (later : List (List (Executor C V → Executor C V)))
        (s : Guarded (Executor C V))
        → s.held ≡ false
        → Leaves false (run_loop compare_calls perform later s)
        → Leaves false (if more then run_loop compare_calls perform later s else returns s tt)
    unfolding Leaves
    on_more-Leaves true later s free later_leaves = later_leaves
    on_more-Leaves false later s free later_leaves = free

    run_once-Leaves :
        (wakes : List (Executor C V → Executor C V)) (s : Guarded (Executor C V))
        → s.held ≡ false
        → Leaves false (run_once compare_calls perform wakes s)
    run_once-Leaves wakes s free =
        with_condition-Leaves _ s
          (λ s₁ held.
            and_then-Leaves true (wait_for_task_to_process wakes s₁) _
              (wait_for_task_to_process-Leaves wakes s₁ held)
              (λ ready s₂ held₂. on_ready-Leaves ready s₂ held₂))
          free

    run_loop-Leaves :
        (loops : List (List (Executor C V → Executor C V))) (s : Guarded (Executor C V))
        → s.held ≡ false
        → Leaves false (run_loop compare_calls perform loops s)
    unfolding Leaves
    run_loop-Leaves [] s free = free
    run_loop-Leaves (wakes ∷ later) s free =
        and_then-Leaves false (run_once compare_calls perform wakes s) _
          (run_once-Leaves wakes s free)
          (λ more s₁ free₁. on_more-Leaves more later s₁ free₁ (run_loop-Leaves later s₁ free₁))

    -- With actions that leave the mutex free when they are called without it, `run` never waits for
    -- a mutex that its thread holds, and is without it at its end, whatever is raised and however
    -- many rounds it makes.
    pub run-Leaves :
        (loops : List (List (Executor C V → Executor C V))) (s : Guarded (Executor C V))
        → s.held ≡ false
        → Leaves false (run compare_calls perform loops s)
    unfolding Leaves
    run-Leaves loops s free =
        let start = λ (s₁ : Guarded (Executor C V)). returns (change run_start s₁) tt in
        and_then-Leaves false (with_condition start s) _
          (with_condition-Leaves start s (λ s₁ held. held) free)
          (λ _ s₁ free₁. run_loop-Leaves loops s₁ free₁)
