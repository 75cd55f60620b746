-- ===== src/Scheduler/Tests/Mutex.antt =====
-- `run` with an action that schedules a call, and so takes the mutex.
use py_lwip.Prelude.{swap, ℕ, ◌≡◌, refl, Bool, true, false, List, [], ◌∷◌}
use py_lwip.Heapq.{heappush, heappop, siftdown, siftup, lt_at, left_is_least}
use py_lwip.Scheduler.Task.{entry, entry_lt}
use py_lwip.Scheduler.Queue.{schedule_task, pop_tasks_till_timestamp}
use py_lwip.Scheduler.Future.{Completion, result}
use py_lwip.Scheduler.Executor.{
  Executor, new_executor, schedule_delayed, run_start, begin, finish, wait_round,
}
use py_lwip.Scheduler.Lock.{
  Guarded, Locked, returns, asleep, blocks, change, with_condition, acquire, release, with_unlocker,
  run,
}
use py_lwip.Scheduler.Lock.Discipline.{Leaves, with_condition-Leaves}
use py_lwip.Scheduler.Lock.Discipline.Run.{run-Leaves}
use py_lwip.Scheduler.Tests.{by_identity}

abbrev schedule_next : ℕ → Executor ℕ ℕ → Executor ℕ ℕ
schedule_next c s = (schedule_delayed by_identity 5 0 c s).0

abbrev schedule_body : ℕ → Guarded (Executor ℕ ℕ) → Locked (Executor ℕ ℕ) (Completion ℕ)
schedule_body c s = returns (change (schedule_next c) s) (result 0)

abbrev schedule_again : ℕ → Guarded (Executor ℕ ℕ) → Locked (Executor ℕ ℕ) (Completion ℕ)
schedule_again c s = with_condition (schedule_body c) s

schedule_again-Leaves :
    (c : ℕ) (s : Guarded (Executor ℕ ℕ)) → s.held ≡ false → Leaves false (schedule_again c s)
unfolding Leaves
schedule_again-Leaves c s free = with_condition-Leaves (schedule_body c) s (λ s₁ held. held) free

abbrev free_executor : Guarded (Executor ℕ ℕ)
free_executor = record { held = false; world = new_executor 0 }

-- During the wait of the first round a call is scheduled, and its time comes.
abbrev two_loops : List (List (Executor ℕ ℕ → Executor ℕ ℕ))
two_loops = ((λ w. record (schedule_next 1 w) { clock = 5 }) ∷ []) ∷ [] ∷ []

abbrev is_asleep : {A : Type 0} → Locked (Executor ℕ ℕ) A → Bool
is_asleep (asleep s) = true
is_asleep _ = false

-- The action has scheduled the next call, for which the thread waits.
two_loops_asleep : is_asleep (run by_identity schedule_again two_loops free_executor) ≡ true
unfolding swap schedule_task heappush heappop siftdown siftup lt_at left_is_least entry_lt entry
    by_identity pop_tasks_till_timestamp new_executor run_start begin finish schedule_delayed
    wait_round acquire release with_unlocker
two_loops_asleep = refl

-- With the mutex held the action would wait for itself.
held_blocks : schedule_again 1 (record { held = true; world = new_executor 0 }) ≡ blocks
unfolding acquire
held_blocks = refl

run-Leaves_example : Leaves false (run by_identity schedule_again two_loops free_executor)
run-Leaves_example =
    run-Leaves by_identity schedule_again schedule_again-Leaves two_loops free_executor refl
