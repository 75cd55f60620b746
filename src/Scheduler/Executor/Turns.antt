-- ===== src/Scheduler/Executor/Turns.antt =====
-- The thread of a SingleThreadExecutor alone: nobody calls, every action ends, and a wait lasts
-- till its timeout.
pub mod Rounds
pub mod Shrinks
pub mod Futures
pub mod Ends
use py_lwip.Prelude.{ℕ, zero, suc, ◌+◌, Option, none, some}
use py_lwip.Prelude.Int.{ℤ, pos_part}
use py_lwip.Scheduler.Task.{Compared}
use py_lwip.Scheduler.Future.{Completion}
use py_lwip.Scheduler.Executor.{
  Executor, Thread, idle, waiting, processing, executing, Decision, leave, process, wait,
  wait_round,
}
use py_lwip.Scheduler.Executor.Events.{
  Event, tick, thread_starts, thread_round, thread_begins, action_ends, step,
}

-- How long a round of the loop lasts at least: condition.wait(delay) returns after the delay.
abbrev pub timeout : Decision → ℕ
timeout (wait (some delay)) = pos_part delay
timeout _ = 0

module _ {C V : Type 0} where
  -- What the thread does next; `slack` is the time that a round takes beyond its wait, `c` what an
  -- action ends with.
  abbrev pub turn_on : Thread C → (slack : ℕ) → Completion V → Executor C V → Event C V
  turn_on idle slack c s = thread_starts
  turn_on waiting slack c s = thread_round (timeout (wait_round s).1 + slack)
  turn_on (processing ts) slack c s = thread_begins
  turn_on (executing t ts) slack c s = action_ends c
  turn_on _ slack c s = tick slack

module _ {C V : Type 0} (compare_calls : C → C → Compared) (slack : ℕ → ℕ)
    (results : ℕ → Completion V) where
  -- `n` turns, the last of which has number 0.
  abbrev pub take_turns : (n : ℕ) → Executor C V → Executor C V
  take_turns zero s = s
  take_turns (suc n) s =
      take_turns n (step compare_calls (turn_on s.thread (slack n) (results n) s) s)
