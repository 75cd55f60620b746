-- ===== src/Scheduler/Executor/Turns/Rounds.antt =====
-- What a round of the thread does after a stop, and that the work that is left gets less.
use mathlib.Core.List.{mem-cons_self}
use mathlib.Core.List.Perm
use mathlib.Core.Path.{subst}
use py_lwip.Prelude.{
  ℕ, suc, ◌+◌, ◌-◌, ◌*◌, ◌≤◌, ◌<◌, ◌≡◌, ◌≢◌, refl, sym, ap, Bool, true, false, ◌||◌, some, List, [],
  ◌∷◌, length, length-append, length-perm, leb, if◌then◌else◌, inl, inr, Bool-cases, arith,
}
use py_lwip.Prelude.Int.{pos, sub_ℕ}
use py_lwip.Scheduler.Task.{Compared, Task, Entry}
use py_lwip.Scheduler.Queue.{TaskQueue, get_tasks, is_empty, get_time_till_next_task, IsQueue}
use py_lwip.Scheduler.Queue.Due.{Due}
use py_lwip.Scheduler.Executor.{
  Executor, Thread, waiting, processing, executing, Status, running, stopped, stopped_sync,
  Decision, leave, process, wait, wait_round, wait_on, on_delay, is_zero,
}

-- Whether the first entry of the queue is not due.
abbrev pub early : {C : Type 0} → TaskQueue C → (clock : ℕ) → ℕ
early [] clock = 0
early (e ∷ q) clock = if leb e.time clock then 0 else 1

pub early-le : {C : Type 0} → (q : TaskQueue C) (clock : ℕ) → early q clock ≤ 1
early-le [] clock = omega arith
early-le (e ∷ q) clock = ground arith

-- A bound for the turns that the thread still takes: for a task in the queue at most a wait, a
-- round that takes it, its begin, its end, and the way back to the loop.
abbrev pub work_on : {C : Type 0} → Thread C → TaskQueue C → (clock : ℕ) → ℕ
work_on waiting q clock = 5 * length q + early q clock + 1
work_on (processing ts) q clock = 5 * length q + 2 * length ts + 3
work_on (executing t ts) q clock = 5 * length q + 2 * length ts + 4
work_on _ q clock = 0

abbrev pub work : {C V : Type 0} → Executor C V → ℕ
work s = work_on s.thread s.tasks s.clock

-- What a round after a stop comes to.
pub data Round {C : Type 0} (q : TaskQueue C) (clock : ℕ) : Status × Decision → Type 0 where
  leaves : (st : Status) → Round q clock (st, leave)
  processes :
      (e : Entry C) (rest : TaskQueue C)
      → q ≡ e ∷ rest
      → e.time ≤ clock
      → (st : Status) → Round q clock (st, process)
  waits :
      (e : Entry C) (rest : TaskQueue C)
      → q ≡ e ∷ rest
      → clock < e.time
      → (st : Status) → Round q clock (st, wait (some (pos (e.time - clock))))

on_delay-now : (n clock : ℕ) → n ≤ clock → on_delay (some (sub_ℕ n clock)) ≡ process
on_delay-now n clock due = ground arith

on_delay-later :
    (n clock : ℕ) → clock < n → on_delay (some (sub_ℕ n clock)) ≡ wait (some (pos (n - clock)))
on_delay-later n clock later = ground arith

module _ {C : Type 0} where
  Round-next :
      (e : Entry C) (q : TaskQueue C) (clock : ℕ) (st : Status)
      → Round (e ∷ q) clock (st, on_delay (some (sub_ℕ e.time clock)))
  Round-next e q clock st = elim (Bool-cases (leb e.time clock)) [
    | inl now ↦
        subst (λ d. Round (e ∷ q) clock (st, d)) (sym (on_delay-now e.time clock (ground arith)))
          (processes e q refl (ground arith) st)
    | inr later ↦
        subst (λ d. Round (e ∷ q) clock (st, d)) (sym (on_delay-later e.time clock (ground arith)))
          (waits e q refl (ground arith) st)
  ]

  pub Round-wait_on :
      (q : TaskQueue C) (clock : ℕ) (st : Status) (nothing : Bool)
      → st ≢ running
      → Round q clock
          (wait_on st (is_empty q || nothing) (on_delay (get_time_till_next_task q clock)))
  unfolding is_empty get_time_till_next_task
  Round-wait_on q clock running nothing stops = absurd (stops refl)
  Round-wait_on q clock stopped nothing stops = leaves stopped
  Round-wait_on [] clock stopped_sync nothing stops = leaves stopped
  Round-wait_on (e ∷ q) clock stopped_sync true stops = leaves stopped
  Round-wait_on (e ∷ q) clock stopped_sync false stops = Round-next e q clock stopped_sync

module _ {C V : Type 0} where
  pub wait_round-Round :
      (s : Executor C V) → s.status ≢ running → Round s.tasks s.clock (wait_round s)
  unfolding wait_round
  wait_round-Round s stops =
      Round-wait_on s.tasks s.clock s.status (is_zero s.tasks_to_finish) stops

module _ {C : Type 0} (compare_calls : C → C → Compared) where
  length-get_tasks : (q : TaskQueue C) → length (get_tasks q) ≡ length q
  length-get_tasks [] = refl
  length-get_tasks (e ∷ q) = ap suc (length-get_tasks q)

  -- A round that finds the first entry due takes at least one task.
  takes_some :
      (e : Entry C) (rest : TaskQueue C) (clock : ℕ) (tasks : List (Task C)) (q' : TaskQueue C)
      → IsQueue compare_calls (e ∷ rest)
      → e.time ≤ clock
      → Due compare_calls clock (e ∷ rest) tasks q'
      → 1 ≤ length tasks
  takes_some e rest clock (t ∷ tasks) q' valid due out = omega arith
  takes_some e rest clock [] q' valid due out =
      let key = valid.keyed e mem-cons_self in
      absurd (omega (arith, out.later e.task ((Perm.mem_iff out.same).1 mem-cons_self)))

  pub take-work :
      (e : Entry C) (rest : TaskQueue C) (clock : ℕ) (tasks : List (Task C)) (q' : TaskQueue C)
      → IsQueue compare_calls (e ∷ rest)
      → e.time ≤ clock
      → Due compare_calls clock (e ∷ rest) tasks q'
      → work_on (processing tasks) q' clock ≤ 5 * length (e ∷ rest)
  take-work e rest clock tasks q' valid due out =
      let same = length-perm out.same in
      omega (
        arith,
        takes_some e rest clock tasks q' valid due out,
        same,
        length-append tasks (get_tasks q'),
        length-get_tasks q',
        length-get_tasks rest,
      )
