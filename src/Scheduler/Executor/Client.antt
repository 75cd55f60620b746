-- ===== src/Scheduler/Executor/Client.antt =====
-- A tick, and the calls of clients, keep the invariant of a SingleThreadExecutor.
use mathlib.Core.HLevel.{×_prop}
use native.Mathlib.Nat.{ℕ_set}
use mathlib.Core.List.{Perm, forall_mem-cons, perm_middle}
use mathlib.Core.List.Perm
use py_lwip.Prelude.{ℕ, ◌+◌, refl, Bool, ◌∷◌, inl, inr, arith, Bool-cases, ltb}
use py_lwip.Heapq.{Outcome, returned, type_error, items}
use py_lwip.Scheduler.Task.{Compared, Task, Entry, entry}
use py_lwip.Scheduler.Queue.{TaskQueue, get_tasks, schedule_task}
use py_lwip.Scheduler.Queue.Errors.{schedule_task-entries}
use py_lwip.Scheduler.Executor.{
  Executor, running, Status, stopped, stopped_sync, stop, cancel_future, schedule_delayed, new_task,
  with_future, accept, schedule_on,
}
use py_lwip.Scheduler.Executor.Ledger.{Ledger-perm, Ledger-add, Ledger-cancel}
use py_lwip.Scheduler.Executor.Valid.{taken, waiting_tasks, IsValid}

module _ {C V : Type 0} where
  pub tick-IsValid :
      (n : ℕ) (s : Executor C V) → IsValid s → IsValid (record s { clock = s.clock + n })
  tick-IsValid n s v = record {
    keyed = v.keyed;
    due = λ t m. omega (arith, v.due t m);
    ledger = v.ledger;
  }

  pub stop-IsValid : (sync : Bool) (s : Executor C V) → IsValid s → IsValid (stop sync s)
  unfolding stop
  stop-IsValid sync s v = record { keyed = v.keyed; due = v.due; ledger = v.ledger }

  pub cancel_future-IsValid : (f : ℕ) (s : Executor C V) → IsValid s → IsValid (cancel_future f s)
  unfolding cancel_future
  cancel_future-IsValid f s v = elim (Bool-cases (ltb f s.next_future)) [
    | inl old ↦ rw old (record {
      keyed = v.keyed;
      due = v.due;
      ledger = λ a.
          Ledger-cancel (waiting_tasks s) s.futures s.next_future f (ground arith) (v.ledger a);
    })
    | inr new ↦ rw new v
  ]

module _ {C V : Type 0} (compare_calls : C → C → Compared) where
  with_future-IsValid :
      (delay priority : ℕ) (call : C) (s : Executor C V) (q : TaskQueue C)
      → Perm q (entry (new_task delay priority call s) ∷ s.tasks)
      → IsValid s
      → IsValid (with_future s q)
  unfolding entry
  with_future-IsValid delay priority call s q same v =
      let t = new_task delay priority call s in
      record {
        keyed = λ a e m.
            (forall_mem-cons (λ f. ×_prop (ℕ_set _ _) (ℕ_set _ _))).1 ((refl, refl), v.keyed a) e
              ((Perm.mem_iff same).0 m);
        due = v.due;
        ledger = λ a.
            Ledger-perm
              (Perm.symm (
                Perm.trans (Perm.append_left (taken s.thread) (Perm.map (λ e. e.task) same))
                  (perm_middle (taken s.thread) (get_tasks s.tasks))))
              (Ledger-add t (waiting_tasks s) s.futures s.next_future refl (v.ledger a));
      }

  pub schedule_delayed-IsValid :
      (delay priority : ℕ) (call : C) (s : Executor C V)
      → IsValid s
      → IsValid (schedule_delayed compare_calls delay priority call s).0
  unfolding schedule_delayed
  schedule_delayed-IsValid delay priority call s v = on_status s.status
    where
      t : Task C
      t = new_task delay priority call s

      on_outcome :
          (o : Outcome (Entry C))
          → Perm (items o) (entry t ∷ s.tasks)
          → IsValid (accept compare_calls o s).0
      on_outcome (returned q) same = with_future-IsValid delay priority call s q same v
      on_outcome (type_error q) same = with_future-IsValid delay priority call s q same v

      on_status : (st : Status) → IsValid (schedule_on compare_calls st delay priority call s).0
      on_status running =
          on_outcome (schedule_task compare_calls s.tasks t)
            (schedule_task-entries compare_calls s.tasks t)
      on_status stopped = v
      on_status stopped_sync = v
