-- ===== src/Scheduler/Executor/Work.antt =====
-- The steps of the thread keep the invariant of a SingleThreadExecutor.
use mathlib.Core.List.{mem-cons_of_mem, mem-cons_self, not-mem-nil}
use mathlib.Core.List.Perm
use py_lwip.Prelude.{ℕ, ◌+◌, ◌≡◌, refl, sym, none, some, some-injective, List, ◌∷◌, ◌++◌, arith}
use py_lwip.Scheduler.Task.{Compared, Task}
use py_lwip.Scheduler.Future.{
  FutureState, pending, cancelled, cancelled_and_notified, finished, Completion, IsWaiting,
  set_running_or_notify_cancel,
}
use py_lwip.Scheduler.Queue.{Popped, popped, pop_error, get_tasks, pop_tasks_till_timestamp}
use py_lwip.Scheduler.Queue.Keeps.{pop_tasks_till_timestamp-Taken}
use py_lwip.Scheduler.Executor.{
  Executor, idle, waiting, processing, executing, Decision, leave, process, wait, run_start, begin,
  finish, escape, run_round, wait_round, take, on_decision, begin_on,
}
use py_lwip.Scheduler.Executor.Ledger.{Ledger-perm, Ledger-leave, Ledger-settle}
use py_lwip.Scheduler.Executor.Valid.{IsValid}

module _ {C V : Type 0} (compare_calls : C → C → Compared) where
  take-IsValid :
      (s : Executor C V) (o : Popped C)
      → s.thread ≡ waiting
      → IsValid s
      → pop_tasks_till_timestamp compare_calls s.tasks s.clock ≡ o
      → IsValid (take compare_calls o s)
  take-IsValid s (pop_error q) at v r = record {
    keyed = λ a. elim a [ ];
    due = λ t m. absurd (not-mem-nil m);
    ledger = λ a. elim a [ ];
  }
  take-IsValid s (popped tasks q) at v r =
      let out =
        pop_tasks_till_timestamp-Taken compare_calls s.tasks s.clock tasks q (v.keyed (rw at tt))
          r in
      record {
        keyed = λ a. out.keyed;
        due = out.due;
        ledger = λ a. Ledger-perm (Perm.symm out.same) (rw at at (v.ledger (rw at tt)));
      }

  pub run_round-IsValid :
      (elapsed : ℕ) (s : Executor C V)
      → s.thread ≡ waiting
      → IsValid s
      → IsValid (run_round compare_calls elapsed s)
  unfolding run_round
  run_round-IsValid elapsed s at v = on_choice (wait_round s).1
    where
      later : Executor C V
      later = record s { status = (wait_round s).0; clock = s.clock + elapsed }

      later-IsValid : IsValid later
      later-IsValid = record {
        keyed = v.keyed;
        due = λ t m. omega (arith, v.due t m);
        ledger = v.ledger;
      }

      on_choice : (d : Decision) → IsValid (on_decision compare_calls d later)
      on_choice leave = record {
        keyed = λ a. v.keyed (rw at tt);
        due = λ t m. absurd (not-mem-nil m);
        ledger = λ a. rw at at (v.ledger (rw at tt));
      }
      on_choice process = take-IsValid later _ at later-IsValid refl
      on_choice (wait timeout) = later-IsValid

module _ {C V : Type 0} (s : Executor C V) (t : Task C) (ts : List (Task C)) where
  -- A task that the thread takes up waits: its future is pending or cancelled.
  begin_on-IsValid :
      (st : FutureState V)
      → s.futures t.future ≡ st
      → IsWaiting st
      → s.thread ≡ processing (t ∷ ts)
      → IsValid s
      → IsValid (begin_on (set_running_or_notify_cancel st) t ts s)
  begin_on-IsValid pending is w at v = record {
    keyed = λ a. v.keyed (rw at tt);
    due = rw at at v.due;
    ledger = λ a.
        Ledger-leave t (ts ++ get_tasks s.tasks) s.futures s.next_future FutureState.running
          (rw at at (v.ledger (rw at tt))) (some t.future) (λ w. w) (λ e. refl)
          (λ f e. (sym (some-injective t.future f e), refl));
  }
  begin_on-IsValid cancelled is w at v = record {
    keyed = λ a. v.keyed (rw at tt);
    due = λ u m. (rw at at v.due) u (mem-cons_of_mem t m);
    ledger = λ a.
        Ledger-leave t (ts ++ get_tasks s.tasks) s.futures s.next_future cancelled_and_notified
          (rw at at (v.ledger (rw at tt))) none (λ w. w) (λ e. cc) (λ f e. absurd (cc));
  }
  begin_on-IsValid FutureState.running is w at v = elim w [ ]
  begin_on-IsValid cancelled_and_notified is w at v = elim w [ ]
  begin_on-IsValid (finished c) is w at v = elim w [ ]

  pub begin-IsValid : s.thread ≡ processing (t ∷ ts) → IsValid s → IsValid (begin t ts s)
  unfolding begin
  begin-IsValid at v =
      begin_on-IsValid (s.futures t.future) refl
        ((rw at at (v.ledger (rw at tt))).waits t mem-cons_self) at v

  pub finish-IsValid :
      (c : Completion V) → s.thread ≡ executing t ts → IsValid s → IsValid (finish c t ts s)
  unfolding finish
  finish-IsValid c at v =
      let l = rw at at (v.ledger (rw at tt)) in
      rw (l.current_runs t.future refl) (record {
        keyed = λ a. v.keyed (rw at tt);
        due = λ u m. (rw at at v.due) u (mem-cons_of_mem t m);
        ledger = λ a.
            Ledger-settle (ts ++ get_tasks s.tasks) s.futures s.next_future t.future (finished c)
              (λ w. w) (λ e. cc) l;
      })

  pub escape-IsValid : IsValid s → IsValid (escape s)
  unfolding escape
  escape-IsValid v = record {
    keyed = λ a. elim a [ ];
    due = λ u m. absurd (not-mem-nil m);
    ledger = λ a. elim a [ ];
  }

module _ {C V : Type 0} where
  pub run_start-IsValid : (s : Executor C V) → s.thread ≡ idle → IsValid s → IsValid (run_start s)
  unfolding run_start
  run_start-IsValid s at v = record {
    keyed = λ a. v.keyed (rw at tt);
    due = λ t m. absurd (not-mem-nil m);
    ledger = λ a. rw at at (v.ledger (rw at tt));
  }
