-- ===== src/Scheduler/Executor/InOrder/Steps.antt =====
-- Every step of a SingleThreadExecutor keeps the order of its tasks, so that the thread takes them
-- up in the order of their times.
use mathlib.Core.List.{
  Mem, Pairwise, mem-append_left, mem-append_right, not-mem-nil, mem-cons_of_mem,
}
use mathlib.Core.List.Pairwise
use native.Mathlib.Nat.{le_refl}
use py_lwip.Prelude.{
  Option, none, some, Bool, true, false, inl, inr, ltb, Bool-cases, if◌then◌else◌, ℕ, ◌+◌, ◌≤◌, ◌≡◌,
  refl, List, [], ◌∷◌, ◌++◌, arith,
}
use py_lwip.Scheduler.Task.{Compared, Task}
use py_lwip.Scheduler.Queue.{Popped, popped, pop_error, get_tasks, pop_tasks_till_timestamp}
use py_lwip.Scheduler.Queue.Due.{pop_tasks_till_timestamp-Due}
use py_lwip.Prelude.Int.{pos}
use py_lwip.Scheduler.Future.{
  FutureState, Completion, is_cancelled, set_running_or_notify_cancel, complete,
}
use py_lwip.Scheduler.Executor.{
  begin_on, finish_on, count_down, update, Executor, Thread, running, idle, waiting, ended, died,
  processing, executing, run_start, stop, cancel_future, finish, escape, begin, take, on_decision,
  Decision, leave, process, wait, wait_round, run_round,
}
use py_lwip.Scheduler.Executor.Events.{
  Event, tick, schedule_call, stop_call, cancel_call, thread_starts, thread_round, thread_begins,
  action_ends, action_escapes, step, on_start, on_begin, on_end, on_escape, on_round,
}
use py_lwip.Scheduler.Executor.Valid.{taken, IsAlive}
use py_lwip.Scheduler.Executor.InOrder.{
  TimeLe, AllFrom, AllFrom-perm, IsAccepted, InOrder, Keeps, schedule_delayed-Keeps,
}

module _ {C V : Type 0} (compare_calls : C → C → Compared) where
  -- The thread moves to a state in which it has the tasks that it had, or the later of them.
  moves-Keeps :
      (s : Executor C V) (th : Thread C)
      → InOrder compare_calls s
      → (IsAlive th → IsAlive s.thread)
      → Pairwise TimeLe (taken th)
      → ((t : Task C) → Mem t (taken th) → Mem t (taken s.thread))
      → Keeps compare_calls s (record s { thread = th })
  moves-Keeps s th v alive sorted inside = (
    record {
      queue = λ a. v.queue (alive a);
      sorted = sorted;
      due = λ t m. v.due t (inside t m);
      first = λ t m. v.first t (inside t m);
    },
    λ b n. record {
      now = n.now;
      taken_tasks = λ t m. n.taken_tasks t (inside t m);
      queued = λ a. n.queued (alive a);
    },
  )

  -- What the proofs look at is the same.
  same-Keeps :
      (s s' : Executor C V)
      → s'.tasks ≡ s.tasks
      → s'.thread ≡ s.thread
      → s.clock ≤ s'.clock
      → InOrder compare_calls s
      → Keeps compare_calls s s'
  same-Keeps s s' same_tasks same_thread le v = (
    record {
      queue = rw (same_tasks, same_thread) v.queue;
      sorted = rw same_thread v.sorted;
      due = λ t m. omega (arith, v.due t (rw same_thread at m));
      first = rw (same_tasks, same_thread) v.first;
    },
    λ b n. record {
      now = omega (arith, n.now);
      taken_tasks = rw same_thread n.taken_tasks;
      queued = rw (same_tasks, same_thread) n.queued;
    },
  )

  trans-Keeps :
      (s s' s'' : Executor C V)
      → Keeps compare_calls s s'
      → (InOrder compare_calls s' → Keeps compare_calls s' s'')
      → Keeps compare_calls s s''
  trans-Keeps s s' s'' (v, keep) next = let (w, keep') = next v in (w, λ b n. keep' b (keep b n))

  take-Keeps :
      (s : Executor C V) (o : Popped C)
      → s.thread ≡ waiting
      → InOrder compare_calls s
      → pop_tasks_till_timestamp compare_calls s.tasks s.clock ≡ o
      → Keeps compare_calls s (take compare_calls o s)
  take-Keeps s (pop_error q) at v r = (
    record {
      queue = λ a. elim a [ ];
      sorted = Pairwise.nil;
      due = λ t m. absurd (not-mem-nil m);
      first = λ t m. absurd (not-mem-nil m);
    },
    λ b n. record {
      now = n.now;
      taken_tasks = λ t m. absurd (not-mem-nil m);
      queued = λ a. elim a [ ];
    },
  )
  take-Keeps s (popped tasks q) at v r =
      let out =
        pop_tasks_till_timestamp-Due compare_calls s.tasks s.clock tasks q (v.queue (rw at tt)) r in
      let all : (b : ℕ) → AllFrom b (get_tasks s.tasks) → AllFrom b (tasks ++ get_tasks q) =
        λ b old. AllFrom-perm b (tasks ++ get_tasks q) (get_tasks s.tasks) out.same old in
      (
        record {
          queue = λ a. out.queue;
          sorted = Pairwise.imp (λ t u le. le.0) out.sorted;
          due = out.due;
          first = λ t m u later. omega (arith, out.due t m, out.later u later);
        },
        λ b n. record {
          now = n.now;
          taken_tasks = λ t m. all b (n.queued (rw at tt)) t (mem-append_left (get_tasks q) m);
          queued = λ a t m. all b (n.queued (rw at tt)) t (mem-append_right tasks m);
        },
      )

  run_round-Keeps :
      (elapsed : ℕ) (s : Executor C V)
      → s.thread ≡ waiting
      → InOrder compare_calls s
      → Keeps compare_calls s (run_round compare_calls elapsed s)
  unfolding run_round
  run_round-Keeps elapsed s at v =
      trans-Keeps s later (on_decision compare_calls (wait_round s).1 later)
        (same-Keeps s later refl refl (omega arith) v) (on_choice (wait_round s).1)
    where
      later : Executor C V
      later = record s { status = (wait_round s).0; clock = s.clock + elapsed }

      on_choice :
          (d : Decision)
          → InOrder compare_calls later
          → Keeps compare_calls later (on_decision compare_calls d later)
      on_choice leave v =
          moves-Keeps later ended v (λ a. rw at tt) Pairwise.nil (λ t m. absurd (not-mem-nil m))
      on_choice process v = take-Keeps later _ at v refl
      on_choice (wait timeout) v = (v, λ b n. n)

  -- The thread leaves a task behind, with or without a change of what no proof here looks at.
  drops-Keeps :
      (s s' : Executor C V) (th : Thread C)
      → s'.tasks ≡ s.tasks
      → s'.thread ≡ s.thread
      → s'.clock ≡ s.clock
      → IsAlive s.thread
      → Pairwise TimeLe (taken th)
      → ((t : Task C) → Mem t (taken th) → Mem t (taken s.thread))
      → InOrder compare_calls s
      → Keeps compare_calls s (record s' { thread = th })
  drops-Keeps s s' th same_tasks same_thread same_clock alive sorted inside v =
      trans-Keeps s s' (record s' { thread = th })
        (same-Keeps s s' same_tasks same_thread (omega arith) v)
        λ w. moves-Keeps s' th w (λ a. rw same_thread alive) sorted (rw same_thread inside)

  begin-Keeps :
      (s : Executor C V) (t : Task C) (ts : List (Task C))
      → s.thread ≡ processing (t ∷ ts)
      → InOrder compare_calls s
      → Keeps compare_calls s (begin t ts s)
  unfolding begin
  begin-Keeps s t ts at v = on_state (set_running_or_notify_cancel (s.futures t.future))
    where
      alive : IsAlive s.thread
      alive = rw at tt

      inside : (u : Task C) → Mem u ts → Mem u (taken s.thread)
      inside u m = rw at (mem-cons_of_mem t m)

      go_on :
          (st : FutureState V) (cancelled : Bool)
          → Keeps compare_calls s (record s {
            futures = update s.futures t.future st;
            thread = if cancelled then processing ts else executing t ts;
          })
      go_on st true =
          drops-Keeps s (record s { futures = update s.futures t.future st }) (processing ts) refl
            refl refl alive (Pairwise.of_cons (rw at at v.sorted)) inside v
      go_on st false =
          drops-Keeps s (record s { futures = update s.futures t.future st }) (executing t ts) refl
            refl refl alive (Pairwise.of_cons (rw at at v.sorted)) inside v

      on_state : (o : Option (FutureState V)) → Keeps compare_calls s (begin_on o t ts s)
      on_state none =
          drops-Keeps s s died refl refl refl alive Pairwise.nil (λ u m. absurd (not-mem-nil m)) v
      on_state (some st) = go_on st (is_cancelled st)

  finish-Keeps :
      (c : Completion V) (s : Executor C V) (t : Task C) (ts : List (Task C))
      → s.thread ≡ executing t ts
      → InOrder compare_calls s
      → Keeps compare_calls s (finish c t ts s)
  unfolding finish
  finish-Keeps c s t ts at v = on_state (complete c (s.futures t.future))
    where
      on_state : (o : Option (FutureState V)) → Keeps compare_calls s (finish_on o t ts s)
      on_state none =
          drops-Keeps s (record s { tasks_to_finish = count_down s.status s.tasks_to_finish }) died
            refl refl refl (rw at tt) Pairwise.nil (λ u m. absurd (not-mem-nil m)) v
      on_state (some st) =
          drops-Keeps s
            (record s {
              futures = update s.futures t.future st;
              tasks_to_finish = count_down s.status s.tasks_to_finish;
            })
            (processing ts) refl refl refl (rw at tt) (rw at at v.sorted) (λ u m. rw at m) v

  ends-Keeps :
      (c : Completion V) (th : Thread C) (s : Executor C V)
      → s.thread ≡ th
      → InOrder compare_calls s
      → Keeps compare_calls s (on_end c th s)
  ends-Keeps c (executing t ts) s at v = finish-Keeps c s t ts at v
  ends-Keeps c _ s at v = (v, λ b n. n)

  begins-Keeps :
      (th : Thread C) (s : Executor C V)
      → s.thread ≡ th
      → InOrder compare_calls s
      → Keeps compare_calls s (on_begin th s)
  begins-Keeps (processing []) s at v =
      drops-Keeps s s waiting refl refl refl (rw at tt) Pairwise.nil (λ u m. absurd (not-mem-nil m))
        v
  begins-Keeps (processing (t ∷ ts)) s at v = begin-Keeps s t ts at v
  begins-Keeps _ s at v = (v, λ b n. n)

  starts-Keeps :
      (th : Thread C) (s : Executor C V)
      → s.thread ≡ th
      → InOrder compare_calls s
      → Keeps compare_calls s (on_start th s)
  unfolding run_start
  starts-Keeps idle s at v =
      drops-Keeps s (record s { tasks_to_finish = pos 0; status = running }) waiting refl refl refl
        (rw at tt) Pairwise.nil (λ u m. absurd (not-mem-nil m)) v
  starts-Keeps _ s at v = (v, λ b n. n)

  escapes-Keeps :
      (th : Thread C) (s : Executor C V)
      → s.thread ≡ th
      → InOrder compare_calls s
      → Keeps compare_calls s (on_escape th s)
  unfolding escape
  escapes-Keeps (executing t ts) s at v =
      drops-Keeps s (record s { tasks_to_finish = count_down s.status s.tasks_to_finish }) died refl
        refl refl (rw at tt) Pairwise.nil (λ u m. absurd (not-mem-nil m)) v
  escapes-Keeps _ s at v = (v, λ b n. n)

  rounds-Keeps :
      (elapsed : ℕ) (th : Thread C) (s : Executor C V)
      → s.thread ≡ th
      → InOrder compare_calls s
      → Keeps compare_calls s (on_round compare_calls elapsed th s)
  rounds-Keeps elapsed waiting s at v = run_round-Keeps elapsed s at v
  rounds-Keeps elapsed _ s at v = (v, λ b n. n)

  cancel_future-Keeps :
      (f : ℕ) (s : Executor C V)
      → InOrder compare_calls s
      → Keeps compare_calls s (cancel_future f s)
  unfolding cancel_future
  cancel_future-Keeps f s v = elim (Bool-cases (ltb f s.next_future)) [
    | inl old ↦ rw old (same-Keeps s _ refl refl (le_refl _) v)
    | inr new ↦ rw new (v, λ b n. n)
  ]

  pub step-Keeps :
      (e : Event C V) (s : Executor C V)
      → IsAccepted compare_calls e s
      → InOrder compare_calls s
      → Keeps compare_calls s (step compare_calls e s)
  unfolding stop
  step-Keeps (tick n) s ok v = same-Keeps s _ refl refl (omega arith) v
  step-Keeps (schedule_call delay priority call) s ok v =
      schedule_delayed-Keeps compare_calls delay priority call s ok v
  step-Keeps (stop_call sync) s ok v = same-Keeps s _ refl refl (le_refl _) v
  step-Keeps (cancel_call f) s ok v = cancel_future-Keeps f s v
  step-Keeps thread_starts s ok v = starts-Keeps s.thread s refl v
  step-Keeps (thread_round elapsed) s ok v = rounds-Keeps elapsed s.thread s refl v
  step-Keeps thread_begins s ok v = begins-Keeps s.thread s refl v
  step-Keeps (action_ends c) s ok v = ends-Keeps c s.thread s refl v
  step-Keeps action_escapes s ok v = escapes-Keeps s.thread s refl v
