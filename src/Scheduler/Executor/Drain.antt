-- ===== src/Scheduler/Executor/Drain.antt =====
-- stop(sync=True): what is counted, and what is left when the thread has ended.
use mathlib.Core.Path.{subst}
use mathlib.Core.List.{rel_of_Pairwise-cons}
use py_lwip.Prelude.{
  ℕ, suc, ◌+◌, ◌≤◌, ◌≡◌, ◌≢◌, refl, sym, ap, ◌∙◌, true, not, Option, List, [], ◌∷◌, ◌++◌, inl, inr,
  arith, Bool-cases, if◌then◌else◌, ltb, ◌==◌,
}
use py_lwip.Prelude.Int.{ℤ, pos, negsuc, ◌-ℤ◌}
use py_lwip.Scheduler.Task.{Task}
use py_lwip.Scheduler.Future.{
  FutureState, pending, running, cancelled, cancelled_and_notified, finished, IsWaiting, Completion,
  set_running_or_notify_cancel, is_cancelled,
}
use py_lwip.Scheduler.Queue.{get_tasks}
use py_lwip.Scheduler.Executor.{
  Executor, Thread, idle, waiting, processing, executing, ended, Status, stopped, stopped_sync,
  leave, begin, finish, run_start, stop, cancel_future, begin_on, update, escape, count_live,
  count_down, on_delay,
}
use py_lwip.Scheduler.Executor.Events.{on_start, on_begin, on_end, on_escape}
use py_lwip.Scheduler.Executor.Valid.{IsAlive, IsValid, waiting_tasks}
use py_lwip.Scheduler.Executor.Count.{count_live-cancel, count_live-update}

abbrev pub busy : {C : Type 0} → Thread C → ℕ
busy (executing t ts) = 1
busy _ = 0

-- The tasks that have still to end: those that wait and are not cancelled, and the one that runs.
abbrev pub live : {C V : Type 0} → Executor C V → ℕ
live s = busy s.thread + count_live s.futures (waiting_tasks s)

-- What `_tasks_to_finish` is to the number of these tasks after a stop.
abbrev pub Enough : Status → ℤ → ℕ → Type 0
Enough Status.running n k = ⊥
Enough stopped n k = k ≡ 0
Enough stopped_sync (pos n) k = k ≤ n
Enough stopped_sync (negsuc n) k = ⊥

pub Enough-le : (st : Status) (n : ℤ) (k j : ℕ) → j ≤ k → Enough st n k → Enough st n j
Enough-le Status.running n k j le e = e
Enough-le stopped n k j le e = omega arith
Enough-le stopped_sync (pos n) k j le e = omega arith
Enough-le stopped_sync (negsuc n) k j le e = e

pub Enough-count_down :
    (st : Status) (n : ℤ) (k : ℕ) → Enough st n (suc k) → Enough st (count_down st n) k
unfolding ◌-ℤ◌
Enough-count_down Status.running n k e = e
Enough-count_down stopped n k e = absurd (omega arith)
Enough-count_down stopped_sync (pos n) k e = ground arith
Enough-count_down stopped_sync (negsuc n) k e = elim e [ ]

stop-Enough : (n k : ℕ) → k ≡ n → Enough (if not (n == 0) then stopped_sync else stopped) (pos n) k
stop-Enough n k same = elim (Bool-cases (n == 0)) [
  | inl e ↦ rw e (ground arith)
  | inr e ↦ rw e (omega arith)
]

-- After a stop the thread has started, and it has ended only with the status Stopped.
abbrev pub Fits : {C : Type 0} → Thread C → Status → Type 0
Fits idle st = ⊥
Fits ended st = st ≡ stopped
Fits _ st = Unit

pub on_delay-ne-leave : (delay : Option ℤ) → on_delay delay ≢ leave
on_delay-ne-leave delay e = ground arith

abbrev pub Draining : {C V : Type 0} → Executor C V → Type 0
Draining s = IsAlive s.thread → Fits s.thread s.status × Enough s.status s.tasks_to_finish (live s)

module _ {C V : Type 0} where
  pub live-waiting :
      (s : Executor C V) → s.thread ≡ waiting → live s ≡ count_live s.futures (get_tasks s.tasks)
  live-waiting s at = rw at (omega arith)

  pub stop-Draining : (s : Executor C V) → s.thread ≡ waiting → Draining (stop true s)
  unfolding stop
  stop-Draining s at a = (
    subst (λ th. Fits th (stop true s).status) (sym at) tt,
    stop-Enough (count_live s.futures (get_tasks s.tasks)) (live s) (live-waiting s at),
  )

  pub cancel_future-Draining :
      (f : ℕ) (s : Executor C V) → Draining s → Draining (cancel_future f s)
  unfolding cancel_future
  cancel_future-Draining f s d = elim (Bool-cases (ltb f s.next_future)) [
    | inl old ↦ rw old (λ a.
        let (started, enough) = d a in
        (
          started,
          Enough-le s.status s.tasks_to_finish (live s) _
              (omega (arith, count_live-cancel s.futures f (waiting_tasks s))) enough,
        ))
    | inr new ↦ rw new d
  ]

  -- A task that is taken up counts as much as it did.
  live-begin :
      (s : Executor C V) (t : Task C) (ts : List (Task C)) (st st' : FutureState V)
      → s.futures t.future ≡ st
      → IsValid s
      → s.thread ≡ processing (t ∷ ts)
      → (if is_cancelled st then 0 else 1)
          + count_live (update s.futures t.future st') (ts ++ get_tasks s.tasks)
        ≤ live s
  unfolding count_live
  live-begin s t ts st st' is v at =
      let distinct = (rw at at (v.ledger (rw at tt))).distinct in
      let same =
        count_live-update s.futures t.future st' (ts ++ get_tasks s.tasks)
          (λ u m e. rel_of_Pairwise-cons distinct m (sym e)) in
      rw (at, is) (omega (arith, same))

  begin_on-Draining :
      (s : Executor C V) (t : Task C) (ts : List (Task C)) (st : FutureState V)
      → s.futures t.future ≡ st
      → IsValid s
      → s.thread ≡ processing (t ∷ ts)
      → Draining s
      → Draining (begin_on (set_running_or_notify_cancel st) t ts s)
  begin_on-Draining s t ts pending is v at d a =
      let (started, enough) = d (rw at tt) in
      (
        tt,
        Enough-le s.status s.tasks_to_finish (live s) _ (live-begin s t ts pending running is v at)
            enough,
      )
  begin_on-Draining s t ts cancelled is v at d a =
      let (started, enough) = d (rw at tt) in
      (
        tt,
        Enough-le s.status s.tasks_to_finish (live s) _
            (live-begin s t ts cancelled cancelled_and_notified is v at) enough,
      )
  begin_on-Draining s t ts running is v at d a = elim a [ ]
  begin_on-Draining s t ts cancelled_and_notified is v at d a = elim a [ ]
  begin_on-Draining s t ts (finished c) is v at d a = elim a [ ]

  pub on_begin-Draining :
      (s : Executor C V) (th : Thread C)
      → IsValid s
      → s.thread ≡ th
      → Draining s
      → Draining (on_begin th s)
  unfolding begin
  on_begin-Draining s (processing []) v at d a =
      let (started, enough) = d (rw at tt) in (tt, rw at at enough)
  on_begin-Draining s (processing (t ∷ ts)) v at d a =
      begin_on-Draining s t ts (s.futures t.future) refl v at d a
  on_begin-Draining s _ v at d a = d a

  pub on_end-Draining :
      (c : Completion V) (s : Executor C V) (th : Thread C)
      → IsValid s
      → s.thread ≡ th
      → Draining s
      → Draining (on_end c th s)
  unfolding finish
  on_end-Draining c s (executing t ts) v at d =
      let l = rw at at (v.ledger (rw at tt)) in
      let (started, enough) = d (rw at tt) in
      let now = l.current_runs t.future refl in
      let same =
        count_live-update s.futures t.future (finished c) (ts ++ get_tasks s.tasks)
          (λ u m e. subst IsWaiting (ap s.futures e ∙ now) (l.waits u m)) in
      rw now (λ a. (
        tt,
        Enough-count_down s.status s.tasks_to_finish _
            (subst (Enough s.status s.tasks_to_finish) (rw at (omega (arith, same))) enough),
      ))
  on_end-Draining c s _ v at d = d

  pub on_start-Draining :
      (s : Executor C V) (th : Thread C) → s.thread ≡ th → Draining s → Draining (on_start th s)
  unfolding run_start
  on_start-Draining s idle at d a = elim (rw at at (d (rw at tt)).0) [ ]
  on_start-Draining s _ at d a = d a

  pub on_escape-Draining :
      (s : Executor C V) (th : Thread C) → Draining s → Draining (on_escape th s)
  unfolding escape
  on_escape-Draining s (executing t ts) d a = elim a [ ]
  on_escape-Draining s _ d a = d a
