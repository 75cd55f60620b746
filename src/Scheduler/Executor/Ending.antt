-- ===== src/Scheduler/Executor/Ending.antt =====
-- The end of an action in two steps: the result goes into the future, and the `finally` clause runs.
-- What a client does between them could as well come before both.
use mathlib.Core.Path.{fun_ext}
use py_lwip.Prelude.{
  ℕ, ◌≡◌, ◌≢◌, refl, sym, ap, ◌∙◌, Bool, false, List, [], ◌∷◌, ◌==◌, ==_iff, suc, ltb, inl, inr,
  Bool-cases, arith,
}
use py_lwip.Heapq.{Outcome, returned, type_error}
use py_lwip.Scheduler.Task.{Compared, Task, Entry}
use py_lwip.Scheduler.Future.{
  FutureState, pending, running, finished, Completion, cancel, is_cancelled,
}
use py_lwip.Scheduler.Queue.{get_tasks}
use py_lwip.Scheduler.Executor.Ledger.{update_ne}
use py_lwip.Scheduler.Executor.{
  Executor, processing, Status, stopped, stopped_sync, count_down, count_live, update, finish, stop,
  cancel_future, schedule_delayed, schedule_on, accept,
}

ne-false : (f h : ℕ) → f ≢ h → (f == h) ≡ false
ne-false f h other = ground arith

module _ {V : Type 0} where
  update-cancelled :
      (futures : ℕ → FutureState V) (f g : ℕ) (c : Completion V)
      → futures f ≡ running
      → is_cancelled (update futures f (finished c) g) ≡ is_cancelled (futures g)
  update-cancelled futures f g c runs = elim (Bool-cases (f == g)) [
    | inl same ↦ rw (same, sym (ap futures ((==_iff f g).0 same)) ∙ runs) refl
    | inr other ↦ rw other refl
  ]

  update-cancel :
      (f g h : ℕ) (c : Completion V) (futures : ℕ → FutureState V)
      → update (update futures f (finished c)) g (cancel (update futures f (finished c) g)) h
        ≡ update (update futures g (cancel (futures g))) f (finished c) h
  update-cancel f g h c futures = elim (Bool-cases (g == h)) [
    | inl gh ↦
        let fg = ap (λ x. f == x) ((==_iff g h).0 gh) in
        elim (Bool-cases (f == h)) [
          | inl fh ↦ rw (gh, fg, fh) refl
          | inr other ↦ rw (gh, fg, other) refl
        ]
    | inr other ↦ rw other refl
  ]

  update-swap :
      (f g h : ℕ) (a b : FutureState V) (futures : ℕ → FutureState V)
      → f ≢ g
      → update (update futures f a) g b h ≡ update (update futures g b) f a h
  update-swap f g h a b futures other = elim (Bool-cases (g == h)) [
    | inl gh ↦ let fh = ne-false f h (λ e. other (e ∙ sym ((==_iff g h).0 gh))) in rw (gh, fh) refl
    | inr apart ↦ rw apart refl
  ]

module _ {C V : Type 0} where
  -- set_result or set_exception.
  abbrev pub set_outcome : Completion V → Task C → Executor C V → Executor C V
  set_outcome c t s = record s { futures = update s.futures t.future (finished c) }

  -- The `finally` clause, and the loop goes on.
  abbrev pub run_finally : List (Task C) → Executor C V → Executor C V
  run_finally ts s = record s {
    tasks_to_finish = count_down s.status s.tasks_to_finish;
    thread = processing ts;
  }

  finish-halves :
      (c : Completion V) (t : Task C) (ts : List (Task C)) (s : Executor C V)
      → s.futures t.future ≡ running
      → finish c t ts s ≡ run_finally ts (set_outcome c t s)
  unfolding finish
  finish-halves c t ts s runs = rw runs refl

  count_live-update :
      (futures : ℕ → FutureState V) (f : ℕ) (c : Completion V) (ts : List (Task C))
      → futures f ≡ running
      → count_live (update futures f (finished c)) ts ≡ count_live futures ts
  unfolding count_live
  count_live-update futures f c [] runs = refl
  count_live-update futures f c (t ∷ ts) runs =
      let now = update-cancelled futures f t.future c runs in
      let later = count_live-update futures f c ts runs in rw (now, later) refl

  -- A stop between the result and the finally clause is as one before both.
  pub stop-between :
      (sync : Bool) (c : Completion V) (t : Task C) (ts : List (Task C)) (s : Executor C V)
      → s.futures t.future ≡ running
      → run_finally ts (stop sync (set_outcome c t s)) ≡ finish c t ts (stop sync s)
  unfolding stop finish
  stop-between sync c t ts s runs =
      rw (runs, count_live-update s.futures t.future c (get_tasks s.tasks) runs) refl

  cancel-set_outcome :
      (g : ℕ) (c : Completion V) (t : Task C) (s : Executor C V)
      → cancel_future g (set_outcome c t s) ≡ set_outcome c t (cancel_future g s)
  unfolding cancel_future
  cancel-set_outcome g c t s = elim (Bool-cases (ltb g s.next_future)) [
    | inl old ↦ rw old (
        ap (λ fs. record s { futures = fs })
          (fun_ext (λ h. update-cancel t.future g h c s.futures)))
    | inr none_such ↦ rw none_such refl
  ]

  cancel-runs :
      (g f : ℕ) (s : Executor C V) → s.futures f ≡ running → (cancel_future g s).futures f ≡ running
  unfolding cancel_future
  cancel-runs g f s runs = elim (Bool-cases (ltb g s.next_future)) [
    | inl old ↦ rw old (elim (Bool-cases (g == f)) [
      | inl same ↦ rw (same, (==_iff g f).0 same, runs) refl
      | inr other ↦ rw other runs
    ])
    | inr none_such ↦ rw none_such runs
  ]

  -- So is a call of Future.cancel, on any future.
  pub cancel-between :
      (g : ℕ) (c : Completion V) (t : Task C) (ts : List (Task C)) (s : Executor C V)
      → s.futures t.future ≡ running
      → run_finally ts (cancel_future g (set_outcome c t s)) ≡ finish c t ts (cancel_future g s)
  cancel-between g c t ts s runs =
      ap (run_finally ts) (cancel-set_outcome g c t s)
      ∙ sym (finish-halves c t ts (cancel_future g s) (cancel-runs g t.future s runs))

module _ {C V : Type 0} (compare_calls : C → C → Compared) where
  accept-set_outcome :
      (o : Outcome (Entry C)) (c : Completion V) (t : Task C) (s : Executor C V)
      → t.future ≢ s.next_future
      → (accept compare_calls o (set_outcome c t s)).0
        ≡ set_outcome c t (accept compare_calls o s).0
  accept-set_outcome (returned q) c t s other =
      ap (λ fs. record s { tasks = q; futures = fs; next_future = suc s.next_future })
        (fun_ext (λ h. update-swap t.future s.next_future h (finished c) pending s.futures other))
  accept-set_outcome (type_error q) c t s other =
      ap (λ fs. record s { tasks = q; futures = fs; next_future = suc s.next_future })
        (fun_ext (λ h. update-swap t.future s.next_future h (finished c) pending s.futures other))

  accept-runs :
      (o : Outcome (Entry C)) (f : ℕ) (s : Executor C V)
      → s.futures f ≡ running
      → f ≢ s.next_future
      → (accept compare_calls o s).0.futures f ≡ running
  accept-runs (returned q) f s runs other = update_ne s.futures s.next_future pending f other ∙ runs
  accept-runs (type_error q) f s runs other =
      update_ne s.futures s.next_future pending f other ∙ runs

  schedule_on-runs :
      (st : Status) (delay priority : ℕ) (call : C) (f : ℕ) (s : Executor C V)
      → s.futures f ≡ running
      → f ≢ s.next_future
      → (schedule_on compare_calls st delay priority call s).0.futures f ≡ running
  schedule_on-runs Status.running delay priority call f s runs other = accept-runs _ f s runs other
  schedule_on-runs stopped delay priority call f s runs other = runs
  schedule_on-runs stopped_sync delay priority call f s runs other = runs

  schedule-set_outcome :
      (st : Status) (delay priority : ℕ) (call : C) (c : Completion V) (t : Task C)
      (s : Executor C V)
      → t.future ≢ s.next_future
      → (schedule_on compare_calls st delay priority call (set_outcome c t s)).0
        ≡ set_outcome c t (schedule_on compare_calls st delay priority call s).0
  schedule-set_outcome Status.running delay priority call c t s other =
      accept-set_outcome _ c t s other
  schedule-set_outcome stopped delay priority call c t s other = refl
  schedule-set_outcome stopped_sync delay priority call c t s other = refl

  -- So is a call of schedule_delayed.
  pub schedule-between :
      (delay priority : ℕ) (call : C) (c : Completion V) (t : Task C) (ts : List (Task C))
      (s : Executor C V)
      → s.futures t.future ≡ running
      → t.future ≢ s.next_future
      → run_finally ts (schedule_delayed compare_calls delay priority call (set_outcome c t s)).0
        ≡ finish c t ts (schedule_delayed compare_calls delay priority call s).0
  unfolding schedule_delayed
  schedule-between delay priority call c t ts s runs other =
      ap (run_finally ts) (schedule-set_outcome s.status delay priority call c t s other)
      ∙ sym (
          finish-halves c t ts _
            (schedule_on-runs s.status delay priority call t.future s runs other))
