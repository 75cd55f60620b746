-- ===== src/Scheduler/Executor/Ledger.antt =====
-- The futures of an executor against the tasks that wait and the task that runs.
use mathlib.Core.Path.{subst}
use mathlib.Core.HLevel.{⊥_prop, Π_prop}
use native.Mathlib.Bridge.{le_prop}
use mathlib.Core.Logic.{∥∥₁_prop}
use mathlib.Core.Logic.Or
use mathlib.Core.List.{
  Mem, Memᴰ, Perm, Pairwise, mem-cons, mem-cons_of_mem, mem-cons_self, forall_mem-cons,
  rel_of_Pairwise-cons,
}
use mathlib.Core.List.Perm
use mathlib.Core.List.Pairwise
use py_lwip.Prelude.{
  ℕ, suc, ◌≤◌, ◌<◌, ◌≡◌, ◌≢◌, ◌↔◌, refl, sym, ap, ◌∙◌, Option, none, some, some-injective, List,
  ◌∷◌, map, arith, ℕ_discrete,
}
use py_lwip.Scheduler.Task.{Task}
use py_lwip.Scheduler.Future.{FutureState, pending, running, cancel, IsWaiting, IsWaiting-prop}
use py_lwip.Scheduler.Executor.{update}

-- Every future that waits is that of exactly one task that waits, and at most one future runs.
pub record Ledger {C V : Type 0} (ts : List (Task C)) (futures : ℕ → FutureState V) (next : ℕ)
    (current : Option ℕ) : Type 0 where
  pub distinct : Pairwise (λ t u. t.future ≢ u.future) ts
  pub below : (t : Task C) → Mem t ts → t.future < next
  pub waits : (t : Task C) → Mem t ts → IsWaiting (futures t.future)
  pub fresh : (f : ℕ) → next ≤ f → futures f ≡ pending
  pub kept : (f : ℕ) → f < next → IsWaiting (futures f) → Mem f (map (λ t. t.future) ts)
  pub runs : (f : ℕ) → futures f ≡ running → current ≡ some f
  pub current_runs : (f : ℕ) → current ≡ some f → futures f ≡ running

pub update_self : {A : Type 0} (g : ℕ → A) (i : ℕ) (a : A) → update g i a i ≡ a
update_self g i a = ground arith

pub update_ne : {A : Type 0} (g : ℕ → A) (i : ℕ) (a : A) (j : ℕ) → j ≢ i → update g i a j ≡ g j
update_ne g i a j other = ground arith

cancel-IsWaiting : {V : Type 0} (st : FutureState V) → IsWaiting (cancel st) ↔ IsWaiting st
cancel-IsWaiting pending = ((λ w. w), (λ w. w))
cancel-IsWaiting st = ((λ w. w), (λ w. w))

module _ {C V : Type 0} where
  pub Ledger-perm :
      {ts ts' : List (Task C)} {futures : ℕ → FutureState V} {next : ℕ} {current : Option ℕ}
      → Perm ts ts'
      → Ledger ts futures next current
      → Ledger ts' futures next current
  Ledger-perm p l = record {
    distinct = Perm.pairwise (λ t u. Π_prop λ e. ⊥_prop) (λ t u ne e. ne (sym e)) p l.distinct;
    below = λ t m. l.below t ((Perm.mem_iff p).1 m);
    waits = λ t m. l.waits t ((Perm.mem_iff p).1 m);
    fresh = l.fresh;
    kept = λ f old w. (Perm.mem_iff (Perm.map (λ t. t.future) p)).0 (l.kept f old w);
    runs = l.runs;
    current_runs = l.current_runs;
  }

  module _ (t : Task C) (ts : List (Task C)) (futures : ℕ → FutureState V) (next : ℕ) where
    pub Ledger-add :
        {current : Option ℕ}
        → t.future ≡ next
        → Ledger ts futures next current
        → Ledger (t ∷ ts) (update futures next pending) (suc next) current
    Ledger-add is_new l = record {
      distinct = Pairwise.cons (λ u m e. omega (arith, l.below u m)) l.distinct;
      below = (forall_mem-cons (λ u. le_prop)).1 (omega arith, λ u m. omega (arith, l.below u m));
      waits =
          (forall_mem-cons (λ u. IsWaiting-prop _)).1
            (ground arith, λ u m. ground (arith, l.below u m, l.waits u m));
      fresh = λ f later. ground (arith, l.fresh f);
      kept = λ f old w. elim (ℕ_discrete f next) [
        | yes same ↦ ∣ Memᴰ.head (same ∙ sym is_new) ∣₁
        | no other ↦
            mem-cons_of_mem t.future
              (l.kept f (omega arith) (subst IsWaiting (update_ne futures next pending f other) w))
      ];
      runs = λ f r. ground (arith, l.runs f);
      current_runs = λ f r. ground (arith, l.current_runs f r, l.fresh f);
    }

    -- The first task leaves the list, with a state for its future that waits no more.
    module _ (st : FutureState V) (l : Ledger (t ∷ ts) futures next none) where
      not_other : (u : Task C) → Mem u ts → u.future ≢ t.future
      not_other u m e = rel_of_Pairwise-cons l.distinct m (sym e)

      pub Ledger-leave :
          (current : Option ℕ)
          → ¬ IsWaiting st
          → (st ≡ running → current ≡ some t.future)
          → ((f : ℕ) → current ≡ some f → (f ≡ t.future) × (st ≡ running))
          → Ledger ts (update futures t.future st) next current
      Ledger-leave current gone runs_now now_runs = record {
        distinct = Pairwise.of_cons l.distinct;
        below = λ u m. l.below u (mem-cons_of_mem t m);
        waits = λ u m.
            subst IsWaiting (sym (update_ne futures t.future st u.future (not_other u m)))
              (l.waits u (mem-cons_of_mem t m));
        fresh = λ f later. ground (arith, l.below t mem-cons_self, l.fresh f);
        kept = λ f old w. elim (ℕ_discrete f t.future) [
          | yes same ↦
              absurd (gone (subst IsWaiting (update_self futures t.future st) (rw same at w)))
          | no other ↦
              Or.elim ∥∥₁_prop
                (mem-cons.0
                  (l.kept f old (subst IsWaiting (update_ne futures t.future st f other) w)))
                (λ e. absurd (other e)) (λ m. m)
        ];
        runs = λ f r. elim (ℕ_discrete f t.future) [
          | yes same ↦ ground (arith, runs_now)
          | no other ↦ cc (l.runs f (sym (update_ne futures t.future st f other) ∙ r))
        ];
        current_runs = λ f r. let (same, now) = now_runs f r in ground arith;
      }

  module _ (ts : List (Task C)) (futures : ℕ → FutureState V) (next : ℕ) where
    -- The future that runs gets a last state.
    pub Ledger-settle :
        (f : ℕ) (st : FutureState V)
        → ¬ IsWaiting st
        → st ≢ running
        → Ledger ts futures next (some f)
        → Ledger ts (update futures f st) next none
    Ledger-settle f st gone still l =
        let now = l.current_runs f refl in
        record {
          distinct = l.distinct;
          below = l.below;
          waits = λ u m.
              let other : u.future ≢ f = λ e. subst IsWaiting (ap futures e ∙ now) (l.waits u m) in
              subst IsWaiting (sym (update_ne futures f st u.future other)) (l.waits u m);
          fresh = λ g later. ground (arith, l.fresh g);
          kept = λ g old w. elim (ℕ_discrete g f) [
            | yes same ↦ absurd (gone (subst IsWaiting (update_self futures f st) (rw same at w)))
            | no other ↦ l.kept g old (subst IsWaiting (update_ne futures f st g other) w)
          ];
          runs = λ g r. elim (ℕ_discrete g f) [
            | yes same ↦ absurd (still (sym (update_self futures f st) ∙ (rw same at r)))
            | no other ↦ absurd (
                other
                  (sym (some-injective f g (l.runs g (sym (update_ne futures f st g other) ∙ r)))))
          ];
          current_runs = λ g r. cc;
        }

    -- Future.cancel keeps the accounts.
    module _ (f : ℕ) (old : f < next) where
      after_cancel : ℕ → FutureState V
      after_cancel = update futures f (cancel (futures f))

      after_cancel-IsWaiting : (g : ℕ) → IsWaiting (after_cancel g) ↔ IsWaiting (futures g)
      unfolding after_cancel
      after_cancel-IsWaiting g = elim (ℕ_discrete g f) [
        | yes same ↦
            subst (λ st. IsWaiting st ↔ IsWaiting (futures g))
              (sym (
                ap (update futures f (cancel (futures f))) same
                ∙ update_self futures f (cancel (futures f))))
              (subst (λ h. IsWaiting (cancel (futures h)) ↔ IsWaiting (futures g)) same
                (cancel-IsWaiting (futures g)))
        | no other ↦
            subst (λ st. IsWaiting st ↔ IsWaiting (futures g))
              (sym (update_ne futures f (cancel (futures f)) g other)) ((λ w. w), (λ w. w))
      ]

      after_cancel-running : (g : ℕ) → (after_cancel g ≡ running) ↔ (futures g ≡ running)
      unfolding after_cancel
      after_cancel-running g = ground arith

      pub Ledger-cancel :
          {current : Option ℕ}
          → Ledger ts futures next current
          → Ledger ts (update futures f (cancel (futures f))) next current
      unfolding after_cancel
      Ledger-cancel l = record {
        distinct = l.distinct;
        below = l.below;
        waits = λ u m. (after_cancel-IsWaiting u.future).1 (l.waits u m);
        fresh = λ g later. ground (arith, l.fresh g);
        kept = λ g before w. l.kept g before ((after_cancel-IsWaiting g).0 w);
        runs = λ g r. l.runs g ((after_cancel-running g).0 r);
        current_runs = λ g r. (after_cancel-running g).1 (l.current_runs g r);
      }
