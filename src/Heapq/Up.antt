-- ===== src/Heapq/Up.antt =====
-- siftdown restores the heap property on the path from a place to the root.
use mathlib.Core.Path.{subst}
use mathlib.Core.List.Perm
use mathlib.Core.List.{Perm}
use py_lwip.Prelude.{
  ℕ, zero, suc, ◌<◌, ◌≤◌, ◌≡◌, ◌≢◌, refl, sym, ap, Option, none, some, List, Bool, true, false, inl,
  inr, get_elem?, swap, arith, ℕ_discrete, Bool-cases, Option-cases, ◌==◌, ==_iff,
  get_elem?-swap_left, get_elem?-swap_right, get_elem?-swap_ne, swap-perm,
}
use py_lwip.Heapq.{returned, items, parent, lt_at, siftdown}
use py_lwip.Heapq.Order.{Comparison, LeAt, LeAt-trans, IsHeap}

-- The three ways a comparison ends.
pub data Answer (o : Option Bool) : Type 0 where
  raises : o ≡ none → Answer o
  less : o ≡ some true → Answer o
  not_less : o ≡ some false → Answer o

pub Answer-cases : (o : Option Bool) → Answer o
Answer-cases none = raises refl
Answer-cases (some true) = less refl
Answer-cases (some false) = not_less refl

-- A comparison at two places that gives an answer is one of two items.
pub lt_at-inv {ℓ} :
    {A : Type ℓ} (lt : A → A → Option Bool) (h : List A) (i j : ℕ) {r : Bool}
    → lt_at lt h i j ≡ some r
    → (a : A) × (b : A) × (get_elem? h i ≡ some a) × (get_elem? h j ≡ some b) × (lt a b ≡ some r)
unfolding lt_at
lt_at-inv lt h i j e = elim (Option-cases (get_elem? h i)) [
  | inl gi ↦ cc
  | inr (a, gi) ↦ elim (Option-cases (get_elem? h j)) [
    | inl gj ↦ ground arith
    | inr (b, gj) ↦ (a, b, gi, gj, ground arith)
  ]
]

module _ {ℓ} {A : Type ℓ} {lt : A → A → Option Bool} (order : Comparison lt) where
  open order use {Le, lt_true, lt_false}

  -- The heap property but for the edge above `p`, over which the neighbours are in order.
  pub record UpInv (h : List A) (p : ℕ) : Type ℓ where
    pub edges : (c : ℕ) → 0 < c → c ≢ p → LeAt order (get_elem? h (parent c)) (get_elem? h c)
    pub bridged :
        (c : ℕ) → 0 < c → 0 < p → parent c ≡ p → LeAt order (get_elem? h (parent p)) (get_elem? h c)

  module _ (h : List A) (p : ℕ) (inv : UpInv h p) (pos : 0 < p) (a b : A)
      (at_p : get_elem? h p ≡ some a) (at_q : get_elem? h (parent p) ≡ some b) (le : Le a b) where
    abbrev moved : List A
    moved = swap h p (parent p)

    new_p : get_elem? moved p ≡ some b
    new_p = get_elem?-swap_left h p (parent p) a b at_p at_q (omega arith)

    new_q : get_elem? moved (parent p) ≡ some a
    new_q = get_elem?-swap_right h p (parent p) a b at_p at_q

    same : (k : ℕ) → k ≢ p → k ≢ parent p → get_elem? moved k ≡ get_elem? h k
    same = get_elem?-swap_ne h p (parent p) a b at_p at_q

    step_edges :
        (c : ℕ) → 0 < c → c ≢ parent p → LeAt order (get_elem? moved (parent c)) (get_elem? moved c)
    step_edges c cpos other = elim (ℕ_discrete c p) [
      | yes e ↦ rw (e, new_q, new_p) le
      | no c_ne ↦ elim (ℕ_discrete (parent c) p) [
        | yes e ↦ rw (e, new_p, same c c_ne other) (rw at_q at (inv.bridged c cpos pos e))
        | no q_ne ↦ elim (ℕ_discrete (parent c) (parent p)) [
          | yes e ↦
              rw (e, new_q, same c c_ne other)
                (LeAt-trans order (some a) b (get_elem? h c) le
                  (rw (e, at_q) at (inv.edges c cpos c_ne)))
          | no r_ne ↦ rw (same (parent c) q_ne r_ne, same c c_ne other) (inv.edges c cpos c_ne)
        ]
      ]
    ]

    step_bridged :
        (c : ℕ)
        → 0 < c
        → 0 < parent p
        → parent c ≡ parent p
        → LeAt order (get_elem? moved (parent (parent p))) (get_elem? moved c)
    step_bridged c cpos qpos e =
        let above = rw at_q at (inv.edges (parent p) qpos (omega arith)) in
        rw (same (parent (parent p)) (omega arith) (omega arith)) (elim (ℕ_discrete c p) [
          | yes e' ↦ rw (e', new_p) above
          | no c_ne ↦ rw (same c c_ne (omega arith)) (
              LeAt-trans order (get_elem? h (parent (parent p))) b (get_elem? h c) above
                (rw (e, at_q) at (inv.edges c cpos c_ne)))
        ])

    pub UpInv-step : UpInv moved (parent p)
    UpInv-step = record { edges = step_edges; bridged = step_bridged }

  pub UpInv-root : (h : List A) (p : ℕ) → UpInv h p → p ≡ 0 → IsHeap order h
  UpInv-root h p inv root c cpos = inv.edges c cpos (omega arith)

  UpInv-stop :
      (h : List A) (p : ℕ) (a b : A)
      → UpInv h p
      → get_elem? h p ≡ some a
      → get_elem? h (parent p) ≡ some b
      → Le b a
      → IsHeap order h
  UpInv-stop h p a b inv at_p at_q le c cpos = elim (ℕ_discrete c p) [
    | yes e ↦ rw (e, at_q, at_p) le
    | no c_ne ↦ inv.edges c cpos c_ne
  ]

module _ {ℓ} {A : Type ℓ} (lt : A → A → Option Bool) where
  parent-ne : (p : ℕ) → (p == 0) ≡ false → parent p ≢ p
  parent-ne p e = ground arith

  pub siftdown-swap-perm :
      (h : List A) (p : ℕ) {r : Bool}
      → lt_at lt h p (parent p) ≡ some r
      → (p == 0) ≡ false
      → Perm (swap h p (parent p)) h
  siftdown-swap-perm h p e nz =
      let (a, b, at_p, at_q, _) = lt_at-inv lt h p (parent p) e in
      swap-perm h p (parent p) a b at_p at_q (λ eq. parent-ne p nz (sym eq))

  -- Whether it returns or raises, siftdown keeps the items.
  pub siftdown-perm : (fuel : ℕ) (h : List A) (p : ℕ) → Perm (items (siftdown lt fuel h p)) h
  unfolding siftdown
  siftdown-perm zero h p = Perm.refl h
  siftdown-perm (suc fuel) h p = elim (Bool-cases (p == 0)) [
    | inl e ↦ rw e (Perm.refl h)
    | inr nz ↦ rw nz (elim (Answer-cases (lt_at lt h p (parent p))) [
      | raises e ↦ rw e (Perm.refl h)
      | less e ↦ rw e (
          Perm.trans (siftdown-perm fuel (swap h p (parent p)) (parent p))
            (siftdown-swap-perm h p e nz))
      | not_less e ↦ rw e (Perm.refl h)
    ])
  ]

module _ {ℓ} {A : Type ℓ} {lt : A → A → Option Bool} (order : Comparison lt) where
  open order use {lt_true, lt_false}

  -- When it returns, the whole list is a heap.
  pub siftdown-IsHeap :
      (fuel : ℕ) (h : List A) (p : ℕ) {h' : List A}
      → p ≤ fuel
      → UpInv order h p
      → siftdown lt fuel h p ≡ returned h'
      → IsHeap order h'
  unfolding siftdown
  siftdown-IsHeap zero h p fits inv r =
      subst (IsHeap order) (ap items r) (UpInv-root order h p inv (omega arith))
  siftdown-IsHeap (suc fuel) h p {h'} fits inv r = elim (Bool-cases (p == 0)) [
    | inl e ↦
        subst (IsHeap order) (ap items (rw e at r)) (UpInv-root order h p inv ((==_iff p 0).0 e))
    | inr nz ↦ elim (Answer-cases (lt_at lt h p (parent p))) [
      | raises e ↦ cc
      | less e ↦
          let (a, b, at_p, at_q, lab) = lt_at-inv lt h p (parent p) e in
          siftdown-IsHeap fuel (swap h p (parent p)) (parent p) (ground arith)
            (UpInv-step order h p inv (ground arith) a b at_p at_q (lt_true a b lab))
            (rw (nz, e) at r)
      | not_less e ↦
          let (a, b, at_p, at_q, lab) = lt_at-inv lt h p (parent p) e in
          let stop = UpInv-stop order h p a b inv at_p at_q (lt_false a b lab) in
          subst (IsHeap order) (ap items (rw (nz, e) at r)) stop
    ]
  ]
