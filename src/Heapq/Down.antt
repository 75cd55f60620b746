-- ===== src/Heapq/Down.antt =====
-- siftup moves the item at the root to a leaf and keeps the heap property above and below it.
use mathlib.Core.List.Perm
use mathlib.Core.List.{Perm}
use py_lwip.Prelude.{
  ℕ, zero, suc, ◌+◌, ◌*◌, ◌<◌, ◌≤◌, ◌≡◌, ◌≢◌, Option, some, List, Bool, true, false, inl, inr,
  length, get_elem?, swap, arith, ℕ_discrete, Bool-cases, ltb, get_elem?-swap_left,
  get_elem?-swap_ne, swap-perm, get_elem?-some, get_elem?-none, length-swap,
}
use py_lwip.Heapq.{returned, items, parent, siftup, left_is_least}
use py_lwip.Heapq.Order.{Comparison, LeAt, LeAt-none, LeAt-refl, IsHeap}
use py_lwip.Heapq.Up.{
  UpInv, lt_at-inv, raises, less, not_less, Answer-cases, siftdown-perm, siftdown-IsHeap,
}

module _ {ℓ} {A : Type ℓ} {lt : A → A → Option Bool} (order : Comparison lt) where
  open order use {Le, lt_true, lt_false}

  -- The heap property but for the edges at `p`, over which the neighbours are in order.
  pub record DownInv (h : List A) (p : ℕ) : Type ℓ where
    pub edges :
        (c : ℕ) → 0 < c → c ≢ p → parent c ≢ p → LeAt order (get_elem? h (parent c)) (get_elem? h c)
    pub bridged :
        (c : ℕ) → 0 < c → 0 < p → parent c ≡ p → LeAt order (get_elem? h (parent p)) (get_elem? h c)

  -- The child `k` of `p` is before every child of `p`.
  abbrev pub IsLeast : List A → ℕ → ℕ → Type ℓ
  IsLeast h p k = (c : ℕ) → 0 < c → parent c ≡ p → LeAt order (get_elem? h k) (get_elem? h c)

  module _ (h : List A) (p k : ℕ) (inv : DownInv h p) (pos : 0 < k) (child : parent k ≡ p)
      (least : IsLeast h p k) (a b : A) (at_p : get_elem? h p ≡ some a)
      (at_k : get_elem? h k ≡ some b) where
    abbrev moved : List A
    moved = swap h p k

    new_p : get_elem? moved p ≡ some b
    new_p = get_elem?-swap_left h p k a b at_p at_k (omega arith)

    same : (c : ℕ) → c ≢ p → c ≢ k → get_elem? moved c ≡ get_elem? h c
    same = get_elem?-swap_ne h p k a b at_p at_k

    step_edges :
        (c : ℕ)
        → 0 < c
        → c ≢ k
        → parent c ≢ k
        → LeAt order (get_elem? moved (parent c)) (get_elem? moved c)
    step_edges c cpos c_ne q_ne = elim (ℕ_discrete c p) [
      | yes e ↦
          rw (e, new_p, same (parent p) (omega arith) (omega arith))
            (rw at_k at (inv.bridged k pos (omega arith) child))
      | no c_np ↦ elim (ℕ_discrete (parent c) p) [
        | yes e ↦ rw (e, new_p, same c c_np c_ne) (rw at_k at (least c cpos e))
        | no q_np ↦ rw (same (parent c) q_np q_ne, same c c_np c_ne) (inv.edges c cpos c_np q_np)
      ]
    ]

    step_bridged :
        (c : ℕ)
        → 0 < c
        → 0 < k
        → parent c ≡ k
        → LeAt order (get_elem? moved (parent k)) (get_elem? moved c)
    step_bridged c cpos _ e =
        rw (child, new_p, same c (omega arith) (omega arith))
          (rw (e, at_k) at (inv.edges c cpos (omega arith) (omega arith)))

    pub DownInv-step : DownInv moved k
    DownInv-step = record { edges = step_edges; bridged = step_bridged }

  -- At a leaf the invariant is that of the way up.
  pub DownInv-leaf : (h : List A) (p : ℕ) → DownInv h p → length h ≤ 2 * p + 1 → UpInv order h p
  DownInv-leaf h p inv leaf = record {
    edges = λ c cpos c_ne. elim (ℕ_discrete (parent c) p) [
      | yes e ↦ rw (get_elem?-none h c (omega arith)) (LeAt-none order (get_elem? h (parent c)))
      | no q_ne ↦ inv.edges c cpos c_ne q_ne
    ];
    bridged = inv.bridged;
  }

  left_IsLeast : (h : List A) (p : ℕ) → left_is_least lt h p ≡ some true → IsLeast h p (2 * p + 1)
  unfolding left_is_least
  left_IsLeast h p e c cpos q = elim (ℕ_discrete c (2 * p + 1)) [
    | yes same ↦ rw same (LeAt-refl order (get_elem? h (2 * p + 1)))
    | no other ↦
        let right : c ≡ 2 * p + 2 = omega arith in
        rw right (elim (Bool-cases (ltb (2 * p + 2) (length h))) [
          | inl two ↦
              let (a, b, at_l, at_r, lab) = lt_at-inv lt h _ _ (rw two at e) in
              rw (at_l, at_r) (lt_true a b lab)
          | inr one ↦
              rw (get_elem?-none h (2 * p + 2) (ground arith))
                (LeAt-none order (get_elem? h (2 * p + 1)))
        ])
  ]

  right_IsLeast : (h : List A) (p : ℕ) → left_is_least lt h p ≡ some false → IsLeast h p (2 * p + 2)
  unfolding left_is_least
  right_IsLeast h p e c cpos q = elim (ℕ_discrete c (2 * p + 2)) [
    | yes same ↦ rw same (LeAt-refl order (get_elem? h (2 * p + 2)))
    | no other ↦
        let left : c ≡ 2 * p + 1 = omega arith in
        rw left (elim (Bool-cases (ltb (2 * p + 2) (length h))) [
          | inl two ↦
              let (a, b, at_l, at_r, lab) = lt_at-inv lt h _ _ (rw two at e) in
              rw (at_l, at_r) (lt_false a b lab)
          | inr one ↦ absurd (ground arith)
        ])
  ]

module _ {ℓ} {A : Type ℓ} (lt : A → A → Option Bool) where
  pub right_lt : (h : List A) (p : ℕ) → left_is_least lt h p ≡ some false → 2 * p + 2 < length h
  unfolding left_is_least
  right_lt h p e = ground arith

  -- A child in the list is exchanged with its parent.
  pub child-perm : (h : List A) (p k : ℕ) → p < k → k < length h → Perm (swap h p k) h
  child-perm h p k before inside =
      let (a, at_p) = get_elem?-some h p (omega arith) in
      let (b, at_k) = get_elem?-some h k inside in swap-perm h p k a b at_p at_k (omega arith)

  -- Whether it returns or raises, siftup keeps the items.
  pub siftup-perm : (fuel : ℕ) (h : List A) (p : ℕ) → Perm (items (siftup lt fuel h p)) h
  unfolding siftup
  siftup-perm zero h p = siftdown-perm lt p h p
  siftup-perm (suc fuel) h p = elim (Bool-cases (ltb (2 * p + 1) (length h))) [
    | inl inner ↦ rw inner (elim (Answer-cases (left_is_least lt h p)) [
      | raises e ↦ rw e (Perm.refl h)
      | less e ↦ rw e (
          Perm.trans (siftup-perm fuel (swap h p (2 * p + 1)) (2 * p + 1))
            (child-perm h p (2 * p + 1) (omega arith) (ground arith)))
      | not_less e ↦ rw e (
          Perm.trans (siftup-perm fuel (swap h p (2 * p + 2)) (2 * p + 2))
            (child-perm h p (2 * p + 2) (omega arith) (right_lt h p e)))
    ])
    | inr leaf ↦ rw leaf (siftdown-perm lt p h p)
  ]

module _ {ℓ} {A : Type ℓ} {lt : A → A → Option Bool} (order : Comparison lt) where
  child-DownInv :
      (h : List A) (p k : ℕ)
      → DownInv order h p
      → parent k ≡ p
      → p < k
      → k < length h
      → IsLeast order h p k
      → DownInv order (swap h p k) k × (length (swap h p k) ≡ length h)
  child-DownInv h p k inv child before inside least =
      let (a, at_p) = get_elem?-some h p (omega arith) in
      let (b, at_k) = get_elem?-some h k inside in
      (
        DownInv-step order h p k inv (omega arith) child least a b at_p at_k,
        length-swap h p k a b at_p at_k,
      )

  -- When it returns, the whole list is a heap.
  pub siftup-IsHeap :
      (fuel : ℕ) (h : List A) (p : ℕ) {h' : List A}
      → length h ≤ fuel + p
      → DownInv order h p
      → siftup lt fuel h p ≡ returned h'
      → IsHeap order h'
  unfolding siftup
  siftup-IsHeap zero h p fits inv r =
      siftdown-IsHeap order p h p (omega arith) (DownInv-leaf order h p inv (omega arith)) r
  siftup-IsHeap (suc fuel) h p fits inv r = elim (Bool-cases (ltb (2 * p + 1) (length h))) [
    | inl inner ↦ elim (Answer-cases (left_is_least lt h p)) [
      | raises e ↦ cc (rw (inner, e) at r)
      | less e ↦
          let (inv', same) =
            child-DownInv h p (2 * p + 1) inv (omega arith) (omega arith) (ground arith)
              (left_IsLeast order h p e) in
          siftup-IsHeap fuel (swap h p (2 * p + 1)) (2 * p + 1) (omega arith) inv'
            (rw (inner, e) at r)
      | not_less e ↦
          let (inv', same) =
            child-DownInv h p (2 * p + 2) inv (omega arith) (omega arith) (right_lt lt h p e)
              (right_IsLeast order h p e) in
          siftup-IsHeap fuel (swap h p (2 * p + 2)) (2 * p + 2) (omega arith) inv'
            (rw (inner, e) at r)
    ]
    | inr leaf ↦
        siftdown-IsHeap order p h p (omega arith) (DownInv-leaf order h p inv (ground arith))
          (rw leaf at r)
  ]
