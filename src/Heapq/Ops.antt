-- ===== src/Heapq/Ops.antt =====
-- heappush and heappop: what they keep, what they restore, and when they do not raise.
use mathlib.Core.Path.{subst}
use mathlib.Core.List.Perm
use mathlib.Core.List.{Perm}
use py_lwip.Prelude.{
  ℕ, zero, suc, ◌-◌, ◌<◌, ◌≡◌, ◌≢◌, refl, ap, Option, List, Bool, [], ◌∷◌, ◌++◌, length, get_elem?,
  arith, ℕ_discrete, get_elem?-none, perm_snoc, length-append, get_elem?-append_left, dec_lt,
}
use py_lwip.Heapq.{returned, items, parent, heappush, heappop, last, init}
use py_lwip.Heapq.Order.{Comparison, LeAt, LeAt-none, IsHeap}
use py_lwip.Heapq.Up.{UpInv, siftdown-perm, siftdown-IsHeap}
use py_lwip.Heapq.Down.{DownInv, siftup-perm, siftup-IsHeap}

module _ {ℓ} {A : Type ℓ} where
  init-snoc-last : (x : A) (h : List A) → init x h ++ last x h ∷ [] ≡ x ∷ h
  init-snoc-last x [] = refl
  init-snoc-last x (y ∷ h) = ap (◌∷◌ x) (init-snoc-last y h)

  pub last-cons-init-perm : (x : A) (h : List A) → Perm (last x h ∷ init x h) (x ∷ h)
  last-cons-init-perm x h =
      subst (λ l. Perm (last x h ∷ init x h) l) (init-snoc-last x h)
        (Perm.symm (perm_snoc (init x h) (last x h)))

  -- The items before the last stay in their places.
  get_elem?-init :
      (x : A) (h : List A) (i : ℕ)
      → i < length (init x h)
      → get_elem? (init x h) i ≡ get_elem? (x ∷ h) i
  get_elem?-init x [] i fits = elim fits [ ]
  get_elem?-init x (y ∷ h) zero fits = refl
  get_elem?-init x (y ∷ h) (suc i) fits = get_elem?-init y h i (omega arith)

module _ {ℓ} {A : Type ℓ} (lt : A → A → Option Bool) where
  -- Whether it returns or raises, heappush adds the item and keeps the others.
  pub heappush-perm : (h : List A) (x : A) → Perm (items (heappush lt h x)) (x ∷ h)
  unfolding heappush
  heappush-perm h x = Perm.trans (siftdown-perm lt (length h) _ (length h)) (perm_snoc h x)

  -- Whether it returns or raises, heappop removes the first item and keeps the others.
  pub heappop-perm : (x : A) (h : List A) → Perm (x ∷ items (heappop lt (x ∷ h))) (x ∷ h)
  unfolding heappop
  heappop-perm x [] = Perm.refl (x ∷ [])
  heappop-perm x (y ∷ h) = Perm.cons x (
      Perm.trans (siftup-perm lt (length (last y h ∷ init y h)) (last y h ∷ init y h) 0)
        (last-cons-init-perm y h))

module _ {ℓ} {A : Type ℓ} {lt : A → A → Option Bool} (order : Comparison lt) where
  open order use {Le}

  push-UpInv : (h : List A) (x : A) → IsHeap order h → UpInv order (h ++ x ∷ []) (length h)
  push-UpInv h x heap = record {
    edges = λ c cpos other. elim (ℕ_discrete (length h - c) 0) [
      | yes far ↦
          rw (get_elem?-none (h ++ x ∷ []) c (omega (arith, length-append h (x ∷ []))))
            (LeAt-none order (get_elem? (h ++ x ∷ []) (parent c)))
      | no near ↦
          rw
            (
              get_elem?-append_left h (x ∷ []) c (omega arith),
              get_elem?-append_left h (x ∷ []) (parent c) (omega arith),
            )
            (heap c cpos)
    ];
    bridged = λ c cpos hpos e.
        rw (get_elem?-none (h ++ x ∷ []) c (omega (arith, length-append h (x ∷ []))))
          (LeAt-none order (get_elem? (h ++ x ∷ []) (parent (length h))));
  }

  pub heappush-IsHeap :
      (h : List A) (x : A) {h' : List A}
      → IsHeap order h
      → heappush lt h x ≡ returned h'
      → IsHeap order h'
  unfolding heappush
  heappush-IsHeap h x heap r =
      siftdown-IsHeap order (length h) (h ++ x ∷ []) (length h) (omega arith) (push-UpInv h x heap)
        r

  pop-DownInv :
      (x y : A) (h : List A) → IsHeap order (x ∷ y ∷ h) → DownInv order (last y h ∷ init y h) 0
  pop-DownInv x y h heap = record {
    edges = λ c cpos c_ne q_ne. edge c (heap c cpos) q_ne;
    bridged = λ c cpos pos e. absurd (omega arith);
  }
    where
      kept :
          (c : ℕ)
          → 0 < c
          → c < suc (length (init y h))
          → get_elem? (last y h ∷ init y h) c ≡ get_elem? (x ∷ y ∷ h) c
      kept zero pos fits = absurd (omega arith)
      kept (suc c) pos fits = get_elem?-init y h c (omega arith)

      edge :
          (c : ℕ)
          → LeAt order (get_elem? (x ∷ y ∷ h) (parent c)) (get_elem? (x ∷ y ∷ h) c)
          → parent c ≢ 0
          → LeAt order
              (get_elem? (last y h ∷ init y h) (parent c))
              (get_elem? (last y h ∷ init y h) c)
      edge c le q_ne = elim (dec_lt c (suc (length (init y h)))) [
        | yes near ↦ rw (kept c (omega arith) near, kept (parent c) (omega arith) (omega arith)) le
        | no far ↦ rw (get_elem?-none (last y h ∷ init y h) c (omega arith)) (LeAt-none order _)
      ]

  pub heappop-IsHeap :
      (h : List A) {h' : List A} → IsHeap order h → heappop lt h ≡ returned h' → IsHeap order h'
  unfolding heappop
  heappop-IsHeap [] heap r = subst (IsHeap order) (ap items r) heap
  heappop-IsHeap (x ∷ []) heap r = subst (IsHeap order) (ap items r) (λ c pos. tt)
  heappop-IsHeap (x ∷ y ∷ h) heap r =
      siftup-IsHeap order (length (last y h ∷ init y h)) (last y h ∷ init y h) 0 (omega arith)
        (pop-DownInv x y h heap) r
