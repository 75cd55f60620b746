-- ===== src/Emulation/EthernetBus/Broadcast.antt =====
-- The broadcast of one frame: which callables it calls, in which order, and what stops it.
use py_lwip.Prelude.{
  ℕ, ◌≡◌, refl, sym, ap, ◌∙◌, ◌↔◌, ◌⊎◌, Bool, true, false, List, [], ◌∷◌, ◌++◌, map, ◌==◌, inl, inr,
  Bool-cases, if◌then◌else◌,
}
use py_lwip.Prelude.Ran.{Ran, done, raised, and_then, and_then-same, run_all, run_all-append}
use py_lwip.Emulation.EthernetBus.{
  Subscriber, Observer, Filter, EthernetBus, all_pass, should_forward, notify, forward,
  run_broadcast,
}

module _ {W D : Type 0} where
  abbrev pub others : ℕ → List (Subscriber W D) → List (Subscriber W D)
  others netif_from [] = []
  others netif_from (s ∷ ss) =
      let rest = others netif_from ss in if s.interface == netif_from then rest else s ∷ rest

  abbrev pub deliveries : List (Subscriber W D) → D → List (W → Ran W (Unit {0}))
  deliveries ss frame = map (λ s. s.on_data s.interface frame) ss

  -- What a broadcast calls once it is known if it forwards.
  abbrev pub calls : EthernetBus W D → ℕ → D → Bool → List (W → Ran W (Unit {0}))
  calls bus netif_from frame forwarded =
      map (λ o. o netif_from frame forwarded) bus.observers
      ++ (if forwarded then deliveries (others netif_from bus.interfaces) frame else [])

  notify_lem :
      (os : List (Observer W D)) (netif_from : ℕ) (frame : D) (forwarded : Bool) (w : W)
      → notify os netif_from frame forwarded w
        ≡ run_all (map (λ o. o netif_from frame forwarded) os) w
  notify_lem [] netif_from frame forwarded w = refl
  notify_lem (o ∷ os) netif_from frame forwarded w =
      and_then-same (o netif_from frame forwarded w) _ _
        (λ _ w'. notify_lem os netif_from frame forwarded w')

  forward_lem :
      (ss : List (Subscriber W D)) (netif_from : ℕ) (frame : D) (w : W)
      → forward ss netif_from frame w ≡ run_all (deliveries (others netif_from ss) frame) w
  forward_lem [] netif_from frame w = refl
  forward_lem (s ∷ ss) netif_from frame w = elim (Bool-cases (s.interface == netif_from)) [
    | inl same ↦ rw (same, forward) (forward_lem ss netif_from frame w)
    | inr other ↦
        rw (other, forward)
          (and_then-same (s.on_data s.interface frame w) _ _
            (λ _ w'. forward_lem ss netif_from frame w'))
  ]

  forwarded_lem :
      (bus : EthernetBus W D) (netif_from : ℕ) (frame : D) (forwarded : Bool) (w : W)
      → (if forwarded then forward bus.interfaces netif_from frame w else done w tt)
        ≡ run_all (if forwarded then deliveries (others netif_from bus.interfaces) frame else []) w
  forwarded_lem bus netif_from frame true w = forward_lem bus.interfaces netif_from frame w
  forwarded_lem bus netif_from frame false w = refl

  -- A broadcast asks the filters; then it calls every observer, and if the filters let the frame
  -- pass also the callback of every interface but the sender's, in the order of connection, up to
  -- the first call that raises.
  pub run_broadcast_lem :
      (bus : EthernetBus W D) (netif_from : ℕ) (frame : D) (w : W)
      → run_broadcast bus netif_from frame w
        ≡ and_then
            (should_forward bus.filters netif_from frame w)
            (λ forwarded w'. run_all (calls bus netif_from frame forwarded) w')
  run_broadcast_lem bus netif_from frame w =
      and_then-same (should_forward bus.filters netif_from frame w) _ _ (λ forwarded w₁.
        rw notify_lem (
          and_then-same (run_all (map (λ o. o netif_from frame forwarded) bus.observers) w₁) _ _
            (λ _ w₂. forwarded_lem bus netif_from frame forwarded w₂))
        ∙ sym (run_all-append (map (λ o. o netif_from frame forwarded) bus.observers) _ w₁))

  -- The filters, asked in turn from the first world, all let the frame pass.
  abbrev pub Accept : List (Filter W D) → ℕ → D → W → W → Type 0
  Accept [] netif_from frame w w' = w ≡ w'
  Accept (f ∷ fs) netif_from frame w w' =
      (w₁ : W) × (f netif_from frame w ≡ done w₁ true) × Accept fs netif_from frame w₁ w'

  -- The first filter that does not let it pass refuses, after some that do.
  abbrev pub Refuse : List (Filter W D) → ℕ → D → W → W → Type 0
  Refuse [] netif_from frame w w' = ⊥
  Refuse (f ∷ fs) netif_from frame w w' =
      (f netif_from frame w ≡ done w' false)
      ⊎ ((w₁ : W) × (f netif_from frame w ≡ done w₁ true) × Refuse fs netif_from frame w₁ w')

  all_pass-cons :
      (f : Filter W D) (fs : List (Filter W D)) (netif_from : ℕ) (frame : D) (w w' : W) (b : Bool)
      → all_pass (f ∷ fs) netif_from frame w ≡ done w' b
      → ((f netif_from frame w ≡ done w' false) × (b ≡ false))
        ⊎ ((w₁ : W) × (f netif_from frame w ≡ done w₁ true)
            × (all_pass fs netif_from frame w₁ ≡ done w' b))
  all_pass-cons f fs netif_from frame w w' b h = on_answer (f netif_from frame w) refl h
    where
      on_answer :
          (r : Ran W Bool)
          → f netif_from frame w ≡ r
          → and_then r (λ passes w₁. elim passes [
            | false ↦ done w₁ false
            | true ↦ all_pass fs netif_from frame w₁
          ])
            ≡ done w' b
          → ((f netif_from frame w ≡ done w' false) × (b ≡ false))
            ⊎ ((w₁ : W) × (f netif_from frame w ≡ done w₁ true)
                × (all_pass fs netif_from frame w₁ ≡ done w' b))
      on_answer (done w₁ false) e h = inl (cc, cc)
      on_answer (done w₁ true) e h = inr (w₁, e, h)
      on_answer (raised w₁ x) e h = cc

  abbrev pub Verdict : List (Filter W D) → ℕ → D → Bool → W → W → Type 0
  Verdict fs netif_from frame true w w' = Accept fs netif_from frame w w'
  Verdict fs netif_from frame false w w' = Refuse fs netif_from frame w w'

  all_pass-Verdict :
      (fs : List (Filter W D)) (netif_from : ℕ) (frame : D) (b : Bool) (w w' : W)
      → all_pass fs netif_from frame w ≡ done w' b
      → Verdict fs netif_from frame b w w'
  all_pass-Verdict [] netif_from frame true w w' h = cc
  all_pass-Verdict [] netif_from frame false w w' h = cc
  all_pass-Verdict (f ∷ fs) netif_from frame true w w' h =
      elim (all_pass-cons f fs netif_from frame w w' true h) [
        | inl (e, clash) ↦ cc
        | inr (w₁, e, rest) ↦ (w₁, e, all_pass-Verdict fs netif_from frame true w₁ w' rest)
      ]
  all_pass-Verdict (f ∷ fs) netif_from frame false w w' h =
      elim (all_pass-cons f fs netif_from frame w w' false h) [
        | inl (e, same) ↦ inl e
        | inr (w₁, e, rest) ↦ inr (w₁, e, all_pass-Verdict fs netif_from frame false w₁ w' rest)
      ]

  Verdict-all_pass :
      (fs : List (Filter W D)) (netif_from : ℕ) (frame : D) (b : Bool) (w w' : W)
      → Verdict fs netif_from frame b w w'
      → all_pass fs netif_from frame w ≡ done w' b
  Verdict-all_pass [] netif_from frame true w w' v = ap (λ u. done u true) v
  Verdict-all_pass [] netif_from frame false w w' v = elim v [ ]
  Verdict-all_pass (f ∷ fs) netif_from frame true w w' (w₁, e, v) =
      rw e (Verdict-all_pass fs netif_from frame true w₁ w' v)
  Verdict-all_pass (f ∷ fs) netif_from frame false w w' (inl e) = rw e
  Verdict-all_pass (f ∷ fs) netif_from frame false w w' (inr (w₁, e, v)) =
      rw e (Verdict-all_pass fs netif_from frame false w₁ w' v)

  -- A broadcast decides to forward exactly if the filters, asked in turn, all let the frame pass;
  -- it decides not to exactly if some filter refuses and those before it do not, and then the
  -- filters behind the refusing one are not asked.
  pub should_forward_iff :
      (fs : List (Filter W D)) (netif_from : ℕ) (frame : D) (b : Bool) (w w' : W)
      → (should_forward fs netif_from frame w ≡ done w' b) ↔ Verdict fs netif_from frame b w w'
  should_forward_iff [] netif_from frame b w w' =
      (all_pass-Verdict [] netif_from frame b w w', Verdict-all_pass [] netif_from frame b w w')
  should_forward_iff (f ∷ fs) netif_from frame b w w' = (
    all_pass-Verdict (f ∷ fs) netif_from frame b w w',
    Verdict-all_pass (f ∷ fs) netif_from frame b w w',
  )
