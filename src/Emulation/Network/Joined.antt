-- ===== src/Emulation/Network/Joined.antt =====
-- When EthernetNetwork.stop has returned, the threads that it stopped are over.
use mathlib.Core.Path.{subst}
use mathlib.Core.List.{Mem, Mem-prop, eq-or-mem_of_mem-cons, not-mem-nil}
use mathlib.Core.Logic.Or
use py_lwip.Prelude.{
  ℕ, ◌≡◌, ◌≢◌, refl, sym, ap, ◌∙◌, ◌⊎◌, inl, inr, true, List, [], ◌∷◌, ◌==◌, Bool-cases, ==_iff,
}
use py_lwip.Scheduler.Task.{Compared}
use py_lwip.Scheduler.Executor.{update, stop}
use py_lwip.Scheduler.Executor.Events.{Event}
use py_lwip.Scheduler.Executor.Lasting.{is_over, step-over, stop-thread}
use py_lwip.Emulation.Network.Stopping.{
  Caller, stopping_bus, joining_bus, stopping_hosts, joining_host, Shutdown, ShutdownEvent, in_bus,
  in_host, caller_goes_on, go_on, shutdown_step, run_shutdown,
}

-- The hosts whose join has not returned.
abbrev remaining : Caller → List ℕ
remaining (stopping_bus ks) = ks
remaining (joining_bus ks) = ks
remaining (stopping_hosts ks) = ks
remaining (joining_host k ks) = k ∷ ks

module _ {C H V : Type 0} where
  abbrev HostOver : ℕ → Shutdown C H V → Type 0
  HostOver k s = is_over (s.hosts k).thread ≡ true

  -- The join of the bus has returned only when its thread was over.
  abbrev BusJoined : Caller → Shutdown C H V → Type 0
  BusJoined (stopping_bus ks) s = Unit
  BusJoined (joining_bus ks) s = Unit
  BusJoined (stopping_hosts ks) s = is_over s.bus.thread ≡ true
  BusJoined (joining_host k ks) s = is_over s.bus.thread ≡ true

  record Progress (k : ℕ) (c : Caller) (s : Shutdown C H V) : Type 0 where
    bus : BusJoined c s
    host : (HostOver k s) ⊎ Mem k (remaining c)

  stop_host-over :
      (j k : ℕ) (s : Shutdown C H V)
      → HostOver k s
      → is_over (update s.hosts j (stop true (s.hosts j)) k).thread ≡ true
  stop_host-over j k s over = elim (Bool-cases (j == k)) [
    | inl here ↦ rw here (
        ap is_over (stop-thread true (s.hosts j))
        ∙ subst (λ i. is_over (s.hosts i).thread ≡ true) (sym ((==_iff j k).0 here)) over)
    | inr elsewhere ↦ rw elsewhere over
  ]

  next_remaining :
      (j k : ℕ) (ks : List ℕ) (s : Shutdown C H V)
      → HostOver j s
      → (HostOver k s) ⊎ Mem k (j ∷ ks)
      → (HostOver k s) ⊎ Mem k ks
  next_remaining j k ks s over (inl done) = inl done
  next_remaining j k ks s over (inr m) = elim (Bool-cases (j == k)) [
    | inl here ↦ inl (subst (λ i. HostOver i s) ((==_iff j k).0 here) over)
    | inr elsewhere ↦
        let other : k ≢ j = λ e. cc (rw ((==_iff j k).1 (sym e)) at elsewhere) in
        inr (Or.elim Mem-prop (eq-or-mem_of_mem-cons m) (λ e. absurd (other e)) (λ m'. m'))
  ]

  go_on-Progress :
      (k : ℕ) (c : Caller) (s : Shutdown C H V)
      → s.caller ≡ c
      → Progress k c s
      → Progress k (go_on c s).caller (go_on c s)
  go_on-Progress k (stopping_bus ks) s at p = record { bus = tt; host = p.host }
  go_on-Progress k (joining_bus ks) s at p = elim (Bool-cases (is_over s.bus.thread)) [
    | inl over ↦ rw over (record { bus = over; host = p.host })
    | inr alive ↦ rw alive (subst (λ c. Progress k c s) (sym at) p)
  ]
  go_on-Progress k (stopping_hosts []) s at p = subst (λ c. Progress k c s) (sym at) p
  go_on-Progress k (stopping_hosts (j ∷ ks)) s at p = record {
    bus = p.bus;
    host = elim p.host [ inl over ↦ inl (stop_host-over j k s over) | inr m ↦ inr m ];
  }
  go_on-Progress k (joining_host j ks) s at p = elim (Bool-cases (is_over (s.hosts j).thread)) [
    | inl over ↦ rw over (record { bus = p.bus; host = next_remaining j k ks s over p.host })
    | inr alive ↦ rw alive (subst (λ c. Progress k c s) (sym at) p)
  ]

module _ {C H V : Type 0} (compare_bus : C → C → Compared) (compare_host : H → H → Compared) where
  in_bus-BusJoined :
      (c : Caller) (e : Event C V) (s : Shutdown C H V)
      → BusJoined c s
      → BusJoined c (shutdown_step compare_bus compare_host (in_bus e) s)
  in_bus-BusJoined (stopping_bus ks) e s b = b
  in_bus-BusJoined (joining_bus ks) e s b = b
  in_bus-BusJoined (stopping_hosts ks) e s b = ap is_over (step-over compare_bus e s.bus b) ∙ b
  in_bus-BusJoined (joining_host k ks) e s b = ap is_over (step-over compare_bus e s.bus b) ∙ b

  in_host-BusJoined :
      (c : Caller) (j : ℕ) (e : Event H V) (s : Shutdown C H V)
      → BusJoined c s
      → BusJoined c (shutdown_step compare_bus compare_host (in_host j e) s)
  in_host-BusJoined (stopping_bus ks) j e s b = b
  in_host-BusJoined (joining_bus ks) j e s b = b
  in_host-BusJoined (stopping_hosts ks) j e s b = b
  in_host-BusJoined (joining_host k ks) j e s b = b

  in_host-HostOver :
      (j k : ℕ) (e : Event H V) (s : Shutdown C H V)
      → HostOver k s
      → HostOver k (shutdown_step compare_bus compare_host (in_host j e) s)
  in_host-HostOver j k e s over = elim (Bool-cases (j == k)) [
    | inl here ↦
        let over_j = subst (λ i. HostOver i s) (sym ((==_iff j k).0 here)) over in
        rw here (ap is_over (step-over compare_host e (s.hosts j) over_j) ∙ over_j)
    | inr elsewhere ↦ rw elsewhere over
  ]

  step-Progress :
      (k : ℕ) (e : ShutdownEvent C H V) (s : Shutdown C H V)
      → Progress k s.caller s
      → let s' = shutdown_step compare_bus compare_host e s in Progress k s'.caller s'
  step-Progress k (in_bus e) s p = record {
    bus = in_bus-BusJoined s.caller e s p.bus;
    host = p.host;
  }
  step-Progress k (in_host j e) s p = record {
    bus = in_host-BusJoined s.caller j e s p.bus;
    host = elim p.host [ inl over ↦ inl (in_host-HostOver j k e s over) | inr m ↦ inr m ];
  }
  step-Progress k caller_goes_on s p = go_on-Progress k s.caller s refl p

  run_shutdown-Progress :
      (k : ℕ) (es : List (ShutdownEvent C H V)) (s : Shutdown C H V)
      → Progress k s.caller s
      → let s' = run_shutdown compare_bus compare_host es s in Progress k s'.caller s'
  run_shutdown-Progress k [] s p = p
  run_shutdown-Progress k (e ∷ es) s p = run_shutdown-Progress k es _ (step-Progress k e s p)

  finished-over :
      (k : ℕ) (c : Caller) (s : Shutdown C H V)
      → c ≡ stopping_hosts []
      → Progress k c s
      → (is_over s.bus.thread ≡ true) × HostOver k s
  finished-over k (stopping_bus ks) s e p = cc
  finished-over k (joining_bus ks) s e p = cc
  finished-over k (joining_host j ks) s e p = cc
  finished-over k (stopping_hosts (j ∷ ks)) s e p = cc
  finished-over k (stopping_hosts []) s e p =
      (p.bus, elim p.host [ inl over ↦ over | inr m ↦ absurd (not-mem-nil m) ])

  -- Whatever happens in the bus and in the hosts meanwhile: once the caller of `stop` has come to
  -- its end, the thread of the bus and that of each host of the network are over.
  pub run_shutdown-over :
      (es : List (ShutdownEvent C H V)) (s : Shutdown C H V) (ks : List ℕ) (k : ℕ)
      → s.caller ≡ stopping_bus ks
      → Mem k ks
      → (run_shutdown compare_bus compare_host es s).caller ≡ stopping_hosts []
      → (is_over (run_shutdown compare_bus compare_host es s).bus.thread ≡ true)
        × (is_over ((run_shutdown compare_bus compare_host es s).hosts k).thread ≡ true)
  run_shutdown-over es s ks k at m done = finished-over k _ _ done (
      run_shutdown-Progress k es s
        (subst (λ c. Progress k c s) (sym at) (record { bus = tt; host = inr m })))
