-- ===== src/Emulation/Network/Stopping.antt =====
-- EthernetNetwork.stop: the bus is stopped and joined before the hosts, while all threads run on.
use mathlib.Core.Path.{subst}
use py_lwip.Prelude.{
  ℕ, ◌≡◌, refl, sym, ◌⊎◌, inl, inr, true, List, [], ◌∷◌, ap, ◌∙◌, ◌==◌, if◌then◌else◌, Bool-cases,
}
use py_lwip.Scheduler.Task.{Compared}
use py_lwip.Scheduler.Executor.{Executor, running, update, stop}
use py_lwip.Scheduler.Executor.Events.{Event, step, IsNoStop}
use py_lwip.Scheduler.Executor.Lasting.{is_over, step-over, step-running}

-- Where the caller of `stop` is. The lists are the hosts that are left.
pub data Caller : Type 0 where
  stopping_bus joining_bus stopping_hosts : List ℕ → Caller
  joining_host : ℕ → List ℕ → Caller

-- The executors of the bus and of the hosts, with the caller of `stop`.
pub record Shutdown (C H V : Type 0) : Type 0 where
  pub bus : Executor C V
  pub hosts : ℕ → Executor H V
  pub caller : Caller

-- What can happen: something in the bus, something in a host, or the caller goes on.
pub data ShutdownEvent (C H V : Type 0) : Type 0 where
  in_bus : Event C V → ShutdownEvent C H V
  in_host : ℕ → Event H V → ShutdownEvent C H V
  caller_goes_on : ShutdownEvent C H V

module _ {C H V : Type 0} where
  abbrev set_executor : ℕ → Executor H V → Shutdown C H V → Shutdown C H V
  set_executor k e s = record s { hosts = update s.hosts k e }

  -- A join waits until the thread is over.
  abbrev pub go_on : Caller → Shutdown C H V → Shutdown C H V
  go_on (stopping_bus ks) s = record s { bus = stop true s.bus; caller = joining_bus ks }
  go_on (joining_bus ks) s =
      if is_over s.bus.thread then record s { caller = stopping_hosts ks } else s
  go_on (stopping_hosts []) s = s
  go_on (stopping_hosts (k ∷ ks)) s = record (set_executor k (stop true (s.hosts k)) s) {
    caller = joining_host k ks;
  }
  go_on (joining_host k ks) s =
      if is_over (s.hosts k).thread then record s { caller = stopping_hosts ks } else s

module _ {C H V : Type 0} (compare_bus : C → C → Compared) (compare_host : H → H → Compared) where
  abbrev pub shutdown_step : ShutdownEvent C H V → Shutdown C H V → Shutdown C H V
  shutdown_step (in_bus e) s = record s { bus = step compare_bus e s.bus }
  shutdown_step (in_host k e) s = set_executor k (step compare_host e (s.hosts k)) s
  shutdown_step caller_goes_on s = go_on s.caller s

  abbrev pub run_shutdown : List (ShutdownEvent C H V) → Shutdown C H V → Shutdown C H V
  run_shutdown [] s = s
  run_shutdown (e ∷ es) s = run_shutdown es (shutdown_step e s)

module _ {C H V : Type 0} where
  -- No one but the caller stops an executor.
  abbrev pub OnlyCallerStops : List (ShutdownEvent C H V) → Type 0
  OnlyCallerStops [] = Unit
  OnlyCallerStops (in_bus e ∷ es) = IsNoStop e × OnlyCallerStops es
  OnlyCallerStops (in_host k e ∷ es) = IsNoStop e × OnlyCallerStops es
  OnlyCallerStops (caller_goes_on ∷ es) = OnlyCallerStops es

  abbrev pub HostsRun : Shutdown C H V → Type 0
  HostsRun s = (k : ℕ) → (s.hosts k).status ≡ running

  -- As long as the thread of the bus is not over, the hosts accept calls.
  abbrev pub Ordered : Caller → Shutdown C H V → Type 0
  Ordered (stopping_bus ks) s = HostsRun s
  Ordered (joining_bus ks) s = HostsRun s
  Ordered (stopping_hosts ks) s = is_over s.bus.thread ≡ true
  Ordered (joining_host k ks) s = is_over s.bus.thread ≡ true

  go_on-Ordered :
      (c : Caller) (s : Shutdown C H V)
      → s.caller ≡ c
      → Ordered c s
      → Ordered (go_on c s).caller (go_on c s)
  go_on-Ordered (stopping_bus ks) s at o = o
  go_on-Ordered (joining_bus ks) s at o = elim (Bool-cases (is_over s.bus.thread)) [
    | inl over ↦ rw over over
    | inr alive ↦ rw alive (subst (λ c. Ordered c s) (sym at) o)
  ]
  go_on-Ordered (stopping_hosts []) s at o = subst (λ c. Ordered c s) (sym at) o
  go_on-Ordered (stopping_hosts (k ∷ ks)) s at o = o
  go_on-Ordered (joining_host k ks) s at o = elim (Bool-cases (is_over (s.hosts k).thread)) [
    | inl over ↦ rw over o
    | inr alive ↦ rw alive (subst (λ c. Ordered c s) (sym at) o)
  ]

module _ {C H V : Type 0} (compare_bus : C → C → Compared) (compare_host : H → H → Compared) where
  in_host-HostsRun :
      (k : ℕ) (e : Event H V) (s : Shutdown C H V)
      → IsNoStop e
      → HostsRun s
      → HostsRun (shutdown_step compare_bus compare_host (in_host k e) s)
  in_host-HostsRun k e s calm runs j = elim (Bool-cases (k == j)) [
    | inl here ↦ rw here (step-running compare_host e (s.hosts k) calm (runs k))
    | inr elsewhere ↦ rw elsewhere (runs j)
  ]

  in_bus-Ordered :
      (c : Caller) (e : Event C V) (s : Shutdown C H V)
      → Ordered c s
      → Ordered c (shutdown_step compare_bus compare_host (in_bus e) s)
  in_bus-Ordered (stopping_bus ks) e s o = o
  in_bus-Ordered (joining_bus ks) e s o = o
  in_bus-Ordered (stopping_hosts ks) e s o = ap is_over (step-over compare_bus e s.bus o) ∙ o
  in_bus-Ordered (joining_host k ks) e s o = ap is_over (step-over compare_bus e s.bus o) ∙ o

  in_host-Ordered :
      (c : Caller) (k : ℕ) (e : Event H V) (s : Shutdown C H V)
      → IsNoStop e
      → Ordered c s
      → Ordered c (shutdown_step compare_bus compare_host (in_host k e) s)
  in_host-Ordered (stopping_bus ks) k e s calm o = in_host-HostsRun k e s calm o
  in_host-Ordered (joining_bus ks) k e s calm o = in_host-HostsRun k e s calm o
  in_host-Ordered (stopping_hosts ks) k e s calm o = o
  in_host-Ordered (joining_host j ks) k e s calm o = o

  run_shutdown-Ordered :
      (es : List (ShutdownEvent C H V)) (s : Shutdown C H V)
      → OnlyCallerStops es
      → Ordered s.caller s
      → let s' = run_shutdown compare_bus compare_host es s in Ordered s'.caller s'
  run_shutdown-Ordered [] s only o = o
  run_shutdown-Ordered (in_bus e ∷ es) s (calm, only) o =
      run_shutdown-Ordered es _ only (in_bus-Ordered s.caller e s o)
  run_shutdown-Ordered (in_host k e ∷ es) s (calm, only) o =
      run_shutdown-Ordered es _ only (in_host-Ordered s.caller k e s calm o)
  run_shutdown-Ordered (caller_goes_on ∷ es) s only o =
      run_shutdown-Ordered es _ only (go_on-Ordered s.caller s refl o)

  Ordered-runs :
      (c : Caller) (s : Shutdown C H V) → Ordered c s → (is_over s.bus.thread ≡ true) ⊎ HostsRun s
  Ordered-runs (stopping_bus ks) s o = inr o
  Ordered-runs (joining_bus ks) s o = inr o
  Ordered-runs (stopping_hosts ks) s o = inl o
  Ordered-runs (joining_host k ks) s o = inl o

  -- When a network whose hosts run is stopped, and no one else stops an executor, then at every
  -- moment the thread of the bus is over or every host still accepts calls: a frame that the bus
  -- forwards meets no stopped host.
  pub run_shutdown-HostsRun :
      (es : List (ShutdownEvent C H V)) (s : Shutdown C H V) (ks : List ℕ)
      → s.caller ≡ stopping_bus ks
      → OnlyCallerStops es
      → HostsRun s
      → (is_over (run_shutdown compare_bus compare_host es s).bus.thread ≡ true)
        ⊎ HostsRun (run_shutdown compare_bus compare_host es s)
  run_shutdown-HostsRun es s ks at only runs =
      Ordered-runs _ _ (run_shutdown-Ordered es s only (subst (λ c. Ordered c s) (sym at) runs))
