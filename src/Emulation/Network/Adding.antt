-- ===== src/Emulation/Network/Adding.antt =====
-- What EthernetNetwork.add_host leaves on the bus and among the hosts.
use mathlib.Core.Path.{subst}
use py_lwip.Prelude.{
  inl, inr, some-injective, ℕ, ◌≡◌, refl, sym, ap, ◌∙◌, Option, none, some, List, [], ◌∷◌, ◌++◌,
  append_assoc, append-nil,
}
use py_lwip.Prelude.Dict.{Str}
use py_lwip.Prelude.Ran.{Exception, Ran, done, raised, and_then, and_then-raised, world_of}
use py_lwip.Scheduler.Task.{Compared}
use py_lwip.Scheduler.Executor.{update}
use py_lwip.Scheduler.Executor.Ledger.{update_self}
use py_lwip.Emulation.EthernetBus.{Subscriber}
use py_lwip.Emulation.Host.{Host, HostCall, World, add_network_interface, new_host}
use py_lwip.Emulation.Network.{
  Network, InterfaceParameters, subscriber, connect, add_interface_to, add_interfaces, add_host,
  make_host,
}
use py_lwip.Stack.Lwip.{Bytes}
use py_lwip.Stack.NetIf.{NetIfCalls}
use py_lwip.Stack.LwipStack.{Heap}

-- The subscribers of the second network are those of the first and some more; the hosts are the
-- same.
record Extends (n n' : Network) : Type 0 where
  more : List (Subscriber World Bytes)
  on_bus : n'.ethernet_bus.interfaces ≡ n.ethernet_bus.interfaces ++ more
  same_hosts : n'.hosts ≡ n.hosts

Extends-refl : (n : Network) → Extends n n
Extends-refl n = record { more = []; on_bus = sym (append-nil _); same_hosts = refl }

Extends-trans : (a b c : Network) → Extends a b → Extends b c → Extends a c
Extends-trans a b c x y = record {
  more = x.more ++ y.more;
  on_bus =
      y.on_bus
      ∙ ap (λ l. l ++ y.more) x.on_bus
      ∙ append_assoc a.ethernet_bus.interfaces x.more y.more;
  same_hosts = y.same_hosts ∙ x.same_hosts;
}

module _ (calls : NetIfCalls) (compare_calls : HostCall → HostCall → Compared) where
  connect-Extends :
      (k : ℕ) (n : Network) (w : World) (o : Option (Host × Heap × ℕ))
      → Extends n (world_of (connect calls compare_calls k (n, w) o)).0
  connect-Extends k n w none = Extends-refl n
  connect-Extends k n w (some (host, h, i)) = record {
    more = subscriber compare_calls i k ∷ [];
    on_bus = refl;
    same_hosts = refl;
  }

  rest-Extends :
      (k : ℕ) (ps : List InterfaceParameters) (n : Network) (r : Ran (Network × World) (Unit {0}))
      → Extends n (world_of r).0
      → ((s : Network × World)
          → Extends s.0 (world_of (add_interfaces calls compare_calls k ps s)).0)
      → Extends n (world_of (and_then r (λ u s. add_interfaces calls compare_calls k ps s))).0
  rest-Extends k ps n (done s u) first later = Extends-trans n s.0 _ first (later s)
  rest-Extends k ps n (raised s x) first later = first

  add_interfaces-Extends :
      (k : ℕ) (ps : List InterfaceParameters) (s : Network × World)
      → Extends s.0 (world_of (add_interfaces calls compare_calls k ps s)).0
  add_interfaces-Extends k [] s = Extends-refl s.0
  add_interfaces-Extends k (p ∷ ps) (n, w) =
      rest-Extends k ps n (add_interface_to calls compare_calls k p (n, w))
        (connect-Extends k n w _) (add_interfaces-Extends k ps)

  abbrev first_interface : InterfaceParameters → Host → Heap → Option (Host × Heap × ℕ)
  first_interface p host h = add_network_interface calls p.name p.address p.mask p.gateway host h

  raised-Extends :
      (k : ℕ) (ps : List InterfaceParameters) (s : Network × World) (n' : Network) (w' : World)
      (x : Exception)
      → add_interfaces calls compare_calls k ps s ≡ raised (n', w') x
      → Extends s.0 n'
  raised-Extends k ps s n' w' x r =
      subst (λ (a : Ran (Network × World) (Unit {0})). Extends s.0 (world_of a).0) r
        (add_interfaces-Extends k ps s)

  after_first :
      (k i : ℕ) (ps : List InterfaceParameters) (n : Network) (w : World) (host : Host) (h : Heap)
      (o : Option (Host × Heap × ℕ)) (n' : Network) (w' : World) (x : Exception)
      → o ≡ some (host, h, i)
      → and_then
          (connect calls compare_calls k (n, w) o)
          (λ u s. add_interfaces calls compare_calls k ps s)
        ≡ raised (n', w') x
      → (more : List (Subscriber World Bytes)) × (n'.hosts ≡ n.hosts)
        × (n'.ethernet_bus.interfaces
            ≡ n.ethernet_bus.interfaces ++ subscriber compare_calls i k ∷ more)
  after_first k i ps n w host h none n' w' x accepted r = cc
  after_first k i ps n w host h (some (host₁, h₁, i₁)) n' w' x accepted r =
      let more = raised-Extends k ps _ n' w' x r in
      let same : i₁ ≡ i = ap (λ (a : Host × Heap × ℕ). a.2) (some-injective _ _ accepted) in
      (
        more.more,
        more.same_hosts,
        more.on_bus
            ∙ append_assoc n.ethernet_bus.interfaces (subscriber compare_calls i₁ k ∷ []) more.more
            ∙ ap (λ j. n.ethernet_bus.interfaces ++ subscriber compare_calls j k ∷ more.more) same,
      )

  -- When add_host raises after its first interface was accepted, the network has no new host, but
  -- the interface stays on the bus, with the callback of a host that is known by no name.
  pub add_host-raised :
      (now : ℕ) (host_name : Str) (p : InterfaceParameters) (ps : List InterfaceParameters)
      (n : Network) (w : World) (host : Host) (h : Heap) (i : ℕ) (n' : Network) (w' : World)
      (x : Exception)
      → add_network_interface calls p.name p.address p.mask p.gateway (new_host now) w.heap
        ≡ some (host, h, i)
      → add_host calls compare_calls now host_name (p ∷ ps) (n, w) ≡ raised (n', w') x
      → (more : List (Subscriber World Bytes)) × (n'.hosts ≡ n.hosts)
        × (n'.ethernet_bus.interfaces
            ≡ n.ethernet_bus.interfaces ++ subscriber compare_calls i w.next_host ∷ more)
  add_host-raised now host_name p ps n w host h i n' w' x accepted r =
      let k = w.next_host in
      let first = first_interface p (update w.hosts k (new_host now) k) w.heap in
      let same : first ≡ some (host, h, i) =
        ap (λ a. first_interface p a w.heap) (update_self w.hosts k (new_host now)) ∙ accepted in
      elim (and_then-raised (add_interfaces calls compare_calls k (p ∷ ps) (n, make_host now w)) _
        (n', w') x r) [
          | inl e ↦ after_first k i ps n (make_host now w) host h first n' w' x same e
          | inr (u, s, e, clash) ↦ cc
        ]
