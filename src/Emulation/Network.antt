-- ===== src/Emulation/Network.antt =====
-- EthernetNetwork of lwip_py/emulation/ethernet_network.py: a bus, and hosts by their names.
pub mod Adding
pub mod Delivery
pub mod Accepting
pub mod Stopping
pub mod Joined
pub mod Traffic
use py_lwip.Prelude.{ℕ, suc, ◌≡◌, Option, none, some, List, [], ◌∷◌}
use py_lwip.Prelude.Dict.{Str, Dict, lookup, insert, values}
use py_lwip.Prelude.Ran.{Exception, value_error, Ran, done, raised, and_then}
use py_lwip.Scheduler.Task.{Compared}
use py_lwip.Scheduler.Executor.{new_executor}
use py_lwip.Emulation.EthernetBus.{EthernetBus, Subscriber, new_bus, add_interface, start}
use py_lwip.Emulation.Host.{
  Host, HostCall, World, new_host, set_host, add_network_interface, on_incoming_data, start_host,
  schedule_set_up, on_reply,
}
use py_lwip.Stack.Lwip.{Bytes}
use py_lwip.Stack.NetIf.{NetIfCalls, set_output_callbacks, set_status_callbacks}
use py_lwip.Stack.LwipStack.{Heap, change_netif}

-- The parameters of an interface.
pub record InterfaceParameters : Type 0 where
  pub name : Str
  pub address : Str
  pub mask : Option Str
  pub gateway : Option Str

pub record Network : Type 0 where
  pub ethernet_bus : EthernetBus World Bytes
  pub hosts : Dict ℕ
  pub status_callback : Option ℕ
  pub link_callback : Option ℕ

-- The network's own callbacks, which call those of set_status_callbacks if there are any.
abbrev pub internal_status_callback : ℕ
internal_status_callback = 0

abbrev pub internal_link_callback : ℕ
internal_link_callback = 1

abbrev pub attach_to_bus : ℕ → World → World
attach_to_bus i w = record w { heap = change_netif i set_output_callbacks w.heap }

abbrev pub new_network : (now : ℕ) → Network
new_network now = record {
  ethernet_bus = record {
    interfaces = [];
    observers = [];
    filters = [];
    task_queue = new_executor now;
  };
  hosts = [];
  status_callback = none;
  link_callback = none;
}

module _ (compare_calls : HostCall → HostCall → Compared) where
  abbrev pub subscriber : (interface host : ℕ) → Subscriber World Bytes
  subscriber interface k = record {
    interface = interface;
    on_data = on_incoming_data compare_calls k;
  }

abbrev make_host : (now : ℕ) → World → World
make_host now w = record (set_host w.next_host (new_host now) w) { next_host = suc w.next_host }

module _ (calls : NetIfCalls) (compare_calls : HostCall → HostCall → Compared) where
  abbrev connect :
      ℕ → Network × World → (Option (Host × Heap × ℕ)) → Ran (Network × World) (Unit {0})
  connect k (n, w) none = raised (n, w) value_error
  connect k (n, w) (some (host, h, i)) =
      let h' =
        change_netif i
          (set_status_callbacks (some internal_status_callback) (some internal_link_callback)) h in
      let (bus, w') =
        add_interface attach_to_bus (subscriber compare_calls i k) n.ethernet_bus
          (record (set_host k host w) { heap = h' }) in
      done (record n { ethernet_bus = bus }, w') tt

  abbrev pub add_interface_to :
      ℕ → InterfaceParameters → Network × World → Ran (Network × World) (Unit {0})
  add_interface_to k p (n, w) =
      connect k (n, w)
        (add_network_interface calls p.name p.address p.mask p.gateway (w.hosts k) w.heap)

  abbrev pub add_interfaces :
      ℕ → List InterfaceParameters → Network × World → Ran (Network × World) (Unit {0})
  add_interfaces k [] s = done s tt
  add_interfaces k (p ∷ ps) s = and_then (add_interface_to k p s) (λ u s'. add_interfaces k ps s')

  -- The host gets its name when all its interfaces are connected.
  abbrev pub add_host :
      (now : ℕ)
      → Str
      → List InterfaceParameters
      → Network × World
      → Ran (Network × World) (Unit {0})
  add_host now host_name ps (n, w) =
      and_then (add_interfaces w.next_host ps (n, make_host now w))
        (λ u (n', w'). done (record n' { hosts = insert n'.hosts host_name w.next_host }, w') tt)

-- `none` is KeyError.
abbrev pub get_host : Str → Network → Option ℕ
get_host host_name n = lookup n.hosts host_name

abbrev pub set_network_callbacks : Option ℕ → Option ℕ → Network → Network
set_network_callbacks status link n = record n { status_callback = status; link_callback = link }

abbrev pub start_hosts : List ℕ → World → World
start_hosts [] w = w
start_hosts (k ∷ ks) w = start_hosts ks (start_host k w)

-- With the first steps of the threads, as if each came before the next thread is started.
abbrev pub start_network : Network × World → Network × World
start_network (n, w) =
    (record n { ethernet_bus = start n.ethernet_bus }, start_hosts (values n.hosts) w)

-- `_internal_status_callback`: the callback that is called, with the interface.
abbrev pub internal_callback : Option ℕ → ℕ → List (ℕ × ℕ)
internal_callback none net_if = []
internal_callback (some callback) net_if = (callback, net_if) ∷ []

module _ (compare_calls : HostCall → HostCall → Compared) where
  -- set_up_interfaces waits for each future before it goes on to the next host; a host that is
  -- stopped ends it with an exception.
  abbrev pub set_up_hosts : List ℕ → World → Ran World (Unit {0})
  set_up_hosts [] w = done w tt
  set_up_hosts (k ∷ ks) w =
      let (w', reply) = schedule_set_up compare_calls k w in
      and_then (on_reply reply w') (λ u w''. set_up_hosts ks w'')
