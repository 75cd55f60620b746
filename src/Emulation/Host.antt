-- ===== src/Emulation/Host.antt =====
-- Host of lwip_py/emulation/host.py. The hosts of a network live in a heap of their own.
pub mod Interfaces
use py_lwip.Prelude.{ℕ, suc, ◌≡◌, Bool, true, false, Option, none, some, List, [], ◌∷◌}
use py_lwip.Prelude.Dict.{Str, Dict, lookup, values}
use py_lwip.Prelude.Ran.{Exception, stopped, type_error, Ran, done, raised}
use py_lwip.Scheduler.Task.{Compared}
use py_lwip.Scheduler.Executor.{
  Executor, Reply, future, raised_stopped, raised_type_error, update, new_executor, run_start, stop,
  schedule_delayed,
}
use py_lwip.Emulation.EthernetBus.{Value}
use py_lwip.Stack.Lwip.{Bytes, Ip4}
use py_lwip.Stack.Address.{ip_v4_addr}
use py_lwip.Stack.NetIf.{NetIf, NetIfCalls, set_name, set_etharp_flag, add, set_up, set_link_up}
use py_lwip.Stack.LwipStack.{Heap, Stack, change_netif, make_interface}

abbrev pub immediate : ℕ
immediate = 0

abbrev pub top_prio : ℕ
top_prio = 0

-- The calls that wait for the thread of a host: data for an interface, _set_up_interfaces, and the
-- action of a client.
pub data HostCall : Type 0 where
  input_data : (interface : ℕ) → Bytes → HostCall
  set_up_interfaces : HostCall
  action : ℕ → HostCall

pub record Host : Type 0 where
  pub stack : Stack
  pub task_queue : Executor HostCall Value

abbrev pub new_host : (now : ℕ) → Host
new_host now = record { stack = []; task_queue = new_executor now }

-- The address of an argument that may be None or empty; the outer `none` is ValueError.
abbrev pub address_if_any : Option Str → Option (Option Ip4)
address_if_any none = some none
address_if_any (some []) = some none
address_if_any (some (c ∷ cs)) = elim (ip_v4_addr (c ∷ cs)) [ none ↦ none | some a ↦ some (some a) ]

module _ (calls : NetIfCalls) where
  abbrev prepare : Ip4 → Option Ip4 → Option Ip4 → NetIf → NetIf
  prepare ip mask gateway n =
      set_etharp_flag (add calls (some ip) mask gateway (set_name (73 ∷ 110 ∷ []) n))

  abbrev pub make_prepared : Str → Ip4 → Option Ip4 → Option Ip4 → Host → Heap → Host × Heap × ℕ
  make_prepared name ip mask gateway host h =
      let (stack, h', i) = make_interface name host.stack h in
      (record host { stack = stack }, change_netif i (prepare ip mask gateway) h', i)

  abbrev if_addresses :
      Str
      → Option Ip4
      → Option (Option Ip4)
      → Option (Option Ip4)
      → Host
      → Heap
      → Option (Host × Heap × ℕ)
  if_addresses name (some ip) (some mask) (some gateway) host h =
      some (make_prepared name ip mask gateway host h)
  if_addresses name none mask gateway host h = none
  if_addresses name (some ip) none gateway host h = none
  if_addresses name (some ip) (some mask) none host h = none

  -- The addresses are read before anything is changed; `none` is ValueError.
  abbrev pub add_network_interface :
      Str → Str → Option Str → Option Str → Host → Heap → Option (Host × Heap × ℕ)
  add_network_interface name address mask gateway host h =
      if_addresses name (ip_v4_addr address) (address_if_any mask) (address_if_any gateway) host h

  -- `_set_up_interfaces`.
  abbrev pub set_up_all : List ℕ → Heap → Heap
  set_up_all [] h = h
  set_up_all (i ∷ is) h = set_up_all is (change_netif i (λ n. set_up calls (set_link_up calls n)) h)

  abbrev pub run_set_up : Host → Heap → Heap
  run_set_up host h = set_up_all (values host.stack) h

-- `none` is KeyError.
abbrev pub get_interface : Str → Host → Option ℕ
get_interface name host = lookup host.stack name

-- The hosts that there are, and the NetIf objects.
pub record World : Type 0 where
  pub hosts : ℕ → Host
  pub next_host : ℕ
  pub heap : Heap

abbrev pub set_host : ℕ → Host → World → World
set_host k host w = record w { hosts = update w.hosts k host }

-- The exception of schedule_delayed goes on to the caller.
abbrev pub on_reply : Reply → World → Ran World (Unit {0})
on_reply (future f) w = done w tt
on_reply raised_stopped w = raised w stopped
on_reply raised_type_error w = raised w type_error

module _ (compare_calls : HostCall → HostCall → Compared) where
  abbrev pub schedule_on_host : (delay : ℕ) → HostCall → ℕ → World → World × Reply
  schedule_on_host delay call k w =
      let (q, reply) = schedule_delayed compare_calls delay top_prio call (w.hosts k).task_queue in
      (set_host k (record (w.hosts k) { task_queue = q }) w, reply)

  abbrev pub on_incoming_data : (host interface : ℕ) → Bytes → World → Ran World (Unit {0})
  on_incoming_data k interface incoming_data w =
      let (w', reply) = schedule_on_host immediate (input_data interface incoming_data) k w in
      on_reply reply w'

  -- The call of set_up_interfaces, whose future the caller waits for if it is `sync`.
  abbrev pub schedule_set_up : ℕ → World → World × Reply
  schedule_set_up k w = schedule_on_host immediate set_up_interfaces k w

  abbrev pub execute : ℕ → (delay : ℕ) → ℕ → World → World × Reply
  execute a delay k w = schedule_on_host delay (action a) k w

-- Thread.start, and the first step of the thread, which enters the loop of `run`.
abbrev pub start_host : ℕ → World → World
start_host k w = set_host k (record (w.hosts k) { task_queue = run_start (w.hosts k).task_queue }) w

-- Before the join.
abbrev pub stop_host : ℕ → World → World
stop_host k w = set_host k (record (w.hosts k) { task_queue = stop true (w.hosts k).task_queue }) w
