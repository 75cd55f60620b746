-- ===== src/Emulation/Tests.antt =====
-- A small network, and the theorems about networks at it.
pub mod Traffic
use mathlib.Core.List.{Memᴰ, Perm}
use py_lwip.Prelude.{ℕ, ◌≡◌, ◌≢◌, ◌↔◌, ◌⊎◌, refl, true, none, some, List, [], ◌∷◌, ◌++◌, swap}
use py_lwip.Prelude.Ran
use py_lwip.Prelude.Ran.{Ran, done, raised, and_then, run_all, world_of}
use py_lwip.Heapq.{heappush, heappop, siftdown, siftup, lt_at, left_is_least}
use py_lwip.Scheduler.Task.{Compared, unordered, entry_lt}
use py_lwip.Scheduler.Queue.{schedule_task, pop_tasks_till_timestamp}
use py_lwip.Scheduler.Executor.{
  running, new_executor, run_start, stop, begin, finish, schedule_delayed, run_round, take_expired,
  wait_round, count_live,
}
use py_lwip.Scheduler.Executor.Events.{tick, thread_round}
use py_lwip.Scheduler.Executor.Lasting.{is_over}
use py_lwip.Emulation.EthernetBus.{EthernetBus, Subscriber, should_forward, forward, run_broadcast}
use py_lwip.Emulation.EthernetBus.Broadcast.{calls, Verdict, run_broadcast_lem, should_forward_iff}
use py_lwip.Emulation.Host.{Host, HostCall, World, new_host, make_prepared, add_network_interface}
use py_lwip.Emulation.Host.Interfaces.{Registered, add_network_interface-Registered}
use py_lwip.Emulation.Network.{Network, InterfaceParameters, subscriber, new_network, add_host}
use py_lwip.Emulation.Network.Adding.{add_host-raised}
use py_lwip.Emulation.Network.Delivery.{calls_of, expected, subscribers, forward-calls}
use py_lwip.Emulation.Network.Accepting.{forward-accepts}
use py_lwip.Emulation.Network.Stopping.{
  stopping_bus, stopping_hosts, Shutdown, ShutdownEvent, in_bus, in_host, caller_goes_on, HostsRun,
  run_shutdown, run_shutdown-HostsRun,
}
use py_lwip.Emulation.Network.Joined.{run_shutdown-over}
use py_lwip.Stack.Lwip.{Bytes}
use py_lwip.Stack.NetIf.{NetIfCalls, new_netif}
use py_lwip.Stack.LwipStack.{Heap}
use py_lwip.Utility.Address.{int_digits, int_of, bitwise, reduce_segments, int_ip_from_string}

program : Unit {0}
unfolding swap schedule_task heappush heappop siftdown siftup lt_at left_is_least entry_lt
    pop_tasks_till_timestamp new_executor run_start stop begin finish schedule_delayed run_round
    wait_round take_expired count_live int_digits int_of bitwise reduce_segments int_ip_from_string
program = tt

-- The world of these callables is the list of their calls.
abbrev logs : ℕ → (interface : ℕ) → Bytes → List ℕ → Ran (List ℕ) (Unit {0})
logs call interface frame w = done (call ∷ w) tt

abbrev bus : EthernetBus (List ℕ) Bytes
bus = record {
  interfaces =
      record { interface = 1; on_data = logs 1 } ∷ record { interface = 2; on_data = logs 2 } ∷ [];
  observers = (λ i frame forwarded w. done (9 ∷ w) tt) ∷ [];
  filters = (λ i frame w. done (8 ∷ w) true) ∷ [];
  task_queue = new_executor 0;
}

-- The filter, then the observer, then the interface that is not the sender.
one_broadcast : run_broadcast bus 1 (7 ∷ []) [] ≡ done (2 ∷ 9 ∷ 8 ∷ []) tt
one_broadcast = refl

run_broadcast_lem_example :
    run_broadcast bus 1 (7 ∷ []) []
    ≡ and_then
        (should_forward bus.filters 1 (7 ∷ []) [])
        (λ forwarded w. run_all (calls bus 1 (7 ∷ []) forwarded) w)
run_broadcast_lem_example = run_broadcast_lem bus 1 (7 ∷ []) []

should_forward_iff_example :
    (should_forward bus.filters 1 (7 ∷ []) [] ≡ done (8 ∷ []) true)
    ↔ Verdict bus.filters 1 (7 ∷ []) true [] (8 ∷ [])
should_forward_iff_example = should_forward_iff bus.filters 1 (7 ∷ []) true [] (8 ∷ [])

-- No two calls are ordered.
unfoldable pub no_order : HostCall → HostCall → Compared
no_order c d = unordered

abbrev running_host : Host
running_host = record { stack = []; task_queue = run_start (new_executor 0) }

abbrev heap : Heap
heap = record { netifs = λ i. new_netif []; next_netif = 0 }

abbrev pub world : World
world = record { hosts = λ k. running_host; next_host = 3; heap = heap }

abbrev after_frame : World
after_frame = world_of (forward (subscribers no_order ((1, 1) ∷ (2, 2) ∷ [])) 1 (7 ∷ []) world)

delivered :
    forward (subscribers no_order ((1, 1) ∷ (2, 2) ∷ [])) 1 (7 ∷ []) world ≡ done after_frame tt
unfolding program
delivered = refl

forward-calls_example :
    Perm (calls_of after_frame 2) (expected ((1, 1) ∷ (2, 2) ∷ []) 1 (7 ∷ []) 2 ++ calls_of world 2)
forward-calls_example =
    forward-calls no_order ((1, 1) ∷ (2, 2) ∷ []) 1 (7 ∷ []) world after_frame 2 delivered

host_runs : running_host.task_queue.status ≡ running
unfolding program
host_runs = refl

forward-accepts_example :
    forward (subscribers no_order ((1, 1) ∷ (2, 2) ∷ [])) 1 (7 ∷ []) world
    ≢ raised after_frame Ran.stopped
forward-accepts_example =
    forward-accepts no_order ((1, 1) ∷ (2, 2) ∷ []) 1 (7 ∷ []) world after_frame
      (host_runs, (host_runs, tt))

abbrev shutdown : Shutdown HostCall HostCall ℕ
shutdown = record {
  bus = run_start (new_executor 0);
  hosts = λ k. run_start (new_executor 0);
  caller = stopping_bus (1 ∷ []);
}

-- The bus is stopped, ends and is joined while time passes for the host; then the host is.
abbrev first_half : List (ShutdownEvent HostCall HostCall ℕ)
first_half = caller_goes_on ∷ in_host 1 (tick 1) ∷ in_bus (thread_round 1) ∷ []

abbrev whole : List (ShutdownEvent HostCall HostCall ℕ)
whole =
    first_half ++ caller_goes_on ∷ caller_goes_on ∷ in_host 1 (thread_round 1) ∷ caller_goes_on ∷ []

hosts_run : HostsRun shutdown
unfolding program
hosts_run k = refl

run_shutdown-HostsRun_example :
    (is_over (run_shutdown no_order no_order first_half shutdown).bus.thread ≡ true)
    ⊎ HostsRun (run_shutdown no_order no_order first_half shutdown)
run_shutdown-HostsRun_example =
    run_shutdown-HostsRun no_order no_order first_half shutdown (1 ∷ []) refl (tt, (tt, tt))
      hosts_run

all_joined : (run_shutdown no_order no_order whole shutdown).caller ≡ stopping_hosts []
unfolding program
all_joined = refl

run_shutdown-over_example :
    (is_over (run_shutdown no_order no_order whole shutdown).bus.thread ≡ true)
    × (is_over ((run_shutdown no_order no_order whole shutdown).hosts 1).thread ≡ true)
run_shutdown-over_example =
    run_shutdown-over no_order no_order whole shutdown (1 ∷ []) 1 refl ∣ Memᴰ.head refl ∣₁
      all_joined

-- A library that leaves the structure as it is.
abbrev calm : NetIfCalls
calm = record {
  netif_add = λ ip mask gateway n. n;
  netif_set_up = λ n. n;
  netif_set_default = λ n. n;
  netif_set_down = λ n. n;
  netif_set_link_up = λ n. n;
  netif_set_link_down = λ n. n;
}

-- The interface 'n' with the address '1.2.3.4'.
abbrev added : Host × Heap × ℕ
added = make_prepared calm (110 ∷ []) 67305985 none none (new_host 0) heap

interface_added :
    add_network_interface calm
      (110 ∷ [])
      (49 ∷ 46 ∷ 50 ∷ 46 ∷ 51 ∷ 46 ∷ 52 ∷ [])
      none
      none
      (new_host 0)
      heap
    ≡ some (added.0, added.1, added.2)
unfolding program
interface_added = refl

add_network_interface-Registered_example :
    Registered (110 ∷ []) (new_host 0) heap added.0 added.1 added.2
add_network_interface-Registered_example =
    add_network_interface-Registered calm (110 ∷ []) (49 ∷ 46 ∷ 50 ∷ 46 ∷ 51 ∷ 46 ∷ 52 ∷ []) none
      none (new_host 0) heap added.0 added.1 added.2 interface_added

-- The second interface has the address 'x'.
abbrev good : InterfaceParameters
good = record {
  name = 110 ∷ [];
  address = 49 ∷ 46 ∷ 50 ∷ 46 ∷ 51 ∷ 46 ∷ 52 ∷ [];
  mask = none;
  gateway = none;
}

abbrev bad : InterfaceParameters
bad = record { name = 109 ∷ []; address = 120 ∷ []; mask = none; gateway = none }

abbrev left : Network × World
left = world_of (add_host calm no_order 0 (104 ∷ []) (good ∷ bad ∷ []) (new_network 0, world))

add_host_raises :
    add_host calm no_order 0 (104 ∷ []) (good ∷ bad ∷ []) (new_network 0, world)
    ≡ raised (left.0, left.1) Ran.value_error
unfolding program
add_host_raises = refl

add_host-raised_example :
    (more : List (Subscriber World Bytes)) × (left.0.hosts ≡ (new_network 0).hosts)
    × (left.0.ethernet_bus.interfaces
        ≡ (new_network 0).ethernet_bus.interfaces ++ subscriber no_order added.2 3 ∷ more)
add_host-raised_example =
    add_host-raised calm no_order 0 (104 ∷ []) good (bad ∷ []) (new_network 0) world added.0 added.1
      added.2 left.0 left.1 Ran.value_error interface_added add_host_raises
