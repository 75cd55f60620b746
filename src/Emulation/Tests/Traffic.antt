-- ===== src/Emulation/Tests/Traffic.antt =====
-- A frame from one host to another, through the bus.
use py_lwip.Prelude.{ℕ, ◌+◌, ◌≡◌, refl, List, [], ◌∷◌, swap, none}
use py_lwip.Prelude.Totals.{total}
use py_lwip.Heapq.{heappush, heappop, siftdown, siftup, lt_at, left_is_least}
use py_lwip.Scheduler.Task.{Compared, unordered, entry_lt, entry}
use py_lwip.Scheduler.Future.{result}
use py_lwip.Scheduler.Queue.{schedule_task, pop_tasks_till_timestamp}
use py_lwip.Scheduler.Executor.{
  new_executor, run_start, stop, begin, finish, schedule_delayed, run_round, take_expired,
  wait_round, count_live,
}
use py_lwip.Scheduler.Executor.Events.{thread_starts, thread_round, thread_begins, action_ends}
use py_lwip.Scheduler.Executor.Invariant.{run_events-IsValid}
use py_lwip.Stack.Lwip.{Bytes}
use py_lwip.Emulation.EthernetBus.{Frame, broadcast}
use py_lwip.Emulation.Host.{HostCall, input_data, set_up_interfaces, action, World}
use py_lwip.Emulation.Network.Delivery.{Port, subscribers}
use py_lwip.Emulation.Network.Traffic.{
  TrafficEvent, sends, bus_rounds, bus_begins, bus_runs, in_host, Bus, run_traffic, all_sent,
  all_scheduled, all_handled, AreSmooth,
}
use py_lwip.Emulation.Network.Traffic.Conserved.{IsSound, under_way, frame_weight, run_traffic_lem}
use py_lwip.Emulation.Tests.{no_order, world}

no_frame_order : Frame Bytes → Frame Bytes → Compared
no_frame_order f g = unordered

program : Unit {0}
unfolding swap schedule_task heappush heappop siftdown siftup lt_at left_is_least entry_lt entry
    pop_tasks_till_timestamp new_executor run_start stop begin finish schedule_delayed run_round
    wait_round take_expired count_live broadcast
program = tt

abbrev two_ports : List Port
two_ports = (1, 1) ∷ (2, 2) ∷ []

abbrev start_state : Bus × World
start_state = (
  record {
    interfaces = subscribers no_order two_ports;
    observers = [];
    filters = [];
    task_queue = run_start (new_executor 0);
  },
  world,
)

-- Interface 1 sends, the bus forwards, and the thread of host 2 takes the frame up.
abbrev frame_events : List TrafficEvent
frame_events =
    sends 1 (7 ∷ [])
    ∷ bus_rounds 0
    ∷ bus_begins
    ∷ bus_runs
    ∷ in_host 2 (thread_round 0)
    ∷ in_host 2 thread_begins
    ∷ in_host 2 (action_ends (result none))
    ∷ []

-- Only input_data counts.
abbrev inputs : HostCall → ℕ
inputs (input_data interface frame) = 1
inputs set_up_interfaces = 0
inputs (action a) = 0

frame_handled :
    all_handled no_frame_order no_order 2 frame_events start_state ≡ input_data 2 (7 ∷ []) ∷ []
unfolding program
frame_handled = refl

start_state-IsSound : IsSound no_frame_order no_order two_ports 2 inputs start_state
unfolding program
start_state-IsSound = record {
  filters = refl;
  observers = refl;
  interfaces = refl;
  bus_valid = run_events-IsValid no_frame_order (thread_starts ∷ []) 0;
  bus_uncancelled = λ f. refl;
  host_valid = run_events-IsValid no_order (thread_starts ∷ []) 0;
  host_uncancelled = λ f. refl;
}

frame_events-AreSmooth : AreSmooth no_frame_order no_order frame_events start_state
unfolding program
frame_events-AreSmooth = (
  (tt, tt),
  (
    (tt, tt),
    ((tt, tt), ((tt, (_, refl)), ((tt, (tt, tt)), ((tt, (tt, tt)), ((tt, (tt, tt)), tt))))),
  ),
)

run_traffic_lem_example :
    under_way no_frame_order no_order two_ports 2 inputs
        (run_traffic no_frame_order no_order frame_events start_state)
      + total inputs (all_handled no_frame_order no_order 2 frame_events start_state)
    ≡ under_way no_frame_order no_order two_ports 2 inputs start_state
      + total inputs (all_scheduled no_frame_order no_order 2 frame_events start_state)
      + total
          (frame_weight no_frame_order no_order two_ports 2 inputs)
          (all_sent no_frame_order no_order frame_events start_state)
run_traffic_lem_example =
    run_traffic_lem no_frame_order no_order two_ports 2 inputs frame_events start_state
      start_state-IsSound frame_events-AreSmooth
