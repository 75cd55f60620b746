-- ===== src/Emulation/Network/Traffic.antt =====
-- The traffic of a network: frames that are sent on the bus, forwarded by its thread and taken up
-- by the hosts, with all threads interleaved. The bus has no filters and observers.
pub mod Forwarded
pub mod Conserved
use py_lwip.Prelude.{◌==◌, if◌then◌else◌, ℕ, ◌≡◌, List, [], ◌∷◌, ◌++◌, map}
use py_lwip.Prelude.Ran.{done}
use py_lwip.Scheduler.Task.{Compared}
use py_lwip.Scheduler.Executor.{Executor, Thread, executing}
use py_lwip.Scheduler.Executor.Events.{Event, tick, thread_round, thread_begins, step}
use py_lwip.Scheduler.Executor.Held.{accepted, executed, accepted_at}
use py_lwip.Scheduler.Executor.Uncancelled.{IsPlain}
use py_lwip.Scheduler.Executor.Valid.{IsAlive}
use py_lwip.Stack.Lwip.{Bytes}
use py_lwip.Emulation.EthernetBus.{EthernetBus, Value, Frame, broadcast, run_broadcast, run_task}
use py_lwip.Emulation.Host.{HostCall, Host, World, set_host}
use py_lwip.Emulation.Network.Delivery.{Port, expected}

-- Time passes for the bus, an interface gives a frame to it, its thread takes the due frames,
-- begins with one, or forwards it; or something happens in a host.
pub data TrafficEvent : Type 0 where
  bus_waits : ℕ → TrafficEvent
  sends : (netif_from : ℕ) → Bytes → TrafficEvent
  bus_rounds : (elapsed : ℕ) → TrafficEvent
  bus_begins bus_runs : TrafficEvent
  in_host : ℕ → Event HostCall Value → TrafficEvent

abbrev pub Bus : Type 0
Bus = EthernetBus World Bytes

module _ (compare_frames : Frame Bytes → Frame Bytes → Compared)
    (compare_calls : HostCall → HostCall → Compared) where
  abbrev pub step_bus : Event (Frame Bytes) Value → Bus × World → Bus × World
  step_bus e (bus, w) = (record bus { task_queue = step compare_frames e bus.task_queue }, w)

  abbrev pub step_host : ℕ → Event HostCall Value → World → World
  step_host k e w =
      set_host k (record (w.hosts k) { task_queue = step compare_calls e (w.hosts k).task_queue }) w

  abbrev pub traffic_step : TrafficEvent → Bus × World → Bus × World
  traffic_step (bus_waits n) s = step_bus (tick n) s
  traffic_step (sends netif_from frame) (bus, w) =
      ((broadcast compare_frames netif_from frame bus).0, w)
  traffic_step (bus_rounds elapsed) s = step_bus (thread_round elapsed) s
  traffic_step bus_begins s = step_bus thread_begins s
  traffic_step bus_runs (bus, w) = run_task bus.task_queue.thread bus w
  traffic_step (in_host k e) (bus, w) = (bus, step_host k e w)

  abbrev pub run_traffic : List TrafficEvent → Bus × World → Bus × World
  run_traffic [] s = s
  run_traffic (e ∷ es) s = run_traffic es (traffic_step e s)

-- The frames that the bus accepts.
abbrev pub sent_at : TrafficEvent → Bus × World → List (Frame Bytes)
sent_at (sends netif_from frame) (bus, w) = accepted_at bus.task_queue.status (netif_from, frame)
sent_at _ s = []

-- The calls that the clients of a host schedule in it, and those that its thread has executed.
abbrev pub scheduled_at : ℕ → TrafficEvent → Bus × World → List HostCall
scheduled_at k (in_host j e) (bus, w) = if j == k then accepted e (w.hosts j).task_queue else []
scheduled_at k _ s = []

abbrev pub executed_at : ℕ → TrafficEvent → Bus × World → List HostCall
executed_at k (in_host j e) (bus, w) = if j == k then executed e (w.hosts j).task_queue else []
executed_at k _ s = []

-- The action of the frame that the thread of the bus has begun with returns.
abbrev pub Returns : Thread (Frame Bytes) → Bus → World → Type 0
Returns (executing t ts) bus w = (w' : World) × (run_broadcast bus t.call.0 t.call.1 w ≡ done w' tt)
Returns _ bus w = Unit

module _ (compare_frames : Frame Bytes → Frame Bytes → Compared)
    (compare_calls : HostCall → HostCall → Compared) where
  -- No forwarding raises, and no call in a host is cancelled or ends its thread.
  abbrev pub IsCalm : TrafficEvent → Bus × World → Type 0
  IsCalm bus_runs (bus, w) = Returns bus.task_queue.thread bus w
  IsCalm (in_host k e) (bus, w) =
      IsPlain e × IsAlive (step compare_calls e (w.hosts k).task_queue).thread
  IsCalm _ s = Unit

  -- The thread of the bus does not end by an exception either.
  abbrev pub IsSmooth : TrafficEvent → Bus × World → Type 0
  IsSmooth e s =
      IsAlive (traffic_step compare_frames compare_calls e s).0.task_queue.thread × IsCalm e s

  abbrev pub AreSmooth : List TrafficEvent → Bus × World → Type 0
  AreSmooth [] s = Unit
  AreSmooth (e ∷ es) s = IsSmooth e s × AreSmooth es (traffic_step compare_frames compare_calls e s)

  -- What happens in an execution.
  abbrev pub all_sent : List TrafficEvent → Bus × World → List (Frame Bytes)
  all_sent [] s = []
  all_sent (e ∷ es) s = sent_at e s ++ all_sent es (traffic_step compare_frames compare_calls e s)

  abbrev pub all_scheduled : ℕ → List TrafficEvent → Bus × World → List HostCall
  all_scheduled k [] s = []
  all_scheduled k (e ∷ es) s =
      scheduled_at k e s ++ all_scheduled k es (traffic_step compare_frames compare_calls e s)

  abbrev pub all_handled : ℕ → List TrafficEvent → Bus × World → List HostCall
  all_handled k [] s = []
  all_handled k (e ∷ es) s =
      executed_at k e s ++ all_handled k es (traffic_step compare_frames compare_calls e s)
