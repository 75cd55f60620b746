-- ===== src/Emulation/EthernetBus.antt =====
-- EthernetBus of lwip_py/emulation/ethernet_bus.py. The observers, filters and data callbacks are
-- the client's callables: each acts on a world of its own choice, and may raise. An interface is
-- known by its identity.
pub mod Broadcast
use py_lwip.Prelude.{
  ℕ, ◌≡◌, Bool, true, false, Option, none, some, List, [], ◌∷◌, ◌++◌, map, ◌==◌, not, if◌then◌else◌,
}
use py_lwip.Prelude.Ran.{Exception, Ran, done, raised, and_then, world_of}
use py_lwip.Scheduler.Task.{Compared, Task}
use py_lwip.Scheduler.Future.{Completion, result, exception}
use py_lwip.Scheduler.Executor.{
  Executor, Thread, executing, Reply, new_executor, run_start, stop, finish, schedule_delayed,
}

-- An interface with the callback that takes the data addressed to it.
pub record Subscriber (W D : Type 0) : Type 0 where
  pub interface : ℕ
  pub on_data : ℕ → D → W → Ran W (Unit {0})

abbrev pub Observer : Type 0 → Type 0 → Type 0
Observer W D = (netif_from : ℕ) → D → (should_forward : Bool) → W → Ran W (Unit {0})

abbrev pub Filter : Type 0 → Type 0 → Type 0
Filter W D = (netif_from : ℕ) → D → W → Ran W Bool

-- A call that waits in the task queue: the interface that sends, and its data.
abbrev pub Frame : Type 0 → Type 0
Frame D = ℕ × D

-- What the actions return or raise: None, or the exception.
abbrev pub Value : Type 0
Value = Option Exception

abbrev pub completion : {W : Type 0} → Ran W (Unit {0}) → Completion Value
completion (done w u) = result none
completion (raised w x) = exception (some x)

pub record EthernetBus (W D : Type 0) : Type 0 where
  pub interfaces : List (Subscriber W D)
  pub observers : List (Observer W D)
  pub filters : List (Filter W D)
  pub task_queue : Executor (Frame D) Value

module _ {W D : Type 0} where
  abbrev pub add_observer : Observer W D → EthernetBus W D → EthernetBus W D
  add_observer o bus = record bus { observers = bus.observers ++ o ∷ [] }

  abbrev pub add_filter : Filter W D → EthernetBus W D → EthernetBus W D
  add_filter f bus = record bus { filters = bus.filters ++ f ∷ [] }

  -- Thread.start, and the first step of the thread, which enters the loop of `run`.
  abbrev pub start : EthernetBus W D → EthernetBus W D
  start bus = record bus { task_queue = run_start bus.task_queue }

  -- Before the join, which waits for the thread.
  abbrev pub stop_bus : EthernetBus W D → EthernetBus W D
  stop_bus bus = record bus { task_queue = stop true bus.task_queue }

module _ {W D : Type 0} (set_output_callbacks : ℕ → W → W) where
  abbrev attach_all : List (Subscriber W D) → W → W
  attach_all [] w = w
  attach_all (s ∷ ss) w = attach_all ss (set_output_callbacks s.interface w)

  abbrev pub new_bus : (now : ℕ) → List (Subscriber W D) → W → EthernetBus W D × W
  new_bus now interfaces w = (
    record { interfaces = interfaces; observers = []; filters = []; task_queue = new_executor now },
    attach_all interfaces w,
  )

  abbrev pub add_interface : Subscriber W D → EthernetBus W D → W → EthernetBus W D × W
  add_interface s bus w =
      (record bus { interfaces = bus.interfaces ++ s ∷ [] }, set_output_callbacks s.interface w)

module _ {W D : Type 0} (compare_frames : Frame D → Frame D → Compared) where
  abbrev after_schedule :
      EthernetBus W D → Executor (Frame D) Value × Reply → EthernetBus W D × Reply
  after_schedule bus (q, reply) = (record bus { task_queue = q }, reply)

  -- The frame waits for the thread of the bus.
  unfoldable pub broadcast : ℕ → D → EthernetBus W D → EthernetBus W D × Reply
  broadcast netif_from frame bus =
      after_schedule bus (schedule_delayed compare_frames 0 0 (netif_from, frame) bus.task_queue)

module _ {W D : Type 0} where
  -- `all` stops at the first filter that refuses.
  abbrev pub all_pass : List (Filter W D) → ℕ → D → W → Ran W Bool
  all_pass [] netif_from frame w = done w true
  all_pass (f ∷ fs) netif_from frame w =
      and_then (f netif_from frame w) (λ passes w'. elim passes [
        | false ↦ done w' false
        | true ↦ all_pass fs netif_from frame w'
      ])

  abbrev pub should_forward : List (Filter W D) → ℕ → D → W → Ran W Bool
  should_forward [] netif_from frame w = done w true
  should_forward (f ∷ fs) netif_from frame w = all_pass (f ∷ fs) netif_from frame w

  abbrev pub notify : List (Observer W D) → ℕ → D → Bool → W → Ran W (Unit {0})
  notify [] netif_from frame forwarded w = done w tt
  notify (o ∷ os) netif_from frame forwarded w =
      and_then (o netif_from frame forwarded w) (λ _ w'. notify os netif_from frame forwarded w')

  abbrev pub forward : List (Subscriber W D) → ℕ → D → W → Ran W (Unit {0})
  forward [] netif_from frame w = done w tt
  forward (s ∷ ss) netif_from frame w = elim (s.interface == netif_from) [
    | true ↦ forward ss netif_from frame w
    | false ↦ and_then (s.on_data s.interface frame w) (λ _ w'. forward ss netif_from frame w')
  ]

module _ {W D : Type 0} where
  -- `_broadcast`.
  abbrev pub run_broadcast : EthernetBus W D → ℕ → D → W → Ran W (Unit {0})
  run_broadcast bus netif_from frame w =
      and_then (should_forward bus.filters netif_from frame w) (λ forwarded w₁.
        and_then (notify bus.observers netif_from frame forwarded w₁)
          (λ _ w₂. if forwarded then forward bus.interfaces netif_from frame w₂ else done w₂ tt))

  -- The thread's step from the begin of a task to the end of its action, as one step: what the
  -- threads of the hosts do between its calls comes before it or behind it.
  abbrev pub run_task : Thread (Frame D) → EthernetBus W D → W → EthernetBus W D × W
  run_task (executing t ts) bus w =
      let r = run_broadcast bus t.call.0 t.call.1 w in
      (record bus { task_queue = finish (completion r) t ts bus.task_queue }, world_of r)
  run_task _ bus w = (bus, w)
