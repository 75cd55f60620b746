-- ===== src/Emulation/Network/Traffic/Conserved.antt =====
-- Every frame that the bus accepts comes to every other interface exactly once.
use mathlib.Core.Path.{subst}
use py_lwip.Prelude.{
  ℕ, ◌+◌, ◌≡◌, refl, sym, ap, ◌∙◌, true, List, [], ◌∷◌, ◌==◌, inl, inr, Bool-cases, ==_iff, arith,
}
use py_lwip.Prelude.Totals.{total, total-append}
use py_lwip.Prelude.Ran.{Ran, world_of}
use py_lwip.Scheduler.Task.{Compared}
use py_lwip.Scheduler.Executor.{Thread, executing, finish}
use py_lwip.Scheduler.Executor.Events.{
  Event, tick, schedule_call, thread_round, thread_begins, action_ends, step, on_end,
}
use py_lwip.Scheduler.Executor.Valid.{IsAlive, IsValid}
use py_lwip.Scheduler.Executor.Invariant.{step-IsValid}
use py_lwip.Scheduler.Executor.Held.{total_held, accepted, executed, executed_by, step-held}
use py_lwip.Scheduler.Executor.Uncancelled.{NoneCancelled, IsPlain, step-NoneCancelled}
use py_lwip.Stack.Lwip.{Bytes}
use py_lwip.Emulation.EthernetBus.{
  Value, Frame, broadcast, forward, run_broadcast, run_task, completion,
}
use py_lwip.Emulation.Host.{HostCall, World}
use py_lwip.Emulation.Network.Delivery.{Port, expected, subscribers}
use py_lwip.Emulation.Network.Traffic.{
  TrafficEvent, bus_waits, sends, bus_rounds, bus_begins, bus_runs, in_host, Bus, Returns, step_bus,
  step_host, traffic_step, run_traffic, sent_at, scheduled_at, executed_at, IsSmooth, AreSmooth,
  all_sent, all_scheduled, all_handled,
}
use py_lwip.Emulation.Network.Traffic.Forwarded.{forward-Holds}

module _ (compare_frames : Frame Bytes → Frame Bytes → Compared)
    (compare_calls : HostCall → HostCall → Compared) (ports : List Port) (k : ℕ)
    (weight : HostCall → ℕ) where
  -- What a frame weighs: the calls that it makes for the host.
  abbrev pub frame_weight : Frame Bytes → ℕ
  frame_weight (netif_from, frame) = total weight (expected ports netif_from frame k)

  -- The bus has no filters and observers, and the executors of the bus and of the host are sound.
  pub record IsSound (s : Bus × World) : Type 0 where
    pub filters : s.0.filters ≡ []
    pub observers : s.0.observers ≡ []
    pub interfaces : s.0.interfaces ≡ subscribers compare_calls ports
    pub bus_valid : IsValid s.0.task_queue
    pub bus_uncancelled : NoneCancelled s.0.task_queue
    pub host_valid : IsValid (s.1.hosts k).task_queue
    pub host_uncancelled : NoneCancelled (s.1.hosts k).task_queue

  -- The frames in the bus and the calls in the host, by what they weigh.
  abbrev pub under_way : Bus × World → ℕ
  under_way (bus, w) =
      total_held frame_weight bus.task_queue + total_held weight (w.hosts k).task_queue

  -- After an event from `s` that leads to `s'`.
  abbrev Balanced : TrafficEvent → Bus × World → Bus × World → Type 0
  Balanced e s s' =
      IsSound s'
      × (under_way s' + total weight (executed_at k e s)
          ≡ under_way s + total weight (scheduled_at k e s) + total frame_weight (sent_at e s))

  -- An event of the bus that ends no action.
  bus-Balanced :
      (e : Event (Frame Bytes) Value) (bus : Bus) (w : World)
      → IsPlain e
      → IsAlive (step compare_frames e bus.task_queue).thread
      → IsSound (bus, w)
      → IsSound (step_bus compare_frames compare_calls e (bus, w))
        × (total_held frame_weight (step compare_frames e bus.task_queue)
              + total frame_weight (executed e bus.task_queue)
            ≡ total_held frame_weight bus.task_queue
              + total frame_weight (accepted e bus.task_queue))
  bus-Balanced e bus w plain alive ok = (
    record {
      filters = ok.filters;
      observers = ok.observers;
      interfaces = ok.interfaces;
      bus_valid = step-IsValid compare_frames e bus.task_queue ok.bus_valid;
      bus_uncancelled = step-NoneCancelled compare_frames e bus.task_queue plain ok.bus_uncancelled;
      host_valid = ok.host_valid;
      host_uncancelled = ok.host_uncancelled;
    },
    step-held compare_frames frame_weight e bus.task_queue plain ok.bus_valid ok.bus_uncancelled
        alive,
  )

  plain_broadcast :
      (bus : Bus) (netif_from : ℕ) (frame : Bytes) (w : World)
      → IsSound (bus, w)
      → run_broadcast bus netif_from frame w
        ≡ forward (subscribers compare_calls ports) netif_from frame w
  plain_broadcast bus netif_from frame w ok = rw (ok.filters, ok.observers, ok.interfaces) refl

  -- The thread of the bus forwards a frame.
  forwarded :
      (th : Thread (Frame Bytes)) (bus : Bus) (w : World)
      → bus.task_queue.thread ≡ th
      → Returns th bus w
      → IsAlive (run_task th bus w).0.task_queue.thread
      → IsSound (bus, w)
      → Balanced bus_runs (bus, w) (run_task th bus w)
  forwarded (executing t ts) bus w at (w', r) alive ok =
      let c = completion (run_broadcast bus t.call.0 t.call.1 w) in
      let q = finish c t ts bus.task_queue in
      let ends : step compare_frames (action_ends c) bus.task_queue ≡ q =
        ap (λ th. on_end c th bus.task_queue) at in
      let (ok', same) =
        bus-Balanced (action_ends c) bus w tt (subst (λ x. IsAlive x.thread) (sym ends) alive) ok in
      let brings =
        forward-Holds compare_calls weight ports t.call.0 t.call.1 w w' k _
          (sym (plain_broadcast bus t.call.0 t.call.1 w ok) ∙ r)
          (record { valid = ok.host_valid; uncancelled = ok.host_uncancelled; weighs = refl }) in
      subst (λ x. Balanced bus_runs (bus, w) (record bus { task_queue = q }, x))
        (sym (ap (λ (x : Ran World (Unit {0})). world_of x) r))
        (
          record {
            filters = ok.filters;
            observers = ok.observers;
            interfaces = ok.interfaces;
            bus_valid = subst IsValid ends ok'.bus_valid;
            bus_uncancelled = subst NoneCancelled ends ok'.bus_uncancelled;
            host_valid = brings.valid;
            host_uncancelled = brings.uncancelled;
          },
          omega (
            arith,
            brings.weighs,
            same,
            ap (λ x. total_held frame_weight x) ends,
            ap (λ th. total frame_weight (executed_by th)) at,
          ),
        )
  forwarded _ bus w at r alive ok = (ok, omega arith)

  in_this_host-Balanced :
      (e : Event HostCall Value) (bus : Bus) (w : World)
      → IsPlain e
      → IsAlive (step compare_calls e (w.hosts k).task_queue).thread
      → IsSound (bus, w)
      → Balanced (in_host k e) (bus, w) (bus, step_host compare_frames compare_calls k e w)
  in_this_host-Balanced e bus w plain alive ok =
      let q = (w.hosts k).task_queue in
      let same = step-held compare_calls weight e q plain ok.host_valid ok.host_uncancelled alive in
      let here : (k == k) ≡ true = (==_iff k k).1 refl in
      rw here (
        record {
          filters = ok.filters;
          observers = ok.observers;
          interfaces = ok.interfaces;
          bus_valid = ok.bus_valid;
          bus_uncancelled = ok.bus_uncancelled;
          host_valid = rw here (step-IsValid compare_calls e q ok.host_valid);
          host_uncancelled =
              rw here (step-NoneCancelled compare_calls e q plain ok.host_uncancelled);
        },
        omega arith,
      )

  in_host-Balanced :
      (j : ℕ) (e : Event HostCall Value) (bus : Bus) (w : World)
      → IsPlain e
      → IsAlive (step compare_calls e (w.hosts j).task_queue).thread
      → IsSound (bus, w)
      → Balanced (in_host j e) (bus, w) (bus, step_host compare_frames compare_calls j e w)
  in_host-Balanced j e bus w plain alive ok = elim (Bool-cases (j == k)) [
    | inl here ↦
        let same = (==_iff j k).0 here in
        subst
          (λ i. Balanced (in_host i e) (bus, w) (bus, step_host compare_frames compare_calls i e w))
          (sym same)
          (in_this_host-Balanced e bus w plain
            (subst (λ i. IsAlive (step compare_calls e (w.hosts i).task_queue).thread) same alive)
            ok)
    | inr elsewhere ↦ rw elsewhere (
      record {
        filters = ok.filters;
        observers = ok.observers;
        interfaces = ok.interfaces;
        bus_valid = ok.bus_valid;
        bus_uncancelled = ok.bus_uncancelled;
        host_valid = rw elsewhere ok.host_valid;
        host_uncancelled = rw elsewhere ok.host_uncancelled;
      },
      omega arith,
    )
  ]

  traffic_step-Balanced :
      (e : TrafficEvent) (s : Bus × World)
      → IsSmooth compare_frames compare_calls e s
      → IsSound s
      → Balanced e s (traffic_step compare_frames compare_calls e s)
  unfolding broadcast
  traffic_step-Balanced (bus_waits n) (bus, w) (alive, calm) ok =
      let (ok', same) = bus-Balanced (tick n) bus w tt alive ok in (ok', omega arith)
  traffic_step-Balanced (sends i frame) (bus, w) (alive, calm) ok =
      let (ok', same) = bus-Balanced (schedule_call 0 0 (i, frame)) bus w tt alive ok in
      (ok', omega arith)
  traffic_step-Balanced (bus_rounds elapsed) (bus, w) (alive, calm) ok =
      let (ok', same) = bus-Balanced (thread_round elapsed) bus w tt alive ok in (ok', omega arith)
  traffic_step-Balanced bus_begins (bus, w) (alive, calm) ok =
      let (ok', same) = bus-Balanced thread_begins bus w tt alive ok in (ok', omega arith)
  traffic_step-Balanced bus_runs (bus, w) (alive, calm) ok =
      forwarded bus.task_queue.thread bus w refl calm alive ok
  traffic_step-Balanced (in_host j e) (bus, w) (alive, (plain, alive')) ok =
      in_host-Balanced j e bus w plain alive' ok

  -- Frames and calls are neither lost nor doubled, however the threads interleave. The bus has no
  -- filters and observers, every forwarding returns, no thread ends by an exception, and no call in
  -- the host is cancelled: then what the host has executed and what is under way for it, in the
  -- bus or in its queue, is exactly what was under way at first, what its clients have scheduled,
  -- and one call for each frame that the bus has accepted and each interface of the host on the
  -- bus but the sender. This is stated of what the calls weigh together, for any weight of calls.
  pub run_traffic_lem :
      (es : List TrafficEvent) (s : Bus × World)
      → IsSound s
      → AreSmooth compare_frames compare_calls es s
      → under_way (run_traffic compare_frames compare_calls es s)
          + total weight (all_handled compare_frames compare_calls k es s)
        ≡ under_way s
          + total weight (all_scheduled compare_frames compare_calls k es s)
          + total frame_weight (all_sent compare_frames compare_calls es s)
  run_traffic_lem [] s ok smooth = omega arith
  run_traffic_lem (e ∷ es) s ok (smooth, rest) =
      let s' = traffic_step compare_frames compare_calls e s in
      let (ok', same) = traffic_step-Balanced e s smooth ok in
      let later = run_traffic_lem es s' ok' rest in
      omega (
        arith,
        same,
        later,
        total-append weight (executed_at k e s) (all_handled compare_frames compare_calls k es s'),
        total-append weight (scheduled_at k e s)
            (all_scheduled compare_frames compare_calls k es s'),
        total-append frame_weight (sent_at e s) (all_sent compare_frames compare_calls es s'),
      )
