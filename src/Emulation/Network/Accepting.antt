-- ===== src/Emulation/Network/Accepting.antt =====
-- Hosts that run accept the frames that the bus forwards.
use py_lwip.Prelude.{
  ℕ, ◌≡◌, ◌≢◌, refl, sym, ap, ◌∙◌, List, [], ◌∷◌, ◌==◌, inl, inr, Bool-cases, ==_iff,
}
use py_lwip.Prelude.Ran.{Exception, Ran, done, raised, and_then, and_then-raised, world_of}
use py_lwip.Prelude.Ran
use py_lwip.Heapq
use py_lwip.Heapq.{Outcome, returned}
use py_lwip.Scheduler.Task.{Compared, Entry}
use py_lwip.Scheduler.Executor
use py_lwip.Scheduler.Executor.{
  Executor, Status, running, stopped_sync, Reply, future, raised_stopped, raised_type_error,
  schedule_delayed, schedule_on, accept,
}
use py_lwip.Scheduler.Executor.Lasting.{schedule_delayed-status}
use py_lwip.Emulation.EthernetBus.{Value, forward}
use py_lwip.Emulation.Host.{
  HostCall, input_data, World, on_reply, on_incoming_data, schedule_on_host,
}
use py_lwip.Emulation.Network.Delivery.{Port, subscribers}
use py_lwip.Stack.Lwip.{Bytes}

-- Each host with an interface in the list accepts calls.
abbrev pub HostsAccept : List Port → World → Type 0
HostsAccept [] w = Unit
HostsAccept ((i, host) ∷ ports) w =
    ((w.hosts host).task_queue.status ≡ running) × HostsAccept ports w

module _ (compare_calls : HostCall → HostCall → Compared) where
  on_reply-world : (reply : Reply) (w : World) → world_of (on_reply reply w) ≡ w
  on_reply-world (future f) w = refl
  on_reply-world raised_stopped w = refl
  on_reply-world raised_type_error w = refl

  on_incoming_data-status :
      (host i : ℕ) (frame : Bytes) (w : World) (k : ℕ)
      → ((world_of (on_incoming_data compare_calls host i frame w)).hosts k).task_queue.status
        ≡ (w.hosts k).task_queue.status
  on_incoming_data-status host i frame w k =
      ap (λ x. (x.hosts k).task_queue.status)
        (on_reply-world (schedule_on_host compare_calls 0 (input_data i frame) host w).1
          (schedule_on_host compare_calls 0 (input_data i frame) host w).0)
      ∙ elim (Bool-cases (host == k)) [
        | inl here ↦ rw here (
            schedule_delayed-status compare_calls 0 0 (input_data i frame) (w.hosts host).task_queue
            ∙ ap (λ j. (w.hosts j).task_queue.status) ((==_iff host k).0 here))
        | inr elsewhere ↦ rw elsewhere refl
      ]

  accept-reply :
      (o : Outcome (Entry HostCall)) (s : Executor HostCall Value)
      → (accept compare_calls o s).1 ≢ raised_stopped
  accept-reply (returned q) s e = cc
  accept-reply (Heapq.type_error q) s e = cc

  schedule_on-reply :
      (st : Status) (c : HostCall) (s : Executor HostCall Value)
      → st ≡ running
      → (schedule_on compare_calls st 0 0 c s).1 ≢ raised_stopped
  schedule_on-reply running c s runs = accept-reply _ s
  schedule_on-reply Executor.stopped c s runs = cc
  schedule_on-reply stopped_sync c s runs = cc

  on_reply-stopped :
      (reply : Reply) (w w' : World)
      → on_reply reply w ≡ raised w' Ran.stopped
      → reply ≡ raised_stopped
  on_reply-stopped (future f) w w' h = cc
  on_reply-stopped raised_stopped w w' h = refl
  on_reply-stopped raised_type_error w w' h = cc

  on_incoming_data-accepts :
      (host i : ℕ) (frame : Bytes) (w w' : World)
      → (w.hosts host).task_queue.status ≡ running
      → on_incoming_data compare_calls host i frame w ≢ raised w' Ran.stopped
  unfolding schedule_delayed
  on_incoming_data-accepts host i frame w w' runs h =
      schedule_on-reply (w.hosts host).task_queue.status (input_data i frame)
        (w.hosts host).task_queue runs (on_reply-stopped _ _ w' h)

  HostsAccept-later :
      (ports : List Port) (w w₁ : World)
      → ((k : ℕ) → (w₁.hosts k).task_queue.status ≡ (w.hosts k).task_queue.status)
      → HostsAccept ports w
      → HostsAccept ports w₁
  HostsAccept-later [] w w₁ same a = tt
  HostsAccept-later ((i, host) ∷ ports) w w₁ same (runs, a) =
      (same host ∙ runs, HostsAccept-later ports w w₁ same a)

  -- If each host with an interface on the bus accepts calls, the bus forwards a frame without the
  -- exception Stopped.
  pub forward-accepts :
      (ports : List Port) (netif_from : ℕ) (frame : Bytes) (w w' : World)
      → HostsAccept ports w
      → forward (subscribers compare_calls ports) netif_from frame w ≢ raised w' Ran.stopped
  forward-accepts [] netif_from frame w w' a h = cc
  forward-accepts ((i, host) ∷ ports) netif_from frame w w' (runs, a) h =
      elim (Bool-cases (i == netif_from)) [
        | inl sender ↦ forward-accepts ports netif_from frame w w' a (rw (sender, forward) at h)
        | inr other ↦
            let s = rw (other, forward) at h in
            elim (and_then-raised (on_incoming_data compare_calls host i frame w) _ w' _ s) [
              | inl here ↦ on_incoming_data-accepts host i frame w w' runs here
              | inr (u, w₁, e, later) ↦
                  let kept : (k : ℕ)
                      → (w₁.hosts k).task_queue.status ≡ (w.hosts k).task_queue.status =
                    λ k.
                      sym (
                        ap (λ (r : Ran World (Unit {0})). ((world_of r).hosts k).task_queue.status)
                          e)
                      ∙ on_incoming_data-status host i frame w k in
                  forward-accepts ports netif_from frame w₁ w' (HostsAccept-later ports w w₁ kept a)
                    later
            ]
      ]
