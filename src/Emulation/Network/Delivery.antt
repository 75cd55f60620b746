-- ===== src/Emulation/Network/Delivery.antt =====
-- Frames that the bus forwards come to the task queues of the hosts.
use mathlib.Core.Path.{subst}
use mathlib.Core.List.{Perm, perm_middle}
use mathlib.Core.List.Perm
use py_lwip.Prelude.{
  ℕ, ◌≡◌, refl, Bool, true, false, List, [], ◌∷◌, ◌++◌, map, ◌==◌, if◌then◌else◌, inl, inr,
  Bool-cases, ==_iff,
}
use py_lwip.Prelude.Ran.{done, and_then-done}
use py_lwip.Heapq.{Outcome, returned, items}
use py_lwip.Heapq
use py_lwip.Scheduler.Task.{Compared, Task, Entry}
use py_lwip.Scheduler.Queue.{schedule_task, get_tasks}
use py_lwip.Scheduler.Queue.Errors.{schedule_task-perm}
use py_lwip.Scheduler.Executor
use py_lwip.Scheduler.Executor.{
  Executor, Status, running, stopped_sync, Reply, future, raised_stopped, raised_type_error,
  schedule_delayed, schedule_on, accept, new_task, update,
}
use py_lwip.Emulation.EthernetBus.{Value, Subscriber, forward}
use py_lwip.Emulation.Host.{
  HostCall, input_data, World, on_reply, on_incoming_data, schedule_on_host,
}
use py_lwip.Emulation.Network.{subscriber}
use py_lwip.Stack.Lwip.{Bytes}

-- The calls that wait in an executor, and those that wait for a host.
abbrev pub waiting_calls : Executor HostCall Value → List HostCall
waiting_calls s = map (λ t. t.call) (get_tasks s.tasks)

abbrev pub calls_of : World → ℕ → List HostCall
calls_of w k = waiting_calls (w.hosts k).task_queue

-- An interface on the bus with its host.
abbrev pub Port : Type 0
Port = ℕ × ℕ

-- What a frame from an interface puts in for a host: a call for each of the host's interfaces on
-- the bus, but for the sender.
abbrev pub expected : List Port → (netif_from : ℕ) → Bytes → ℕ → List HostCall
expected [] netif_from frame k = []
expected ((i, host) ∷ ports) netif_from frame k =
    let rest = expected ports netif_from frame k in
    if i == netif_from then rest else if host == k then input_data i frame ∷ rest else rest

abbrev pub one_if : Bool → HostCall → List HostCall
one_if here c = if here then c ∷ [] else []

module _ (compare_calls : HostCall → HostCall → Compared) where
  abbrev pub subscribers : List Port → List (Subscriber World Bytes)
  subscribers ports = map (λ p. subscriber compare_calls p.0 p.1) ports

  added-calls :
      (s : Executor HostCall Value) (t : Task HostCall) (o : Outcome (Entry HostCall))
      → schedule_task compare_calls s.tasks t ≡ o
      → Perm (map (λ u. u.call) (get_tasks (items o))) (t.call ∷ waiting_calls s)
  added-calls s t o e =
      Perm.map (λ u. u.call)
        (subst (λ o'. Perm (get_tasks (items o')) (t ∷ get_tasks s.tasks)) e
          (schedule_task-perm compare_calls s.tasks t))

  accept-calls :
      (c : HostCall) (delay priority : ℕ) (s : Executor HostCall Value)
      (o : Outcome (Entry HostCall))
      → schedule_task compare_calls s.tasks (new_task delay priority c s) ≡ o
      → Perm (waiting_calls (accept compare_calls o s).0) (c ∷ waiting_calls s)
  accept-calls c delay priority s (returned q) e = added-calls s _ (returned q) e
  accept-calls c delay priority s (Heapq.type_error q) e = added-calls s _ (Heapq.type_error q) e

  schedule_on-calls :
      (st : Status) (c : HostCall) (delay priority : ℕ) (s : Executor HostCall Value) (f : ℕ)
      → (schedule_on compare_calls st delay priority c s).1 ≡ future f
      → Perm
          (waiting_calls (schedule_on compare_calls st delay priority c s).0)
          (c ∷ waiting_calls s)
  schedule_on-calls running c delay priority s f h = accept-calls c delay priority s _ refl
  schedule_on-calls Executor.stopped c delay priority s f h = cc
  schedule_on-calls stopped_sync c delay priority s f h = cc

  schedule_delayed-calls :
      (c : HostCall) (delay priority : ℕ) (s : Executor HostCall Value) (f : ℕ)
      → (schedule_delayed compare_calls delay priority c s).1 ≡ future f
      → Perm
          (waiting_calls (schedule_delayed compare_calls delay priority c s).0)
          (c ∷ waiting_calls s)
  unfolding schedule_delayed
  schedule_delayed-calls c delay priority s f h = schedule_on-calls s.status c delay priority s f h

  pub on_reply-done :
      (reply : Reply) (w w' : World)
      → on_reply reply w ≡ done w' tt
      → (f : ℕ) × (w ≡ w') × (reply ≡ future f)
  on_reply-done (future f) w w' h = (f, cc, refl)
  on_reply-done raised_stopped w w' h = cc
  on_reply-done raised_type_error w w' h = cc

  on_incoming_data-calls :
      (host i : ℕ) (frame : Bytes) (w w' : World) (k : ℕ)
      → on_incoming_data compare_calls host i frame w ≡ done w' tt
      → Perm (calls_of w' k) (one_if (host == k) (input_data i frame) ++ calls_of w k)
  on_incoming_data-calls host i frame w w' k h =
      let (w₁, reply) = schedule_on_host compare_calls 0 (input_data i frame) host w in
      let after =
        (schedule_delayed compare_calls 0 0 (input_data i frame) (w.hosts host).task_queue).0 in
      let (f, same, e) = on_reply-done reply w₁ w' h in
      let more = schedule_delayed-calls (input_data i frame) 0 0 (w.hosts host).task_queue f e in
      subst (λ x. Perm (calls_of x k) (one_if (host == k) (input_data i frame) ++ calls_of w k))
        same
        (elim (Bool-cases (host == k)) [
          | inl here ↦ rw here (
              subst (λ j. Perm (waiting_calls after) (input_data i frame ∷ calls_of w j))
                ((==_iff host k).0 here) more)
          | inr elsewhere ↦ rw elsewhere (Perm.refl (calls_of w k))
        ])

  one_more :
      (here : Bool) (c : HostCall) (xs now before : List HostCall) (mid : List HostCall)
      → Perm now (xs ++ mid)
      → Perm mid (one_if here c ++ before)
      → Perm now ((if here then c ∷ xs else xs) ++ before)
  one_more true c xs now before mid p q =
      Perm.trans p (Perm.trans (Perm.append_left xs q) (perm_middle xs before))
  one_more false c xs now before mid p q = Perm.trans p (Perm.append_left xs q)

  -- When the bus has forwarded a frame without an exception, each host has one more waiting call for
  -- each of its interfaces on the bus but the sender, and no other call has come or gone.
  pub forward-calls :
      (ports : List Port) (netif_from : ℕ) (frame : Bytes) (w w' : World) (k : ℕ)
      → forward (subscribers ports) netif_from frame w ≡ done w' tt
      → Perm (calls_of w' k) (expected ports netif_from frame k ++ calls_of w k)
  forward-calls [] netif_from frame w w' k h =
      let same : w ≡ w' = cc in
      subst (λ x. Perm (calls_of x k) (calls_of w k)) same (Perm.refl (calls_of w k))
  forward-calls ((i, host) ∷ ports) netif_from frame w w' k h =
      elim (Bool-cases (i == netif_from)) [
        | inl sender ↦
            let s = rw (sender, forward) at h in
            rw sender (forward-calls ports netif_from frame w w' k s)
        | inr other ↦
            let s = rw (other, forward) at h in
            let (u, w₁, here, rest) =
              and_then-done (on_incoming_data compare_calls host i frame w) _ w' tt s in
            rw other (
              one_more (host == k) (input_data i frame) (expected ports netif_from frame k) _ _
                (calls_of w₁ k) (forward-calls ports netif_from frame w₁ w' k rest)
                (on_incoming_data-calls host i frame w w₁ k here))
      ]
