-- ===== src/Emulation/Network/Traffic/Forwarded.antt =====
-- What forwarding a frame does to the task queue of one host.
use mathlib.Core.Path.{subst}
use py_lwip.Prelude.{
  ℕ, ◌+◌, ◌≡◌, refl, sym, ap, Bool, true, false, List, [], ◌∷◌, ◌==◌, if◌then◌else◌, inl, inr,
  Bool-cases, ==_iff, arith,
}
use py_lwip.Prelude.Totals.{total}
use py_lwip.Prelude.Ran.{done, and_then-done}
use py_lwip.Scheduler.Task.{Compared}
use py_lwip.Scheduler.Executor
use py_lwip.Scheduler.Executor.{
  Executor, Status, running, stopped_sync, future, schedule_delayed, schedule_on,
}
use py_lwip.Scheduler.Executor.Valid.{IsValid}
use py_lwip.Scheduler.Executor.Client.{schedule_delayed-IsValid}
use py_lwip.Scheduler.Executor.Events.{schedule_call}
use py_lwip.Scheduler.Executor.Held.{total_held, accepted_at, schedule_delayed-held}
use py_lwip.Scheduler.Executor.Uncancelled.{NoneCancelled, step-NoneCancelled}
use py_lwip.Stack.Lwip.{Bytes}
use py_lwip.Emulation.EthernetBus.{Value, forward}
use py_lwip.Emulation.Host.{HostCall, input_data, World, on_incoming_data, schedule_on_host}
use py_lwip.Emulation.Network.Delivery.{Port, expected, one_if, subscribers, on_reply-done}

module _ (compare_calls : HostCall → HostCall → Compared) (weight : HostCall → ℕ) where
  -- A sound executor whose calls weigh `n` together.
  pub record Holds (n : ℕ) (s : Executor HostCall Value) : Type 0 where
    pub valid : IsValid s
    pub uncancelled : NoneCancelled s
    pub weighs : total_held weight s ≡ n

  Holds-eq : (n m : ℕ) (s : Executor HostCall Value) → n ≡ m → Holds n s → Holds m s
  Holds-eq n m s same held = subst (λ x. Holds x s) same held

  accepted_at-future :
      (st : Status) (c : HostCall) (s : Executor HostCall Value) (f : ℕ)
      → (schedule_on compare_calls st 0 0 c s).1 ≡ future f
      → accepted_at st c ≡ c ∷ []
  accepted_at-future running c s f h = refl
  accepted_at-future Executor.stopped c s f h = cc
  accepted_at-future stopped_sync c s f h = cc

  schedule_delayed-Holds :
      (c : HostCall) (s : Executor HostCall Value) (f n : ℕ)
      → (schedule_delayed compare_calls 0 0 c s).1 ≡ future f
      → Holds n s
      → Holds (n + weight c) (schedule_delayed compare_calls 0 0 c s).0
  unfolding schedule_delayed
  schedule_delayed-Holds c s f n h held = record {
    valid = schedule_delayed-IsValid compare_calls 0 0 c s held.valid;
    uncancelled = step-NoneCancelled compare_calls (schedule_call 0 0 c) s tt held.uncancelled;
    weighs = omega (
      arith,
      held.weighs,
      schedule_delayed-held compare_calls weight 0 0 c s,
      ap (total weight) (accepted_at-future s.status c s f h),
    );
  }

  incoming-Holds :
      (host i : ℕ) (frame : Bytes) (w w' : World) (k n : ℕ)
      → on_incoming_data compare_calls host i frame w ≡ done w' tt
      → Holds n (w.hosts k).task_queue
      → Holds (n + total weight (one_if (host == k) (input_data i frame))) (w'.hosts k).task_queue
  incoming-Holds host i frame w w' k n h held =
      let (w₁, reply) = schedule_on_host compare_calls 0 (input_data i frame) host w in
      let (f, same, e) = on_reply-done compare_calls reply w₁ w' h in
      subst
        (λ x.
          Holds (n + total weight (one_if (host == k) (input_data i frame))) (x.hosts k).task_queue)
        same
        (elim (Bool-cases (host == k)) [
          | inl here ↦ rw here (
              Holds-eq (n + weight (input_data i frame)) _ _ (omega arith) (
                schedule_delayed-Holds (input_data i frame) (w.hosts host).task_queue f n e (
                  subst (λ j. Holds n (w.hosts j).task_queue) (sym ((==_iff host k).0 here)) held)))
          | inr elsewhere ↦ rw elsewhere (Holds-eq n _ _ (omega arith) held)
        ])

  one_more :
      (here : Bool) (c : HostCall) (xs : List HostCall) (n : ℕ)
      → n + total weight (one_if here c) + total weight xs
        ≡ n + total weight (if here then c ∷ xs else xs)
  one_more true c xs n = omega arith
  one_more false c xs n = omega arith

  -- A frame that is forwarded without an exception brings a host the calls that are expected.
  pub forward-Holds :
      (ports : List Port) (netif_from : ℕ) (frame : Bytes) (w w' : World) (k n : ℕ)
      → forward (subscribers compare_calls ports) netif_from frame w ≡ done w' tt
      → Holds n (w.hosts k).task_queue
      → Holds (n + total weight (expected ports netif_from frame k)) (w'.hosts k).task_queue
  forward-Holds [] netif_from frame w w' k n h held =
      let same : w ≡ w' = cc in
      subst (λ x. Holds (n + 0) (x.hosts k).task_queue) same (Holds-eq n _ _ (omega arith) held)
  forward-Holds ((i, host) ∷ ports) netif_from frame w w' k n h held =
      elim (Bool-cases (i == netif_from)) [
        | inl sender ↦
            rw sender
              (forward-Holds ports netif_from frame w w' k n (rw (sender, forward) at h) held)
        | inr other ↦
            let s = rw (other, forward) at h in
            let (u, w₁, here, rest) =
              and_then-done (on_incoming_data compare_calls host i frame w) _ w' tt s in
            let more = incoming-Holds host i frame w w₁ k n here held in
            rw other (
              Holds-eq _ _ _
                (one_more (host == k) (input_data i frame) (expected ports netif_from frame k) n)
                (forward-Holds ports netif_from frame w₁ w' k _ rest more))
      ]
