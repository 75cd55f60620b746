-- ===== src/Stack/UdpSocket/Pbufs.antt =====
-- Which exceptions the socket raises.
use py_lwip.Prelude.{ℕ, zero, suc, ◌≢◌, Option, none, some}
use py_lwip.Prelude.Int.{ℤ, pos, negsuc}
use py_lwip.Prelude.Ran.{allocation_error, Ran, done, raised, and_then}
use py_lwip.Stack.Lwip.{Bytes, Ip4, Lwip}
use py_lwip.Stack.Allocator.{uint16, contents, take_transport, allocate_transport_pbuf_from_data}
use py_lwip.Stack.UdpSocket.{UdpSocket, check, bind_at, bind_pcb, bind, send_to, end_address}
use py_lwip.Utility.Address.{Str}

-- The call does not raise AllocationError.
pub record NoAllocationError {L A : Type 0} (r : Ran L A) : Type 0 where
  pub not_raised : (w : L) → r ≢ raised w allocation_error

module _ {L : Type 0} where
  done-NoAllocationError : {A : Type 0} (w : L) (a : A) → NoAllocationError (done w a)
  done-NoAllocationError w a = record { not_raised = λ w' e. cc }

  check-NoAllocationError : (r : L × ℤ) → NoAllocationError (check r)
  check-NoAllocationError (w, pos zero) = record { not_raised = λ w' e. cc }
  check-NoAllocationError (w, pos (suc n)) = record { not_raised = λ w' e. cc }
  check-NoAllocationError (w, negsuc n) = record { not_raised = λ w' e. cc }

  and_then-NoAllocationError :
      {A B : Type 0} (r : Ran L A) (next : A → L → Ran L B)
      → NoAllocationError r
      → ((a : A) (w : L) → NoAllocationError (next a w))
      → NoAllocationError (and_then r next)
  and_then-NoAllocationError (done w a) next this rest = rest a w
  and_then-NoAllocationError (raised w x) next this rest = record {
    not_raised = λ w' e. this.not_raised w' cc;
  }

  contents-NoAllocationError : (r : L × Option ℕ) → NoAllocationError (contents r)
  contents-NoAllocationError (w, none) = record { not_raised = λ w' e. cc }
  contents-NoAllocationError (w, some pbuf) = done-NoAllocationError w pbuf

module _ {L : Type 0} (lwip : Lwip L) where
  bind_at-NoAllocationError :
      (address : Option (Option Ip4)) (pcb port socket_id : ℕ) (w : L)
      → NoAllocationError (bind_at lwip address pcb port socket_id w)
  bind_at-NoAllocationError none pcb port socket_id w = record { not_raised = λ w' e. cc }
  bind_at-NoAllocationError (some address) pcb port socket_id w =
      and_then-NoAllocationError (check (lwip.udp_bind pcb address (uint16 port) w)) _
        (check-NoAllocationError _) (λ a w'. done-NoAllocationError _ tt)

  bind_pcb-NoAllocationError :
      (socket_id : ℕ) (address : Str) (port : ℕ) (socket : UdpSocket L) (r : Ran L ℕ)
      → NoAllocationError r
      → NoAllocationError (bind_pcb lwip socket_id address port socket r).1
  bind_pcb-NoAllocationError socket_id address port socket (raised w x) h = record {
    not_raised = λ w' e. h.not_raised w' cc;
  }
  bind_pcb-NoAllocationError socket_id address port socket (done w pcb) h =
      bind_at-NoAllocationError (end_address address) pcb port socket_id w

  transport-NoAllocationError :
      (bytes : Bytes) (n : ℕ) (r : L × Option ℕ) → NoAllocationError (take_transport lwip bytes n r)
  transport-NoAllocationError bytes n (w, p) =
      contents-NoAllocationError ((lwip.pbuf_take p bytes (uint16 n) w).0, p)

  -- Neither bind nor send_to raises AllocationError, whatever the library answers: NULL raises
  -- ValueError before, and the structures that the tests look at are always true.
  pub bind-send_to-NoAllocationError :
      (socket_id : ℕ) (address : Str) (ip : Ip4) (bytes : Bytes) (port : ℕ) (socket : UdpSocket L)
      (w : L)
      → NoAllocationError (bind lwip socket_id address port socket w).1
        × NoAllocationError (send_to lwip socket bytes ip port w)
  bind-send_to-NoAllocationError socket_id address ip bytes port socket w = (
    bind_pcb-NoAllocationError socket_id address port socket _
        (contents-NoAllocationError (lwip.udp_new_ip_type 0 w)),
    and_then-NoAllocationError (allocate_transport_pbuf_from_data lwip bytes none w) _
        (transport-NoAllocationError bytes _ _)
        (λ a w'. check-NoAllocationError (lwip.udp_sendto socket.pcb a ip (uint16 port) w')),
  )
