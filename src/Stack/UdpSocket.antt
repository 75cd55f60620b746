-- ===== src/Stack/UdpSocket.antt =====
-- UdpSocket of lwip_py/stack/udp_socket.py.
pub mod Pbufs
pub mod Owned
use py_lwip.Prelude.{if◌then◌else◌, ℕ, zero, suc, ◌≡◌, Option, none, some, List, [], ◌∷◌}
use py_lwip.Prelude.Int.{ℤ, pos, negsuc}
use py_lwip.Prelude.Ran.{
  Exception, value_error, allocation_error, stack_exception, Ran, done, raised, and_then,
}
use py_lwip.Prelude.Truth.{truth, structure}
use py_lwip.Stack.Lwip.{Bytes, Ip4, Lwip}
use py_lwip.Stack.Address.{ip_v4_addr}
use py_lwip.Stack.Allocator.{uint16, contents, allocate_transport_pbuf_from_data, free_pbuf}
use py_lwip.Utility.Address.{Str}

-- The client's function for received data, which may call the library.
abbrev pub RxCallback : Type 0 → Type 0
RxCallback L = Bytes → Ip4 → (port : ℕ) → L → Ran L (Unit {0})

pub record UdpSocket (L : Type 0) : Type 0 where
  pub pcb : Option ℕ
  pub rx_callback : Option (RxCallback L)

-- `''` and None stand for any address.
abbrev pub end_address : Str → Option (Option Ip4)
end_address [] = some none
end_address (c ∷ cs) = elim (ip_v4_addr (c ∷ cs)) [ none ↦ none | some a ↦ some (some a) ]

module _ {L : Type 0} where
  abbrev pub new_socket : UdpSocket L
  new_socket = record { pcb = none; rx_callback = none }

  abbrev pub set_recv_callback : Option (RxCallback L) → UdpSocket L → UdpSocket L
  set_recv_callback callback socket = record socket { rx_callback = callback }

  -- An error code that is not 0 raises StackException.
  abbrev pub check : L × ℤ → Ran L (Unit {0})
  check (w, pos zero) = done w tt
  check (w, pos (suc n)) = raised w (stack_exception (pos (suc n)))
  check (w, negsuc n) = raised w (stack_exception (negsuc n))

module _ {L : Type 0} (lwip : Lwip L) where
  abbrev bind_at : Option (Option Ip4) → (pcb port socket_id : ℕ) → L → Ran L (Unit {0})
  bind_at none pcb port socket_id w = raised w value_error
  bind_at (some address) pcb port socket_id w =
      and_then (check (lwip.udp_bind pcb address (uint16 port) w))
        (λ _ w'. done (lwip.udp_recv pcb socket_id w') tt)

  -- The control block is the socket's before anything else is tried.
  abbrev bind_pcb :
      (socket_id : ℕ) → Str → ℕ → UdpSocket L → Ran L ℕ → UdpSocket L × Ran L (Unit {0})
  bind_pcb socket_id address port socket (raised w x) = (socket, raised w x)
  bind_pcb socket_id address port socket (done w pcb) = (
    record socket { pcb = some pcb },
    if truth structure pcb
        then bind_at (end_address address) pcb port socket_id w
        else raised w allocation_error,
  )

  abbrev pub bind :
      (socket_id : ℕ) → Str → (port : ℕ) → UdpSocket L → L → UdpSocket L × Ran L (Unit {0})
  bind socket_id address port socket w =
      bind_pcb socket_id address port socket (contents (lwip.udp_new_ip_type 0 w))

  abbrev pub send_to : UdpSocket L → Bytes → Ip4 → (port : ℕ) → L → Ran L (Unit {0})
  send_to socket chunk ip_address port w =
      and_then (allocate_transport_pbuf_from_data lwip chunk none w) (λ pbuf w'.
        if truth structure pbuf
        then check (lwip.udp_sendto socket.pcb pbuf ip_address (uint16 port) w')
        else raised w' allocation_error)

  abbrev pub call_rx : Option (RxCallback L) → Bytes → Ip4 → ℕ → L → Ran L (Unit {0})
  call_rx none chunk addr port w = done w tt
  call_rx (some callback) chunk addr port w = callback chunk addr port w

  -- `_recv_callback`: the payload is copied before its pbuf is freed.
  abbrev pub recv_callback : UdpSocket L → (pbuf : ℕ) → Ip4 → (port : ℕ) → L → Ran L (Unit {0})
  recv_callback socket pbuf addr port w =
      let chunk = lwip.payload w pbuf in
      call_rx socket.rx_callback chunk addr port (free_pbuf lwip pbuf w).0
