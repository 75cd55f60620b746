-- ===== src/Stack/UdpSocket/Owned.antt =====
-- The packet buffers that the calls of a socket take and give back.
use mathlib.Core.Path.{subst}
use mathlib.Core.List.Perm
use mathlib.Core.List.{Mem, Perm, perm_middle}
use py_lwip.Prelude.{
  ℕ, zero, suc, ◌≡◌, refl, sym, ap, ◌∙◌, Option, none, some, List, [], ◌∷◌, ◌++◌, append_assoc,
  length-append, length, arith,
}
use py_lwip.Prelude.Int.{ℤ, pos, negsuc}
use py_lwip.Prelude.Ran.{Ran, done, and_then, and_then-done}
use py_lwip.Stack.Lwip.{Bytes, Ip4, Lwip}
use py_lwip.Stack.Allocator.{
  size_or_length, uint16, take_transport, allocate_transport_pbuf_from_data,
}
use py_lwip.Stack.UdpSocket.{UdpSocket, RxCallback, check, send_to, call_rx, recv_callback}

-- What the documentation of lwIP says of the references to packet buffers that the program holds:
-- pbuf_alloc gives it one to the chain that it returns, and only pbuf_free takes that back, of the
-- chain that it is given. pbuf_take copies, and udp_sendto does not deallocate what it sends.
pub record Owns {L : Type 0} (lwip : Lwip L) (owned : L → List ℕ) : Type 0 where
  pub allocates :
      (layer size kind : ℕ) (w : L) (pbuf : ℕ)
      → (lwip.pbuf_alloc layer size kind w).1 ≡ some pbuf
      → owned (lwip.pbuf_alloc layer size kind w).0 ≡ pbuf ∷ owned w
  pub takes :
      (pbuf : Option ℕ) (bytes : Bytes) (size : ℕ) (w : L)
      → owned (lwip.pbuf_take pbuf bytes size w).0 ≡ owned w
  pub sends :
      (pcb : Option ℕ) (pbuf : ℕ) (ip : Ip4) (port : ℕ) (w : L)
      → owned (lwip.udp_sendto pcb pbuf ip port w).0 ≡ owned w
  pub frees :
      (pbuf : ℕ) (w : L)
      → Mem pbuf (owned w)
      → Perm (owned w) (pbuf ∷ owned (lwip.pbuf_free pbuf w).0)

pub record Datagram : Type 0 where
  pub chunk : Bytes
  pub ip_address : Ip4
  pub port : ℕ

-- How a client answers what it receives.
abbrev pub Replies : Type 0
Replies = Bytes → Ip4 → (port : ℕ) → List Datagram

abbrev pub replies_to : Option Replies → Bytes → Ip4 → ℕ → List Datagram
replies_to none chunk addr port = []
replies_to (some replies) chunk addr port = replies chunk addr port

module _ {L : Type 0} (lwip : Lwip L) where
  -- One call of send_to after the other.
  abbrev pub send_all : UdpSocket L → List Datagram → L → Ran L (Unit {0})
  send_all socket [] w = done w tt
  send_all socket (d ∷ ds) w =
      and_then (send_to lwip socket d.chunk d.ip_address d.port w) λ _ w₁. send_all socket ds w₁

  -- The callback that sends the replies through a socket.
  abbrev pub reply_callback : UdpSocket L → Option Replies → Option (RxCallback L)
  reply_callback sender none = none
  reply_callback sender (some replies) =
      some (λ chunk addr port w. send_all sender (replies chunk addr port) w)

check-done : {L : Type 0} (r : L × ℤ) (w : L) → check r ≡ done w tt → r.0 ≡ w
check-done (w', pos zero) w h = cc
check-done (w', pos (suc n)) w h = cc
check-done (w', negsuc n) w h = cc

module _ {L : Type 0} (lwip : Lwip L) (owned : L → List ℕ) (owns : Owns lwip owned) where
  -- As many buffers more as n.
  abbrev pub More : ℕ → List ℕ → List ℕ → Type 0
  More n before after = (new : List ℕ) × (length new ≡ n) × (after ≡ new ++ before)

  taken-owned :
      (bytes : Bytes) (n : ℕ) (w w' : L) (r : L × Option ℕ) (pbuf : ℕ)
      → ((p : ℕ) → r.1 ≡ some p → owned r.0 ≡ p ∷ owned w)
      → take_transport lwip bytes n r ≡ done w' pbuf
      → owned w' ≡ pbuf ∷ owned w
  taken-owned bytes n w w' (w₁, none) pbuf gives h = cc
  taken-owned bytes n w w' (w₁, some p) pbuf gives h =
      let kept = owns.takes (some p) bytes (uint16 n) w₁ ∙ gives p refl in cc

  send_to-owned :
      (socket : UdpSocket L) (d : Datagram) (w w' : L)
      → send_to lwip socket d.chunk d.ip_address d.port w ≡ done w' tt
      → (pbuf : ℕ) × (owned w' ≡ pbuf ∷ owned w)
  send_to-owned socket d w w' h =
      let (pbuf, w₁, allocated, sent) =
        and_then-done (allocate_transport_pbuf_from_data lwip d.chunk none w) _ w' tt h in
      let taken =
        taken-owned d.chunk _ w w₁ _ pbuf
          (λ p e. owns.allocates 74 (uint16 (size_or_length none d.chunk)) 640 w p e) allocated in
      (
        pbuf,
        ap owned (
              sym (
                check-done (lwip.udp_sendto socket.pcb pbuf d.ip_address (uint16 d.port) w₁) w'
                  sent))
            ∙ owns.sends socket.pcb pbuf d.ip_address (uint16 d.port) w₁
            ∙ taken,
      )

  -- Calls of send_to that all succeed leave the program with as many more packet buffers to free:
  -- each of them keeps the one that it takes.
  pub send_all-owned :
      (socket : UdpSocket L) (ds : List Datagram) (w w' : L)
      → send_all lwip socket ds w ≡ done w' tt
      → More (length ds) (owned w) (owned w')
  send_all-owned socket [] w w' h = ([], refl, cc)
  send_all-owned socket (d ∷ ds) w w' h =
      let (_, w₁, first, rest) =
        and_then-done (send_to lwip socket d.chunk d.ip_address d.port w) _ w' tt h in
      let (pbuf, one) = send_to-owned socket d w w₁ first in
      let (new, many, later) = send_all-owned socket ds w₁ w' rest in
      (
        new ++ pbuf ∷ [],
        omega (arith, length-append new (pbuf ∷ [])),
        later ∙ ap (λ l. new ++ l) one ∙ sym (append_assoc new (pbuf ∷ []) (owned w)),
      )

  call_replies-owned :
      (sender : UdpSocket L) (replies : Option Replies) (chunk : Bytes) (addr : Ip4) (port : ℕ)
      (w w' : L)
      → call_rx lwip (reply_callback lwip sender replies) chunk addr port w ≡ done w' tt
      → More (length (replies_to replies chunk addr port)) (owned w) (owned w')
  call_replies-owned sender none chunk addr port w w' h = ([], refl, cc)
  call_replies-owned sender (some replies) chunk addr port w w' h =
      send_all-owned sender (replies chunk addr port) w w' h

  -- A received packet buffer, which the program then holds, has been given back when the client has
  -- answered with any calls of send_to that succeed: what the program holds is what it held without
  -- that buffer, and one buffer for each answer. The answers are those to the payload that the
  -- buffer had when it came.
  pub recv_callback-owned :
      (pcb : Option ℕ) (sender : UdpSocket L) (replies : Option Replies) (pbuf : ℕ) (addr : Ip4)
      (port : ℕ) (w w' : L)
      → Mem pbuf (owned w)
      → recv_callback lwip
          (record { pcb = pcb; rx_callback = reply_callback lwip sender replies })
          pbuf
          addr
          port
          w
        ≡ done w' tt
      → (new : List ℕ) × (length new ≡ length (replies_to replies (lwip.payload w pbuf) addr port))
        × Perm (pbuf ∷ owned w') (new ++ owned w)
  recv_callback-owned pcb sender replies pbuf addr port w w' m h =
      let w₁ = (lwip.pbuf_free pbuf w).0 in
      let (new, many, after) =
        call_replies-owned sender replies (lwip.payload w pbuf) addr port w₁ w' h in
      let moved =
        Perm.trans (Perm.symm (perm_middle new (owned w₁)))
          (Perm.append_left new (Perm.symm (owns.frees pbuf w m))) in
      (new, many, subst (λ l. Perm (pbuf ∷ l) (new ++ owned w)) (sym after) moved)
