-- ===== src/Stack/Tests.antt =====
-- The theorems about pings and sockets, with a small library.
pub mod Interfaces
pub mod Buffers
pub mod Texts
pub mod Makers
use mathlib.Core.List.Perm
use mathlib.Core.List.{Mem, Perm, not-mem-nil, mem-cons_self, mem_of_ne_of_mem}
use py_lwip.Prelude.{
  Bool, false, ◌≢◌, length, ◌++◌, inl, inr, Bool-cases, ==_iff, swap, ℕ, suc, ◌+◌, ◌-◌, ◌≡◌, refl,
  true, none, some, List, [], ◌∷◌, ◌==◌, if◌then◌else◌, arith,
}
use py_lwip.Prelude.Int.{pos}
use py_lwip.Prelude.Ran.{done}
use py_lwip.Stack.Lwip.{Lwip}
use py_lwip.Stack.PingClient.{
  PingEvent, no_pings, pings, result_arrives, ping, ping_result, ping_callback_internal, run_pings,
}
use py_lwip.Stack.PingClient.Outstanding.{run_pings_lem, run_one}
use py_lwip.Stack.UdpSocket.{new_socket, bind, send_to}
use py_lwip.Stack.UdpSocket.Pbufs.{NoAllocationError, bind-send_to-NoAllocationError}
use py_lwip.Stack.UdpSocket.Owned.{
  Owns, Datagram, Replies, More, send_all-owned, recv_callback-owned,
}

abbrev remove_first : ℕ → List ℕ → List ℕ
remove_first p [] = []
remove_first p (q ∷ qs) = let rest = remove_first p qs in if p == q then qs else q ∷ rest

ne-true : {b : Bool} → b ≡ false → b ≢ true
ne-true off on = cc

remove_first-perm : (p : ℕ) (w : List ℕ) → Mem p w → Perm w (p ∷ remove_first p w)
remove_first-perm p [] m = absurd (not-mem-nil m)
remove_first-perm p (q ∷ qs) m = elim (Bool-cases (p == q)) [
  | inl same ↦ rw (same, (==_iff p q).0 same) (Perm.refl (q ∷ qs))
  | inr other ↦
      let m₁ = mem_of_ne_of_mem (λ e. ne-true other ((==_iff p q).1 e)) m in
      rw other
        (Perm.trans (Perm.cons q (remove_first-perm p qs m₁)) (Perm.swap p q (remove_first p qs)))
]

-- Two clients ping, and two results come.
abbrev two_pings : List PingEvent
two_pings = pings 0 (some 5) ∷ pings 1 (some 6) ∷ result_arrives 1 ∷ result_arrives 0 ∷ []

-- The second ping alone is answered.
second_answered : (run_pings two_pings no_pings).called ≡ (6, true) ∷ []
unfolding ping ping_result ping_callback_internal
second_answered = refl

run_pings_lem_example :
    (run_pings two_pings no_pings).called
    ≡ (run_one two_pings (record { outstanding = none; answered = [] })).answered
run_pings_lem_example = run_pings_lem two_pings

-- A library whose state is the packet buffers that the program holds, the newest first.
abbrev holding : Lwip (List ℕ)
holding = record {
  pbuf_alloc = λ layer size kind w. (length w ∷ w, some (length w));
  pbuf_take = λ pbuf bytes size w. (w, pos 0);
  pbuf_free = λ pbuf w. (remove_first pbuf w, 1);
  payload = λ w pbuf. pbuf ∷ [];
  udp_new_ip_type = λ kind w. (w, some 0);
  udp_bind = λ pcb ip port w. (w, pos 0);
  udp_recv = λ pcb client w. w;
  udp_sendto = λ pcb pbuf ip port w. (w, pos 0);
}

holding-Owns : Owns holding (λ w. w)
holding-Owns = record {
  allocates = λ layer size kind w pbuf e. cc;
  takes = λ pbuf bytes size w. refl;
  sends = λ pcb pbuf ip port w. refl;
  frees = λ pbuf w m. remove_first-perm pbuf w m;
}

bind-send_to-NoAllocationError_example :
    NoAllocationError (bind holding 0 [] 1000 new_socket (3 ∷ [])).1
    × NoAllocationError (send_to holding new_socket (1 ∷ []) 16909183 1000 (3 ∷ []))
bind-send_to-NoAllocationError_example =
    bind-send_to-NoAllocationError holding 0 [] 16909183 (1 ∷ []) 1000 new_socket (3 ∷ [])

abbrev datagram : Datagram
datagram = record { chunk = 1 ∷ []; ip_address = 16909183; port = 1000 }

send_all-owned_example : More holding (λ w. w) holding-Owns 2 (7 ∷ []) (2 ∷ 1 ∷ 7 ∷ [])
send_all-owned_example =
    send_all-owned holding (λ w. w) holding-Owns new_socket (datagram ∷ datagram ∷ []) (7 ∷ [])
      (2 ∷ 1 ∷ 7 ∷ []) refl

-- Each datagram is sent back.
abbrev echo : Replies
echo chunk addr port = record { chunk = chunk; ip_address = addr; port = port } ∷ []

recv_callback-owned_example :
    (new : List ℕ) × (length new ≡ 1) × Perm (7 ∷ 1 ∷ 8 ∷ []) (new ++ 7 ∷ 8 ∷ [])
recv_callback-owned_example =
    recv_callback-owned holding (λ w. w) holding-Owns none new_socket (some echo) 7 16909183 1000
      (7 ∷ 8 ∷ []) (1 ∷ 8 ∷ []) mem-cons_self refl
