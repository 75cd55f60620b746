-- ===== src/Examples/UdpPingPong/Completion.antt =====
-- Both peers of a ping-pong come to their end.
use mathlib.Core.Path.{subst}
use py_lwip.Prelude.{
  ℕ, zero, suc, ◌+◌, ◌/◌, ◌%◌, ◌≤◌, ◌<◌, ◌≡◌, refl, sym, ap, ◌∙◌, ◌⊎◌, inl, inr, true, none, some,
  [], ◌∷◌, arith,
}
use py_lwip.Stack.Lwip.{Bytes}
use py_lwip.Examples.UdpPingPong.{
  PingPongApp, to_bytes, from_bytes, receive_counter, send_ping, Exchange, deliver, deliveries,
  start_and_send_ping,
}

-- A counter comes back from the bytes that it is sent in.
counter_bytes : (c : ℕ) → c < 4294967296 → (b : Bytes) × (to_bytes c ≡ some b) × (from_bytes b ≡ c)
unfolding to_bytes from_bytes
counter_bytes c h =
    (c / 16777216 ∷ c / 65536 % 256 ∷ c / 256 % 256 ∷ c % 256 ∷ [], ground arith, omega arith)

-- A datagram with counter c is on its way between peers with the given maximum.
record Carries (c max : ℕ) (s : Exchange) : Type 0 where
  bytes : Bytes
  sent : s.datagram ≡ some bytes
  counter : from_bytes bytes ≡ c
  receiver_max : s.receiver.max_counter ≡ max
  sender_max : s.sender.max_counter ≡ max

-- No datagram is on its way, and both peers have completed.
abbrev pub AllDone : Exchange → Type 0
AllDone s = (s.datagram ≡ none) × (s.receiver.completed ≡ true) × (s.sender.completed ≡ true)

-- The exchange after a peer has got counter c.
abbrev after : ℕ → Exchange → Exchange
after c s = record {
  receiver = s.sender;
  sender = (receive_counter c s.receiver).0;
  datagram = send_ping (receive_counter c s.receiver).1;
}

deliver-after : (c max : ℕ) (s : Exchange) → Carries c max s → deliver s ≡ after c s
unfolding deliver
deliver-after c max s k = rw k.sent (ap (λ n. after n s) k.counter)

after-last :
    (c max : ℕ) (s : Exchange)
    → Carries c max s
    → c ≡ max
    → s.sender.completed ≡ true
    → AllDone (after c s)
after-last c max s k last completed =
    let m = k.receiver_max in (ground arith, completed, ground arith)

reply_more :
    (c : ℕ) (app : PingPongApp) → c < app.max_counter → (receive_counter c app).1 ≡ some (c + 1)
reply_more c app more = ground arith

receive_counter-max :
    (c : ℕ) (app : PingPongApp) → (receive_counter c app).0.max_counter ≡ app.max_counter
receive_counter-max c app = ground arith

after-Carries :
    (c max : ℕ) (s : Exchange)
    → Carries c max s
    → c < max
    → max < 4294967296
    → Carries (c + 1) max (after c s)
after-Carries c max s k more bound =
    let m = k.receiver_max in
    let (b, sent, read) = counter_bytes (c + 1) (omega arith) in
    record {
      bytes = b;
      sent = ap send_ping (reply_more c s.receiver (omega arith)) ∙ sent;
      counter = read;
      receiver_max = k.sender_max;
      sender_max = receive_counter-max c s.receiver ∙ m;
    }

-- The sender has completed by now, or has still a datagram to come.
after-sender :
    (c max : ℕ) (s : Exchange) → Carries c max s → c + 1 ≡ max → (after c s).sender.completed ≡ true
after-sender c max s k next = let m = k.receiver_max in ground arith

deliveries-AllDone :
    (k c max : ℕ) (s : Exchange)
    → Carries c max s
    → c + k ≡ max
    → max < 4294967296
    → (s.sender.completed ≡ true) ⊎ (1 ≤ k)
    → AllDone (deliveries (suc k) s)
deliveries-AllDone zero c max s v sum bound (inl completed) =
    subst AllDone (sym (deliver-after c max s v)) (after-last c max s v (omega arith) completed)
deliveries-AllDone zero c max s v sum bound (inr more) = elim more [ ]
deliveries-AllDone (suc zero) c max s v sum bound ready =
    subst (λ t. AllDone (deliveries 1 t)) (sym (deliver-after c max s v))
      (deliveries-AllDone zero (c + 1) max (after c s) (after-Carries c max s v (omega arith) bound)
        (omega arith) bound (inl (after-sender c max s v (omega arith))))
deliveries-AllDone (suc (suc k)) c max s v sum bound ready =
    subst (λ t. AllDone (deliveries (suc (suc k)) t)) (sym (deliver-after c max s v))
      (deliveries-AllDone (suc k) (c + 1) max (after c s)
        (after-Carries c max s v (omega arith) bound) (omega arith) bound (inr (omega arith)))

started :
    (k : ℕ) (b : Bytes)
    → to_bytes 1 ≡ some b
    → from_bytes b ≡ 1
    → Carries 1 (suc k) (start_and_send_ping (suc k))
unfolding start_and_send_ping
started k b sent read = record {
  bytes = b;
  sent = sent;
  counter = read;
  receiver_max = refl;
  sender_max = refl;
}

-- With a maximum of at least 2 that fits in 4 bytes, and no datagram lost, both peers have completed
-- when as many datagrams have arrived as the maximum says, and then none is on its way.
pub start_and_send_ping-AllDone :
    (max : ℕ) → 2 ≤ max → max < 4294967296 → AllDone (deliveries max (start_and_send_ping max))
start_and_send_ping-AllDone zero two bound = elim two [ ]
start_and_send_ping-AllDone (suc k) two bound =
    let (b, sent, read) = counter_bytes 1 (omega arith) in
    deliveries-AllDone k 1 (suc k) (start_and_send_ping (suc k)) (started k b sent read)
      (omega arith) bound (inr (omega arith))
