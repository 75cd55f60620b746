-- ===== src/Examples/UdpPingPong.antt =====
-- _UdpPingPongApp of lwip_py/examples/examples.py: two peers that send a counter to each other.
pub mod Completion
use py_lwip.Prelude.{
  ℕ, zero, suc, ◌+◌, ◌*◌, ◌/◌, ◌%◌, Bool, true, false, ◌||◌, Option, none, some, List, [], ◌∷◌,
  ◌==◌, ltb, if◌then◌else◌,
}
use py_lwip.Stack.Lwip.{Bytes}

pub record PingPongApp : Type 0 where
  pub max_counter : ℕ
  pub completed : Bool

abbrev pub new_app : ℕ → PingPongApp
new_app max_counter = record { max_counter = max_counter; completed = false }

-- `counter.to_bytes(4, 'big')`; `none` is OverflowError.
unfoldable pub to_bytes : ℕ → Option Bytes
to_bytes counter =
    if ltb counter 4294967296
    then some
        (counter / 16777216 ∷ counter / 65536 % 256 ∷ counter / 256 % 256 ∷ counter % 256 ∷ [])
    else none

-- `int.from_bytes(received, 'big')`, from the number read so far.
abbrev pub from_bytes_after : ℕ → Bytes → ℕ
from_bytes_after n [] = n
from_bytes_after n (b ∷ bs) = from_bytes_after (n * 256 + b) bs

unfoldable pub from_bytes : Bytes → ℕ
from_bytes received = from_bytes_after 0 received

-- `_receive_data` with the counter of the datagram: the app, and the counter that the host is told
-- to send back.
abbrev pub receive_counter : ℕ → PingPongApp → PingPongApp × Option ℕ
receive_counter counter app =
    if ltb counter app.max_counter
    then (
      record app { completed = app.completed || (counter + 1 == app.max_counter) },
      some (counter + 1),
    )
    else (record app { completed = true }, none)

abbrev pub receive_data : Bytes → PingPongApp → PingPongApp × Option ℕ
receive_data received app = receive_counter (from_bytes received) app

-- `_send_ping`: the datagram that goes out.
abbrev pub send_ping : Option ℕ → Option Bytes
send_ping none = none
send_ping (some counter) = to_bytes counter

-- The peer that gets the next datagram, the one that sent it, and the datagram, if there is one. No
-- datagram is lost.
pub record Exchange : Type 0 where
  pub receiver : PingPongApp
  pub sender : PingPongApp
  pub datagram : Option Bytes

abbrev pub deliver_to : Option Bytes → Exchange → Exchange
deliver_to none s = s
deliver_to (some received) s =
    let (app, reply) = receive_data received s.receiver in
    record { receiver = s.sender; sender = app; datagram = send_ping reply }

-- One datagram arrives; then the peers have changed roles.
unfoldable pub deliver : Exchange → Exchange
unfolding to_bytes from_bytes
deliver s = deliver_to s.datagram s

abbrev pub deliveries : ℕ → Exchange → Exchange
deliveries zero s = s
deliveries (suc n) s = deliveries n (deliver s)

-- `start_and_send_ping` of the second peer, with the first one started.
unfoldable pub start_and_send_ping : ℕ → Exchange
unfolding to_bytes
start_and_send_ping max_counter = record {
  receiver = new_app max_counter;
  sender = new_app max_counter;
  datagram = send_ping (some 1);
}
