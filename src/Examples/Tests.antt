-- ===== src/Examples/Tests.antt =====
-- A ping-pong up to 3.
pub mod Pings
use py_lwip.Prelude.{arith}
use py_lwip.Examples.UdpPingPong.{deliveries, start_and_send_ping}
use py_lwip.Examples.UdpPingPong.Completion.{AllDone, start_and_send_ping-AllDone}

start_and_send_ping-AllDone_example : AllDone (deliveries 3 (start_and_send_ping 3))
start_and_send_ping-AllDone_example = start_and_send_ping-AllDone 3 (omega arith) (omega arith)
