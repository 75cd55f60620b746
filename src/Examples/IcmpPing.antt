-- ===== src/Examples/IcmpPing.antt =====
-- _PingApp of lwip_py/examples/examples.py: applications that each ping from one host, through
-- ping clients of their own that share the library of the host.
pub mod Overtaken
use py_lwip.Prelude.{ℕ, Bool, false, true, some, List, [], ◌∷◌, map, ◌==◌, if◌then◌else◌}
use py_lwip.Stack.PingClient.{
  Callback, Pings, no_pings, PingEvent, pings, result_arrives, run_pings,
}

pub record PingApp : Type 0 where
  pub completion : Bool

abbrev pub new_ping_app : PingApp
new_ping_app = record { completion = false }

-- `_on_ping_result`, whatever the result.
abbrev pub on_ping_result : (ping_result : Bool) → PingApp → PingApp
on_ping_result ping_result app = record app { completion = true }

-- `ping`: a new client, whose callback is the app's bound method; both have the app's identity.
abbrev pub ping_from : (app : ℕ) → PingEvent
ping_from app = pings app (some app)

-- An app after the calls of callbacks, of which the last is first.
abbrev pub app_after : (app : ℕ) → List (Callback × Bool) → PingApp
app_after app [] = new_ping_app
app_after app ((callback, ping_result) ∷ calls) =
    let before = app_after app calls in
    if callback == app then on_ping_result ping_result before else before

-- One app pings and then another, before there is a result; then results come.
abbrev pub two_apps : ℕ → ℕ → (results : List ℕ) → Pings
two_apps first second results =
    run_pings (ping_from first ∷ ping_from second ∷ map result_arrives results) no_pings
