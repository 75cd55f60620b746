-- ===== src/Stack/PingClient.antt =====
-- PingClient of lwip_py/stack/ping_client.py, with the callback slot of lwip_lib/src/ping_result.c
-- that all ping clients of one library share.
pub mod Outstanding
use py_lwip.Prelude.{
  ℕ, ◌≡◌, Bool, true, false, not, Option, none, some, List, [], ◌∷◌, ◌++◌, ◌==◌, if◌then◌else◌,
}
use py_lwip.Scheduler.Executor.{update}

-- A client of the pings: its callback, known by its identity.
abbrev pub Callback : Type 0
Callback = ℕ

-- `ping_cbk` is the client whose internal callback the library calls, or NULL; `ping_callback`
-- holds the callback of each client. `called` are the calls of callbacks so far, the last first.
pub record Pings : Type 0 where
  pub ping_cbk : Option ℕ
  pub ping_callback : ℕ → Option Callback
  pub called : List (Callback × Bool)

-- No client has pinged.
abbrev pub no_pings : Pings
no_pings = record { ping_cbk = none; ping_callback = λ c. none; called = [] }

abbrev pub set_ping_callback : Option ℕ → Pings → Pings
set_ping_callback callback s = record s { ping_cbk = callback }

-- `ping`, up to the request that the library sends. `Option` is the callback of the caller, which
-- may be None.
unfoldable pub ping : (client : ℕ) → Option Callback → Pings → Pings
ping client callback s =
    set_ping_callback (some client)
      (record s { ping_callback = update s.ping_callback client callback })

abbrev pub call_back : ℕ → (ping_result : ℕ) → Option Callback → Pings → Pings
call_back client ping_result none s = s
call_back client ping_result (some callback) s = record s {
  ping_callback = update s.ping_callback client none;
  called = (callback, not (ping_result == 0)) ∷ s.called;
}

-- `_ping_callback_internal`.
unfoldable pub ping_callback_internal : (client ping_result : ℕ) → Pings → Pings
ping_callback_internal client ping_result s =
    call_back client ping_result (s.ping_callback client) (set_ping_callback none s)

abbrev pub deliver_result : Option ℕ → ℕ → Pings → Pings
deliver_result none result s = s
deliver_result (some client) result s = ping_callback_internal client result s

-- `ping_result` of the library, for a result of 8 bits.
unfoldable pub ping_result : ℕ → Pings → Pings
unfolding ping_callback_internal
ping_result result s = deliver_result s.ping_cbk result s

-- What happens to the pings: some client pings, or the library has a result.
pub data PingEvent : Type 0 where
  pings : (client : ℕ) → Option Callback → PingEvent
  result_arrives : ℕ → PingEvent

abbrev pub ping_step : PingEvent → Pings → Pings
ping_step (pings client callback) s = ping client callback s
ping_step (result_arrives result) s = ping_result result s

abbrev pub run_pings : List PingEvent → Pings → Pings
run_pings [] s = s
run_pings (e ∷ es) s = run_pings es (ping_step e s)
