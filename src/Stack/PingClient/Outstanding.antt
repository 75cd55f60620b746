-- ===== src/Stack/PingClient/Outstanding.antt =====
-- The pings of one library are one outstanding ping, the last.
use mathlib.Core.Path.{subst}
use py_lwip.Prelude.{
  ℕ, ◌≡◌, refl, sym, ap, Bool, not, Option, none, some, List, [], ◌∷◌, ◌==◌, arith,
}
use py_lwip.Stack.PingClient.{
  Callback, Pings, no_pings, PingEvent, pings, result_arrives, ping, ping_result, deliver_result,
  call_back, ping_callback_internal, ping_step, run_pings,
}

-- The abstract machine: the callback of the last ping, if its result has not come yet.
pub record OnePing : Type 0 where
  pub outstanding : Option Callback
  pub answered : List (Callback × Bool)

abbrev pub answer : Option Callback → ℕ → OnePing → OnePing
answer none result o = record o { outstanding = none }
answer (some callback) result o = record {
  outstanding = none;
  answered = (callback, not (result == 0)) ∷ o.answered;
}

abbrev pub one_step : PingEvent → OnePing → OnePing
one_step (pings client callback) o = record o { outstanding = callback }
one_step (result_arrives result) o = answer o.outstanding result o

abbrev pub run_one : List PingEvent → OnePing → OnePing
run_one [] o = o
run_one (e ∷ es) o = run_one es (one_step e o)

-- The outstanding callback is that of the client in the slot.
abbrev pub current : Pings → Option ℕ → Option Callback
current s none = none
current s (some client) = s.ping_callback client

pub record Implements (s : Pings) (o : OnePing) : Type 0 where
  pub outstanding : o.outstanding ≡ current s s.ping_cbk
  pub answered : o.answered ≡ s.called

call_back-Implements :
    (client result : ℕ) (callback : Option Callback) (s : Pings) (o : OnePing)
    → o.answered ≡ s.called
    → s.ping_cbk ≡ none
    → Implements (call_back client result callback s) (answer callback result o)
call_back-Implements client result none s o same empty = record {
  outstanding = rw empty;
  answered = same;
}
call_back-Implements client result (some callback) s o same empty = record {
  outstanding = rw empty;
  answered = ap (λ l. (callback, not (result == 0)) ∷ l) same;
}

deliver_result-Implements :
    (slot : Option ℕ) (result : ℕ) (s : Pings) (o : OnePing)
    → s.ping_cbk ≡ slot
    → o.outstanding ≡ current s slot
    → o.answered ≡ s.called
    → Implements (deliver_result slot result s) (answer o.outstanding result o)
unfolding ping_callback_internal
deliver_result-Implements none result s o slot out same =
    rw out (record { outstanding = rw slot; answered = same })
deliver_result-Implements (some client) result s o slot out same =
    subst (λ x. Implements (deliver_result (some client) result s) (answer x result o)) (sym out)
      (call_back-Implements client result (s.ping_callback client) (record s { ping_cbk = none }) o
        same refl)

ping_step-Implements :
    (e : PingEvent) (s : Pings) (o : OnePing)
    → Implements s o
    → Implements (ping_step e s) (one_step e o)
unfolding ping ping_result
ping_step-Implements (pings client callback) s o v = record {
  outstanding = ground arith;
  answered = v.answered;
}
ping_step-Implements (result_arrives result) s o v =
    deliver_result-Implements s.ping_cbk result s o refl v.outstanding v.answered

run_pings-Implements :
    (es : List PingEvent) (s : Pings) (o : OnePing)
    → Implements s o
    → Implements (run_pings es s) (run_one es o)
run_pings-Implements [] s o v = v
run_pings-Implements (e ∷ es) s o v =
    run_pings-Implements es (ping_step e s) (one_step e o) (ping_step-Implements e s o v)

-- Whatever clients ping in whatever order, the callbacks that the results of the library call are
-- those of a machine that remembers only the callback of the last ping, and forgets it with the
-- first result: a callback is called at most once for a ping, and never after a later ping, also
-- one of another client.
pub run_pings_lem :
    (es : List PingEvent)
    → (run_pings es no_pings).called
      ≡ (run_one es (record { outstanding = none; answered = [] })).answered
run_pings_lem es =
    let v =
      run_pings-Implements es no_pings (record { outstanding = none; answered = [] })
        (record { outstanding = refl; answered = refl }) in
    sym v.answered
