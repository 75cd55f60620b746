-- ===== src/Scheduler/Future.antt =====
-- concurrent.futures.Future of Python's standard library, as scheduler.py uses it: the state of one
-- future and its changes.
use py_lwip.Prelude.{Bool, true, false, Option, none, some}

-- What an action ends with: its result or the exception that it raised.
pub data Completion (V : Type 0) : Type 0 where
  result : V → Completion V
  exception : V → Completion V

pub data FutureState (V : Type 0) : Type 0 where
  pending running cancelled cancelled_and_notified : FutureState V
  finished : Completion V → FutureState V

module _ {V : Type 0} where
  abbrev pub is_cancelled : FutureState V → Bool
  is_cancelled cancelled = true
  is_cancelled cancelled_and_notified = true
  is_cancelled _ = false

  -- Future.cancel: only a future that does not run yet is cancelled.
  abbrev pub cancel : FutureState V → FutureState V
  cancel pending = cancelled
  cancel other = other

  -- `none` is the exception for a future in an unexpected state.
  abbrev pub set_running_or_notify_cancel : FutureState V → Option (FutureState V)
  set_running_or_notify_cancel pending = some running
  set_running_or_notify_cancel cancelled = some cancelled_and_notified
  set_running_or_notify_cancel _ = none

  -- set_result and set_exception; `none` is InvalidStateError.
  abbrev pub complete : Completion V → FutureState V → Option (FutureState V)
  complete c pending = some (finished c)
  complete c running = some (finished c)
  complete c _ = none

  -- The future waits for its turn.
  abbrev pub IsWaiting : FutureState V → Type 0
  IsWaiting pending = Unit
  IsWaiting cancelled = Unit
  IsWaiting _ = ⊥

  -- The future has its last state.
  abbrev pub IsSettled : FutureState V → Type 0
  IsSettled cancelled_and_notified = Unit
  IsSettled (finished c) = Unit
  IsSettled _ = ⊥

  pub IsWaiting-prop : (st : FutureState V) → IsProp (IsWaiting st)
  IsWaiting-prop pending = hlevel
  IsWaiting-prop running = hlevel
  IsWaiting-prop cancelled = hlevel
  IsWaiting-prop cancelled_and_notified = hlevel
  IsWaiting-prop (finished c) = hlevel
