-- ===== src/SingleFlight/Bounds.antt =====
-- The bounds of `SingleFlight` through every interleaving of its steps.
use cpp_url_shortener.SingleFlight.{Result, Call, SingleFlight, enter, finish, leave, share}
use cpp_url_shortener.Common.{ℕ, ◌≤◌, Option, none, some, List, [], ◌∷◌, length, All, Bytes}

-- A step of some thread: an entry with a key, or a section behind one.
pub data FlightOp : Type 0 where
  enters : Bytes → FlightOp
  finishes : ℕ → Option Result → FlightOp
  leaves : Bytes → ℕ → FlightOp
  shares : ℕ → FlightOp

-- A waiter that is still blocked changes nothing.
unfoldable pub flight_step : FlightOp → SingleFlight → SingleFlight
flight_step (enters key) s = (enter key s).1
flight_step (finishes id answer) s = finish id answer s
flight_step (leaves key id) s = leave key id s
flight_step (shares id) s = elim (share id s) [ none ↦ s | some (result, after) ↦ after ]

unfoldable pub flight_run : List FlightOp → SingleFlight → SingleFlight
flight_run [] s = s
flight_run (op ∷ ops) s = flight_run ops (flight_step op s)

-- At most so many keys are in flight, and at most so many threads wait on a call.
pub record IsBounded (s : SingleFlight) : Type 0 where
  pub keys : length s.inflight ≤ s.max_inflight
  pub waiters : All (λ (c : Call). c.waiters ≤ s.max_waiters_per_key) s.calls
