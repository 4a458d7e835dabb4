-- ===== src/SingleFlight/Tests.antt =====
-- Runs of single flight.
use cpp_url_shortener.SingleFlight.{
  Result, SingleFlight, new_flights, new_result, kind_hit, overloaded, overload, enter, finish,
  leave, share_result, share, configure, loaded,
}
use cpp_url_shortener.SingleFlight.Bounds.{enters, finishes, leaves, flight_step, flight_run}
use cpp_url_shortener.Common.{
  ◌≡◌, refl, Option, none, some, [], ◌∷◌, Bytes, codes, find, erase, insert,
}

program : Unit {0}
unfolding enter finish leave share_result share configure loaded flight_step flight_run find insert
    erase
program = tt

abbrev key : Bytes
key = codes "8m0Kx"

abbrev answer : Result
answer = record new_result { kind = kind_hit; long_url = codes "http://a" }

-- One leader and one waiter, of at most one waiter a key.
abbrev narrow : SingleFlight
narrow = record new_flights { max_waiters_per_key = 1 }

second_waiter :
    (enter key (flight_run (enters key ∷ enters key ∷ []) narrow)).0
    ≡ overloaded (overload (codes "singleflight waiters overflow"))
unfolding program
second_waiter = refl

result_of : Option (Result × SingleFlight) → Option Result
result_of none = none
result_of (some (r, s)) = some r

shared_answer :
    result_of (
      share 0 (
        flight_run (enters key ∷ enters key ∷ finishes 0 (some answer) ∷ leaves key 0 ∷ []) narrow))
    ≡ some answer
unfolding program result_of
shared_answer = refl
