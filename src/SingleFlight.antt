-- ===== src/SingleFlight.antt =====
-- shorturl/singleflight.{h,cpp}: `SingleFlight`. A call object is named by its place in the list
-- of all calls made so far; the map holds the calls in flight. Each section under a lock is one
-- step: `enter`, then `finish` and `leave` of the leader, or `share` of a waiter.
pub mod Bounds
mod Tests
use cpp_url_shortener.Common.{
  ℕ, ◌+◌, ◌-◌, Option, none, some, List, [], ◌∷◌, ◌++◌, leb, ◌==◌, if◌then◌else◌, length, get_or,
  set, Bytes, codes, find, erase, insert,
}

-- `SingleFlightResult`
pub data Kind : Type 0 where
  kind_hit kind_not_found kind_expired kind_error kind_overload : Kind

pub record Result : Type 0 where
  pub kind : Kind
  pub long_url : Bytes
  pub expire_at : Bytes
  pub error : Bytes

abbrev pub new_result : Result
new_result = record { kind = kind_error; long_url = []; expire_at = []; error = [] }

-- `done` with `result`: `some r` once the leader is done.
pub record Call : Type 0 where
  pub result : Option Result
  pub waiters : ℕ

abbrev pub new_call : Call
new_call = record { result = none; waiters = 0 }

pub record SingleFlight : Type 0 where
  pub max_inflight : ℕ
  pub max_waiters_per_key : ℕ
  pub inflight : List (Bytes × ℕ)
  pub calls : List Call

abbrev pub new_flights : SingleFlight
new_flights = record { max_inflight = 1024; max_waiters_per_key = 256; inflight = []; calls = [] }

unfoldable pub configure : ℕ → ℕ → SingleFlight → SingleFlight
configure max_inflight max_waiters_per_key s = record s {
  max_inflight = (if max_inflight == 0 then 1 else max_inflight);
  max_waiters_per_key = (if max_waiters_per_key == 0 then 1 else max_waiters_per_key);
}

unfoldable pub inflight_count : SingleFlight → ℕ
inflight_count s = length s.inflight

-- What the first section decides.
pub data Entry : Type 0 where
  leads : ℕ → Entry
  waits : ℕ → Entry
  overloaded : Result → Entry

abbrev pub overload : Bytes → Result
overload error = record new_result { kind = kind_overload; error = error }

abbrev pub call_at : SingleFlight → ℕ → Call
call_at s id = get_or s.calls id new_call

unfoldable pub enter : Bytes → SingleFlight → Entry × SingleFlight
enter key s = elim (find key s.inflight) [
  | some id ↦
      let call = call_at s id in
      if leb s.max_waiters_per_key call.waiters
      then (overloaded (overload (codes "singleflight waiters overflow")), s)
      else (
        waits id,
        record s { calls = set s.calls id (record call { waiters = call.waiters + 1 }) },
      )
  | none ↦
      if leb s.max_inflight (length s.inflight)
      then (overloaded (overload (codes "singleflight inflight overflow")), s)
      else (
        leads (length s.calls),
        record s {
          inflight = insert key (length s.calls) s.inflight;
          calls = s.calls ++ new_call ∷ [];
        },
      )
]

-- The leader's loader returned, or threw.
unfoldable pub loaded : Option Result → Result
loaded (some result) = result
loaded none = record new_result { error = codes "singleflight loader exception" }

unfoldable pub finish : ℕ → Option Result → SingleFlight → SingleFlight
finish id answer s = record s {
  calls = set s.calls id (record (call_at s id) { result = some (loaded answer) });
}

-- The leader takes its call out of the map, if the map still has it.
unfoldable pub leave : Bytes → ℕ → SingleFlight → SingleFlight
leave key id s = elim (find key s.inflight) [
  | some other ↦ if other == id then record s { inflight = erase key s.inflight } else s
  | none ↦ s
]

-- A waiter: blocked until the call is done, then it takes the result and leaves.
unfoldable pub share_result : ℕ → SingleFlight → Option Result → Option (Result × SingleFlight)
share_result id s none = none
share_result id s (some result) =
    let call = call_at s id in
    some (result, record s { calls = set s.calls id (record call { waiters = call.waiters - 1 }) })

unfoldable pub share : ℕ → SingleFlight → Option (Result × SingleFlight)
share id s = share_result id s (call_at s id).result
