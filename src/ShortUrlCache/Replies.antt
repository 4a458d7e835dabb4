-- ===== src/ShortUrlCache/Replies.antt =====
-- What `ShortUrlCache` makes of Redis's replies, and when it stops asking.
use cpp_url_shortener.LocalUrlCache.{is_business_expired, wrap_int}
use cpp_url_shortener.ShortUrlCache
use cpp_url_shortener.ShortUrlCache.RedisValue.{
  LookupValue, CacheStatus, hit, expired, miss, not_found, filtered, unavailable, overload,
  encode_redis_value, decode_redis_value, interpret_redis_payload, decode_cases, interpret-encode,
  IsLine,
}
use cpp_url_shortener.ShortUrlCache.{
  Reply, failed, answered, Command, redis_get, redis_del, redis_setex, get_redis, read_reply, set,
  erase_code, send_command, redis_snapshot, mark_redis_unavailable, ensure_probe_started, cache_key,
  Writing, add_legal_code, put_local_positive, erase_local, ttl_with_jitter, probe_round,
  restore_redis_available,
}
use cpp_url_shortener.Common.{
  ℕ, ◌+◌, ◌%◌, ◌^◌, ◌≤◌, ◌<◌, ◌≡◌, refl, ap, ◌∙◌, ◌⊎◌, inl, inr, Bool, true, false, Option, none,
  some, List, [], ◌∷◌, ◌++◌, arith, ltb, leb, if◌then◌else◌, Bool-cases, Bytes, codes, ℤ, pos,
}

-- What an answer of `get_redis` means: a hit or an expired mapping is one that Redis holds in
-- the wire format, by its business time, and was asked for while Redis was up.
abbrev pub IsStored : Bytes → Reply (Option Bytes) → LookupValue → Bool → Type 0
IsStored wall reply v is_over =
    (reply ≡ answered (some (encode_redis_value v.long_url v.expire_at)))
    × (is_business_expired wall v.expire_at ≡ is_over)

abbrev pub Explains : Bytes → Reply (Option Bytes) → CacheStatus → Type 0
Explains wall reply (hit v) = IsStored wall reply v false
Explains wall reply (expired v) = IsStored wall reply v true
Explains wall reply miss =
    (reply ≡ answered none)
    ⊎ ((raw : Bytes) × (reply ≡ answered (some raw)) × (decode_redis_value raw ≡ none))
Explains wall reply unavailable = Unit {0}
Explains wall reply not_found = ⊥
Explains wall reply filtered = ⊥
Explains wall reply overload = ⊥

payload_lem :
    (wall raw : Bytes)
    → ((interpret_redis_payload wall raw ≡ miss) × (decode_redis_value raw ≡ none))
      ⊎ ((v : LookupValue) × (raw ≡ encode_redis_value v.long_url v.expire_at)
          × ((interpret_redis_payload wall raw ≡ hit v)
                × (is_business_expired wall v.expire_at ≡ false)
              ⊎ ((interpret_redis_payload wall raw ≡ expired v)
                  × (is_business_expired wall v.expire_at ≡ true))))
unfolding interpret_redis_payload
payload_lem wall raw = elim (decode_cases raw) [
  | inl e ↦ inl (rw (e, interpret_redis_payload), e)
  | inr (v, e, whole, is_line) ↦ inr (
    v,
    whole,
    elim (Bool-cases (is_business_expired wall v.expire_at)) [
      | inl over ↦ inr (rw (e, interpret_redis_payload, over), over)
      | inr runs ↦ inl (rw (e, interpret_redis_payload, runs), runs)
    ],
  )
]

read_reply-Explains :
    (wall : Bytes) (reply : Reply (Option Bytes)) (code : Bytes) (c : ShortUrlCache.ShortUrlCache)
    → Explains wall reply (read_reply wall reply code c).0
unfolding read_reply
read_reply-Explains wall failed code c = tt
read_reply-Explains wall (answered none) code c = inl refl
read_reply-Explains wall (answered (some raw)) code c = elim (payload_lem wall raw) [
  | inl (e, garbage) ↦ rw (e, read_reply) (inr (raw, refl, garbage))
  | inr (v, whole, inl (e, runs)) ↦ rw (e, read_reply) (ap (λ t. answered (some t)) whole, runs)
  | inr (v, whole, inr (e, over)) ↦ rw (e, read_reply) (ap (λ t. answered (some t)) whole, over)
]

-- A reply is trusted as far as it is in the wire format: `get_redis` answers a mapping only
-- where Redis holds its encoding under the key of the code, as expired exactly where its business time is over; it answers
-- a miss only where Redis has no value for the code or one that is no encoding.
pub get_redis-Explains :
    (wall : Bytes) (redis : Bytes → Reply (Option Bytes)) (code : Bytes)
    (c : ShortUrlCache.ShortUrlCache)
    → Explains wall (redis (codes "shorturl:" ++ code)) (get_redis wall redis code c).0
unfolding get_redis cache_key
get_redis-Explains wall redis code c = elim (Bool-cases c.enabled) [
  | inr off ↦ simp off tt
  | inl on ↦ elim (Bool-cases (redis_snapshot c)) [
    | inr down ↦ simp (on, down) tt
    | inl up ↦ simp (on, up) (read_reply-Explains wall (redis (codes "shorturl:" ++ code)) code c)
  ]
]

-- A call of Redis, with the reply that it would get.
pub data RedisCall : Type 0 where
  gets : Bytes → (Bytes → Reply (Option Bytes)) → Bytes → RedisCall
  sets : Writing → Bytes → Bytes → Bytes → RedisCall
  erases : Bool → Bytes → RedisCall

unfoldable pub call :
    RedisCall → ShortUrlCache.ShortUrlCache → ShortUrlCache.ShortUrlCache × List Command
call (gets wall redis code) c =
    let (_, after, commands) = get_redis wall redis code c in (after, commands)
call (sets w code long_url expire_at) c =
    let (_, after, commands) = set w code long_url expire_at c in (after, commands)
call (erases answers code) c =
    let (_, after, commands) = erase_code answers code c in (after, commands)

unfoldable pub commands_of : List RedisCall → ShortUrlCache.ShortUrlCache → List Command
commands_of [] c = []
commands_of (k ∷ calls) c = let (after, commands) = call k c in commands ++ commands_of calls after

call_down :
    (k : RedisCall) (c : ShortUrlCache.ShortUrlCache)
    → c.redis_available ≡ false
    → ((call k c).0.redis_available ≡ false) × ((call k c).1 ≡ [])
unfolding call get_redis set erase_code send_command redis_snapshot ensure_probe_started
    add_legal_code put_local_positive erase_local
call_down (gets wall redis code) c down = ground arith
call_down (sets w code long_url expire_at) c down = ground arith
call_down (erases answers code) c down = ground arith

commands_down :
    (calls : List RedisCall) (c : ShortUrlCache.ShortUrlCache)
    → c.redis_available ≡ false
    → commands_of calls c ≡ []
unfolding commands_of
commands_down [] c down = refl
commands_down (k ∷ calls) c down =
    let (still, silent) = call_down k c down in rw (silent, commands_down calls (call k c).0 still)

marked :
    (c : ShortUrlCache.ShortUrlCache)
    → c.enabled ≡ true
    → ((mark_redis_unavailable c).probe_running ≡ true)
      × ((mark_redis_unavailable c).redis_available ≡ false)
unfolding mark_redis_unavailable ensure_probe_started
marked c on = ground arith

get_redis_failed :
    (wall : Bytes) (redis : Bytes → Reply (Option Bytes)) (code : Bytes)
    (c : ShortUrlCache.ShortUrlCache)
    → c.enabled ≡ true
    → redis_snapshot c ≡ true
    → redis (cache_key code) ≡ failed
    → (get_redis wall redis code c).1 ≡ mark_redis_unavailable c
unfolding get_redis read_reply
get_redis_failed wall redis code c on up f = simp (on, up, f)

-- The calls to which Redis gives no answer.
abbrev pub Fails : RedisCall → Type 0
Fails (gets wall redis code) = redis (cache_key code) ≡ failed
Fails (sets w code long_url expire_at) = w.redis_answers ≡ false
Fails (erases answers code) = answers ≡ false

-- A failed call starts the probe, and leaves Redis down.
call_failed :
    (k : RedisCall) (c : ShortUrlCache.ShortUrlCache)
    → c.enabled ≡ true
    → redis_snapshot c ≡ true
    → Fails k
    → ((call k c).0.probe_running ≡ true) × ((call k c).0.redis_available ≡ false)
unfolding call set erase_code send_command add_legal_code put_local_positive erase_local
    redis_snapshot mark_redis_unavailable ensure_probe_started
call_failed (gets wall redis code) c on up f =
    rw (get_redis_failed wall redis code c on up f) (marked c on)
call_failed (sets w code long_url expire_at) c on up f = ground arith
call_failed (erases answers code) c on up f = ground arith

-- Once a call of `get_redis`, `set` or `erase` that Redis was asked for has failed, the probe
-- runs, and no later call of the three sends a command, whatever the calls are, until the probe
-- restores Redis.
pub failed_call_silences :
    (k : RedisCall) (c : ShortUrlCache.ShortUrlCache) (calls : List RedisCall)
    → c.enabled ≡ true
    → redis_snapshot c ≡ true
    → Fails k
    → ((call k c).0.probe_running ≡ true) × (commands_of calls (call k c).0 ≡ [])
failed_call_silences k c calls on up f =
    let (probing, down) = call_failed k c on up f in (probing, commands_down calls _ down)

sent_one :
    (answers : Bool) (command : Command) (c : ShortUrlCache.ShortUrlCache)
    → (send_command answers command c).0 ≡ true
    → (send_command answers command c).2 ≡ command ∷ []
unfolding send_command
sent_one answers command c sent = ground arith

-- The time that a command is given is at least the configured one.
ttl_lem :
    (drawn : ℕ) (c : ShortUrlCache.ShortUrlCache)
    → c.ttl_seconds + c.ttl_jitter_seconds < 2 ^ 31
    → drawn ≤ c.ttl_jitter_seconds
    → (ttl : ℕ) × (ttl_with_jitter drawn c ≡ pos ttl) × (c.ttl_seconds ≤ ttl)
unfolding ttl_with_jitter wrap_int
ttl_lem drawn c small within = elim (Bool-cases (leb c.ttl_jitter_seconds 0)) [
  | inl none_drawn ↦ (c.ttl_seconds, rw none_drawn refl, omega arith)
  | inr some_drawn ↦ (
    c.ttl_seconds + drawn,
    (let low : (c.ttl_seconds + drawn) % 2 ^ 32 ≡ c.ttl_seconds + drawn = omega arith in
        let fits : ltb (c.ttl_seconds + drawn) (2 ^ 31) ≡ true = ground arith in
        simp (some_drawn, low, fits) refl),
    omega arith,
  )
]

-- A `set` that returns true sent one command, which stores the mapping for at least the
-- configured time, where this and the largest jitter add up to an `int` and the draw is at most
-- the jitter; a reader of the stored text gets the mapping back, as expired exactly where its
-- business time is over.
pub set_stores :
    (w : Writing) (code long_url expire_at : Bytes) (c : ShortUrlCache.ShortUrlCache)
    → IsLine expire_at
    → c.ttl_seconds + c.ttl_jitter_seconds < 2 ^ 31
    → w.redis_draw ≤ c.ttl_jitter_seconds
    → (set w code long_url expire_at c).0 ≡ true
    → (ttl : ℕ) × (raw : Bytes) × ((set w code long_url expire_at c).2
        ≡ redis_setex (cache_key code) (pos ttl) raw ∷ [])
      × (c.ttl_seconds ≤ ttl)
      × ((wall : Bytes)
          → interpret_redis_payload wall raw ≡ (
              if is_business_expired wall expire_at
              then expired (record { long_url = long_url; expire_at = expire_at })
              else hit (record { long_url = long_url; expire_at = expire_at })))
unfolding set add_legal_code put_local_positive ttl_with_jitter
set_stores w code long_url expire_at c line small within sent =
    let (ttl, e, long) = ttl_lem w.redis_draw c small within in
    (
      ttl,
      encode_redis_value long_url expire_at,
      sent_one w.redis_answers _ _ sent
          ∙ ap
              (λ (t : ℤ).
                redis_setex (cache_key code) t (encode_redis_value long_url expire_at) ∷ [])
              e,
      long,
      (λ wall. interpret-encode wall long_url expire_at line),
    )
