-- ===== src/ShortUrlCache.antt =====
-- shorturl/short_url_cache.{h,cpp}: `ShortUrlCache` and `OriginBudgetGuard`. The state is the one
-- of the process-wide instance. What Redis answers to a call is an argument, and the commands that
-- the call sends are part of its result; the steady clock, the wall clock and the random draws are
-- arguments too. Metrics are left out. The model is the build with redis++.
pub mod RedisValue
pub mod OriginBudget
pub mod Replies
mod Tests
use RedisValue.{
  LookupValue, CacheStatus, hit, expired, miss, not_found, filtered, unavailable, overload,
  encode_redis_value, interpret_redis_payload,
}
use cpp_url_shortener.LocalUrlCache
use cpp_url_shortener.LocalUrlCache.{Status, at_least, wrap_int}
use cpp_url_shortener.BloomFilter
use cpp_url_shortener.SingleFlight
use cpp_url_shortener.Common.{
  ℕ, zero, suc, ◌+◌, Bool, true, false, not, ◌&&◌, Option, none, some, List, [], ◌∷◌, ◌++◌, ltb,
  leb, if◌then◌else◌, Bytes, codes, ℤ, pos, negsuc,
}

pub record ShortUrlCache : Type 0 where
  pub enabled : Bool
  pub redis_available : Bool
  pub bloom_ready : Bool
  pub bloom_hard_filter : Bool
  pub ttl_seconds : ℕ
  pub ttl_jitter_seconds : ℕ
  pub bloom_bits : ℕ
  pub bloom_hashes : ℕ
  pub redis_probe_interval_ms : ℕ
  pub origin_redirect_max : ℕ
  pub origin_create_max : ℕ
  pub origin_redirect_inflight : ℤ
  pub origin_create_inflight : ℤ
  pub bloom : BloomFilter.BloomFilter
  pub singleflight : SingleFlight.SingleFlight
  pub local_cache : LocalUrlCache.LocalUrlCache
  pub probe_stop : Bool
  pub probe_running : Bool
  -- whether `redis_` holds a client
  pub redis : Bool

-- The constructor; `LocalUrlCache` configures itself in its own, with the arguments given here.
abbrev pub new_cache : LocalUrlCache.LocalUrlCache → ShortUrlCache
new_cache local_cache = record {
  enabled = false;
  redis_available = false;
  bloom_ready = false;
  bloom_hard_filter = false;
  ttl_seconds = 3600;
  ttl_jitter_seconds = 300;
  bloom_bits = 1048576;
  bloom_hashes = 7;
  redis_probe_interval_ms = 1000;
  origin_redirect_max = 64;
  origin_create_max = 32;
  origin_redirect_inflight = pos 0;
  origin_create_inflight = pos 0;
  bloom = BloomFilter.new_filter;
  singleflight = SingleFlight.new_flights;
  local_cache = local_cache;
  probe_stop = false;
  probe_running = false;
  redis = false;
}

-- The fields of `Config` that `init` reads.
pub record Config : Type 0 where
  pub redis_enabled : Bool
  pub bloom_hard_filter : Bool
  pub cache_ttl_seconds : ℤ
  pub cache_ttl_jitter_seconds : ℤ
  pub bloom_bits : ℤ
  pub bloom_hashes : ℤ
  pub redis_probe_interval_ms : ℤ
  pub origin_redirect_max_concurrent : ℤ
  pub origin_create_max_concurrent : ℤ
  pub local_cache_shards : ℤ
  pub local_positive_bytes : ℤ
  pub local_negative_bytes : ℤ
  pub local_negative_ttl_seconds : ℤ
  pub singleflight_max_inflight : ℤ
  pub singleflight_max_waiters_per_key : ℤ

-- Stops the probe thread and waits for it.
unfoldable pub shutdown : ShortUrlCache → ShortUrlCache
shutdown c = record c { probe_stop = true; probe_running = false }

unfoldable pub ensure_probe_started : ShortUrlCache → ShortUrlCache
ensure_probe_started c =
    if not c.enabled
    then c
    else if c.probe_running
    then c
    else record c { probe_running = true; probe_stop = false }

-- The section of `init` under the lock.
unfoldable pub init_fields : Config → ShortUrlCache → ShortUrlCache
init_fields config c =
    let ttl = at_least 1 config.cache_ttl_seconds in
    let jitter = at_least 0 config.cache_ttl_jitter_seconds in
    let bits = at_least 8 config.bloom_bits in
    let hashes = at_least 1 config.bloom_hashes in
    record c {
      enabled = config.redis_enabled;
      redis_available = false;
      bloom_ready = false;
      bloom_hard_filter = config.bloom_hard_filter;
      ttl_seconds = ttl;
      ttl_jitter_seconds = jitter;
      bloom_bits = bits;
      bloom_hashes = hashes;
      redis_probe_interval_ms = at_least 100 config.redis_probe_interval_ms;
      origin_redirect_max = at_least 1 config.origin_redirect_max_concurrent;
      origin_create_max = at_least 1 config.origin_create_max_concurrent;
      origin_redirect_inflight = pos 0;
      origin_create_inflight = pos 0;
      bloom = BloomFilter.reset bits hashes;
      probe_stop = false;
      local_cache =
          LocalUrlCache.configure (at_least 1 config.local_cache_shards)
            (at_least 1024 config.local_positive_bytes) (at_least 1024 config.local_negative_bytes)
            (pos ttl) (pos jitter) (pos (at_least 1 config.local_negative_ttl_seconds));
      singleflight =
          SingleFlight.configure (at_least 1 config.singleflight_max_inflight)
            (at_least 1 config.singleflight_max_waiters_per_key) c.singleflight;
      redis = false;
    }

-- How the start of the client ends.
pub data Boot : Type 0 where
  client_failed ping_failed ping_answered : Boot

unfoldable pub init : Config → Boot → ShortUrlCache → ShortUrlCache
init config boot c =
    let c = init_fields config (shutdown c) in
    if not c.enabled then c else elim boot [
      | client_failed ↦ record c { redis = false; redis_available = false }
      | ping_failed ↦ ensure_probe_started (record c { redis = true; redis_available = false })
      | ping_answered ↦ record c { redis = true; redis_available = true }
    ]

unfoldable pub status_of : Status → CacheStatus
status_of (Status.hit view) = hit (record { long_url = view.long_url; expire_at = view.expire_at })
status_of (Status.expired view) =
    expired (record { long_url = view.long_url; expire_at = view.expire_at })
status_of Status.neg_hit = not_found
status_of Status.miss = miss

unfoldable pub get_local : ℕ → Bytes → Bytes → ShortUrlCache → CacheStatus × ShortUrlCache
get_local now wall code c =
    let (status, after) = LocalUrlCache.get now wall code c.local_cache in
    (status_of status, record c { local_cache = after })

-- Whether the snapshot holds a client.
unfoldable pub redis_snapshot : ShortUrlCache → Bool
redis_snapshot c = c.redis_available && c.redis

unfoldable pub mark_redis_unavailable : ShortUrlCache → ShortUrlCache
mark_redis_unavailable c = ensure_probe_started (record c { redis_available = false })

unfoldable pub restore_redis_available : ShortUrlCache → ShortUrlCache
restore_redis_available c = record c { redis_available = true }

-- One round of the loop of `probe_loop`, with whether the server answers the ping.
unfoldable pub probe_round : Bool → ShortUrlCache → ShortUrlCache
probe_round answers c =
    if c.probe_stop
    then record c { probe_running = false }
    else if c.redis_available
    then c
    else if not c.redis
    then c
    else if answers
    then restore_redis_available c
    else c

unfoldable pub cache_key : Bytes → Bytes
cache_key code = codes "shorturl:" ++ code

-- A Redis call throws, or answers.
pub data Reply (A : Type 0) : Type 0 where
  failed : Reply A
  answered : A → Reply A

pub data Command : Type 0 where
  redis_get : Bytes → Command
  redis_del : Bytes → Command
  redis_setex : Bytes → ℤ → Bytes → Command

-- The call and what is made of its reply. A failing `del` of an expired mapping changes nothing,
-- so its reply is no argument.
unfoldable pub read_reply :
    Bytes
    → Reply (Option Bytes)
    → Bytes
    → ShortUrlCache
    → CacheStatus × ShortUrlCache × List Command
read_reply wall failed code c =
    (unavailable, mark_redis_unavailable c, redis_get (cache_key code) ∷ [])
read_reply wall (answered none) code c = (miss, c, redis_get (cache_key code) ∷ [])
read_reply wall (answered (some raw)) code c = elim (interpret_redis_payload wall raw) [
  | expired value ↦ (expired value, c, redis_get (cache_key code) ∷ redis_del (cache_key code) ∷ [])
  | hit value ↦ (hit value, c, redis_get (cache_key code) ∷ [])
  | other ↦ (miss, c, redis_get (cache_key code) ∷ [])
]

-- `redis` is what the server would answer to a `get`, by its key.
unfoldable pub get_redis :
    Bytes
    → (Bytes → Reply (Option Bytes))
    → Bytes
    → ShortUrlCache
    → CacheStatus × ShortUrlCache × List Command
get_redis wall redis code c =
    if not c.enabled
    then (unavailable, c, [])
    else if not (redis_snapshot c)
    then (unavailable, ensure_probe_started c, [])
    else read_reply wall (redis (cache_key code)) code c

unfoldable pub put_local_positive : ℕ → ℕ → Bytes → Bytes → Bytes → ShortUrlCache → ShortUrlCache
put_local_positive now drawn code long_url expire_at c = record c {
  local_cache = LocalUrlCache.put_positive now drawn code long_url expire_at c.local_cache;
}

unfoldable pub put_local_negative : ℕ → Bytes → ShortUrlCache → ShortUrlCache
put_local_negative now code c = record c {
  local_cache = LocalUrlCache.put_negative now code c.local_cache;
}

unfoldable pub erase_local : Bytes → ShortUrlCache → ShortUrlCache
erase_local code c = record c { local_cache = LocalUrlCache.erase_code code c.local_cache }

unfoldable pub add_legal_code : Bytes → ShortUrlCache → ShortUrlCache
add_legal_code code c = record c { bloom = BloomFilter.add code c.bloom }

unfoldable pub bloom_might_contain : Bytes → ShortUrlCache → Bool
bloom_might_contain code c = BloomFilter.might_contain code c.bloom

-- `drawn` is what the distribution over 0 to the jitter returns.
unfoldable pub ttl_with_jitter : ℕ → ShortUrlCache → ℤ
ttl_with_jitter drawn c =
    if leb c.ttl_jitter_seconds 0 then pos c.ttl_seconds else wrap_int (c.ttl_seconds + drawn)

-- What a call that writes meets: the steady clock, two draws, and whether Redis takes the write.
pub record Writing : Type 0 where
  pub now : ℕ
  pub local_draw : ℕ
  pub redis_draw : ℕ
  pub redis_answers : Bool

-- The second halves of `set` and `erase`: one command, if there is a client for it.
unfoldable pub send_command : Bool → Command → ShortUrlCache → Bool × ShortUrlCache × List Command
send_command answers command c =
    if not c.enabled
    then (false, c, [])
    else if not (redis_snapshot c)
    then (false, ensure_probe_started c, [])
    else if answers
    then (true, c, command ∷ [])
    else (false, mark_redis_unavailable c, command ∷ [])

unfoldable pub set :
    Writing → Bytes → Bytes → Bytes → ShortUrlCache → Bool × ShortUrlCache × List Command
set w code long_url expire_at c =
    let c = put_local_positive w.now w.local_draw code long_url expire_at (add_legal_code code c) in
    let command =
      redis_setex (cache_key code) (ttl_with_jitter w.redis_draw c)
        (encode_redis_value long_url expire_at) in
    send_command w.redis_answers command c

unfoldable pub erase_code : Bool → Bytes → ShortUrlCache → Bool × ShortUrlCache × List Command
erase_code redis_answers code c =
    send_command redis_answers (redis_del (cache_key code)) (erase_local code c)

-- `warmup`, from what the query for the codes gave; `none` is no connection or an error.
unfoldable pub add_codes : List Bytes → BloomFilter.BloomFilter → BloomFilter.BloomFilter
add_codes [] f = f
add_codes (code ∷ rest) f = add_codes rest (BloomFilter.add code f)

unfoldable pub warmup : Option (List Bytes) → ShortUrlCache → Bool × ShortUrlCache
warmup none c = (false, c)
warmup (some active_codes) c =
    (true, record c { bloom = add_codes active_codes c.bloom; bloom_ready = true })

-- The origin budgets.
pub data OriginKind : Type 0 where
  origin_redirect origin_create : OriginKind

-- `has_cache` says that the pointer is not null.
pub record OriginBudgetGuard : Type 0 where
  pub has_cache : Bool
  pub kind : OriginKind
  pub held : Bool

abbrev pub max_slots : OriginKind → ShortUrlCache → ℕ
max_slots origin_redirect c = c.origin_redirect_max
max_slots origin_create c = c.origin_create_max

abbrev pub inflight : OriginKind → ShortUrlCache → ℤ
inflight origin_redirect c = c.origin_redirect_inflight
inflight origin_create c = c.origin_create_inflight

abbrev pub with_inflight : OriginKind → ℤ → ShortUrlCache → ShortUrlCache
with_inflight origin_redirect n c = record c { origin_redirect_inflight = n }
with_inflight origin_create n c = record c { origin_create_inflight = n }

abbrev pub one_more : ℤ → ℤ
one_more (pos n) = pos (suc n)
one_more (negsuc zero) = pos 0
one_more (negsuc (suc n)) = negsuc n

abbrev pub one_less : ℤ → ℤ
one_less (pos zero) = negsuc 0
one_less (pos (suc n)) = pos n
one_less (negsuc n) = negsuc (suc n)

-- `cur < max_slots`
abbrev pub below_slots : ℤ → ℕ → Bool
below_slots (pos n) m = ltb n m
below_slots (negsuc n) m = true

-- The loop, up to the exchange that succeeds or the count that is too large: one step on the
-- counter, since the exchange saw the count that it replaces.
unfoldable pub exchange_origin : OriginKind → ShortUrlCache → OriginBudgetGuard × ShortUrlCache
exchange_origin kind c =
    if below_slots (inflight kind c) (max_slots kind c)
    then (
      record { has_cache = true; kind = kind; held = true },
      with_inflight kind (one_more (inflight kind c)) c,
    )
    else (record { has_cache = false; kind = kind; held = false }, c)

-- `up` is what the load of `redis_available_` gave, which is a step before that of the loop.
unfoldable pub try_acquire_origin :
    Bool → OriginKind → ShortUrlCache → OriginBudgetGuard × ShortUrlCache
try_acquire_origin up kind c =
    if up
    then (record { has_cache = false; kind = kind; held = false }, c)
    else exchange_origin kind c

unfoldable pub release_origin : OriginKind → ShortUrlCache → ShortUrlCache
release_origin kind c = with_inflight kind (one_less (inflight kind c)) c

-- `~OriginBudgetGuard`
unfoldable pub drop_guard : OriginBudgetGuard → ShortUrlCache → ShortUrlCache
drop_guard g c = if g.held && g.has_cache then release_origin g.kind c else c

-- The move constructor: the new guard, and what is left of the old one.
unfoldable pub move_guard : OriginBudgetGuard → OriginBudgetGuard × OriginBudgetGuard
move_guard g = (g, record g { held = false; has_cache = false })
