-- ===== src/LocalUrlCache.antt =====
-- shorturl/short_url_cache.{h,cpp}: `LocalUrlCache`. An operation locks one shard, so it is one
-- step on that shard. Its arguments hold what it reads from outside: the steady clock in
-- nanoseconds, the wall clock as the text of `now_datetime`, and the drawn jitter. `size_t`
-- arithmetic wraps at 2^64, that of `int` at 2^32.
pub mod Eviction
pub mod Invariant
pub mod Reads
pub mod Writes
pub mod Budget
pub mod History
pub mod Hits
mod Tests
use Eviction.{Table, empty_table, drop_found, drop_entry, store, add64}
use cpp_url_shortener.Common.{
  ℕ, ◌+◌, ◌-◌, ◌*◌, ◌/◌, ◌%◌, ◌^◌, max, Bool, false, none, some, List, [], ◌∷◌, ltb, leb,
  if◌then◌else◌, length, get_or, set, replicate, Bytes, bytes_le, ℤ, pos, negsuc, find, fnv_offset,
  fnv1a_from,
}

pub record EntryView : Type 0 where
  pub long_url : Bytes
  pub expire_at : Bytes

-- What `get` returns, with what it writes through `out`.
pub data Status : Type 0 where
  hit : EntryView → Status
  expired : EntryView → Status
  miss : Status
  neg_hit : Status

pub record PositiveEntry : Type 0 where
  pub long_url : Bytes
  pub expire_at : Bytes
  pub cache_expire : ℕ
  pub bytes : ℕ

pub record NegativeEntry : Type 0 where
  pub cache_expire : ℕ
  pub bytes : ℕ

abbrev pub positive_size : PositiveEntry → ℕ
positive_size e = e.bytes

abbrev pub negative_size : NegativeEntry → ℕ
negative_size e = e.bytes

abbrev pub view_of : PositiveEntry → EntryView
view_of e = record { long_url = e.long_url; expire_at = e.expire_at }

pub record Shard : Type 0 where
  pub positive : Table PositiveEntry
  pub negative : Table NegativeEntry

abbrev pub new_shard : Shard
new_shard = record { positive = empty_table; negative = empty_table }

pub record Config : Type 0 where
  pub shard_count : ℕ
  pub positive_byte_budget : ℕ
  pub negative_byte_budget : ℕ
  pub positive_ttl_seconds : ℕ
  pub positive_ttl_jitter_seconds : ℕ
  pub negative_ttl_seconds : ℕ

pub record LocalUrlCache : Type 0 where
  pub config : Config
  pub open config use *
  pub shards : List Shard

-- `std::max(least, n)` of a signed number.
abbrev pub at_least : ℕ → ℤ → ℕ
at_least least (pos n) = max least n
at_least least (negsuc n) = least

unfoldable pub configure : ℕ → ℕ → ℕ → ℤ → ℤ → ℤ → LocalUrlCache
configure shard_count positive_byte_budget negative_byte_budget ttl jitter negative_ttl =
    let count = max 1 shard_count in
    record {
      config = record {
        shard_count = count;
        positive_byte_budget = max 1024 (positive_byte_budget / count);
        negative_byte_budget = max 1024 (negative_byte_budget / count);
        positive_ttl_seconds = at_least 1 ttl;
        positive_ttl_jitter_seconds = at_least 0 jitter;
        negative_ttl_seconds = at_least 1 negative_ttl;
      };
      shards = replicate count new_shard;
    }

-- `wall` is the text of `now_datetime()`.
unfoldable pub is_business_expired : Bytes → Bytes → Bool
is_business_expired wall [] = false
is_business_expired wall (c ∷ expire_at) = bytes_le (c ∷ expire_at) wall

unfoldable pub shard_index : ℕ → Bytes → ℕ
shard_index shard_count code = fnv1a_from fnv_offset code % shard_count

unfoldable pub estimate_positive_bytes : Bytes → Bytes → Bytes → ℕ
estimate_positive_bytes code long_url expire_at =
    (length code + length long_url + length expire_at + 64) % 2 ^ 64

unfoldable pub estimate_negative_bytes : Bytes → ℕ
estimate_negative_bytes code = (length code + 32) % 2 ^ 64

abbrev pub second : ℕ
second = 10 ^ 9

-- The value of an `int` by its 32 bits, as which a sum too large for one comes out.
unfoldable pub wrap_int : ℕ → ℤ
wrap_int n = let low = n % 2 ^ 32 in if ltb low (2 ^ 31) then pos low else negsuc (2 ^ 32 - 1 - low)

-- `drawn` is what the distribution over 0 to the jitter returns.
unfoldable pub ttl_with_jitter : Config → ℕ → ℤ
ttl_with_jitter config drawn =
    if leb config.positive_ttl_jitter_seconds 0
    then pos config.positive_ttl_seconds
    else wrap_int (config.positive_ttl_seconds + drawn)

-- `now + std::chrono::seconds(ttl)`; a time before the clock's start is its start.
unfoldable pub seconds_after : ℕ → ℤ → ℕ
seconds_after now (pos ttl) = now + ttl * second
seconds_after now (negsuc ttl) = now - (ttl + 1) * second

-- The second half of `get`.
unfoldable pub get_negative : ℕ → Bytes → Shard → Status × Shard
get_negative now code s = elim (find code s.negative.entries) [
  | none ↦ (miss, s)
  | some e ↦
      if leb e.cache_expire now
      then (miss, record s { negative = drop_found negative_size code e s.negative })
      else (neg_hit, s)
]

unfoldable pub get_found : ℕ → Bytes → Bytes → PositiveEntry → Shard → Status × Shard
get_found now wall code e s =
    let dropped = record s { positive = drop_found positive_size code e s.positive } in
    if leb e.cache_expire now
    then get_negative now code dropped
    else if is_business_expired wall e.expire_at
    then (expired (view_of e), dropped)
    else (hit (view_of e), s)

unfoldable pub shard_get : ℕ → Bytes → Bytes → Shard → Status × Shard
shard_get now wall code s = elim (find code s.positive.entries) [
  | none ↦ get_negative now code s
  | some e ↦ get_found now wall code e s
]

unfoldable pub positive_entry : Config → ℕ → ℕ → Bytes → Bytes → Bytes → PositiveEntry
positive_entry config now drawn code long_url expire_at = record {
  long_url = long_url;
  expire_at = expire_at;
  cache_expire = seconds_after now (ttl_with_jitter config drawn);
  bytes = estimate_positive_bytes code long_url expire_at;
}

unfoldable pub negative_entry : Config → ℕ → Bytes → NegativeEntry
negative_entry config now code = record {
  cache_expire = now + config.negative_ttl_seconds * second;
  bytes = estimate_negative_bytes code;
}

unfoldable pub shard_put_positive : Config → Bytes → PositiveEntry → Shard → Shard
shard_put_positive config code entry s = record {
  positive = store positive_size config.positive_byte_budget code entry s.positive;
  negative = drop_entry negative_size code s.negative;
}

unfoldable pub shard_put_negative : Config → Bytes → NegativeEntry → Shard → Shard
shard_put_negative config code entry s = record {
  positive = drop_entry positive_size code s.positive;
  negative = store negative_size config.negative_byte_budget code entry s.negative;
}

unfoldable pub shard_erase : Bytes → Shard → Shard
shard_erase code s = record {
  positive = drop_entry positive_size code s.positive;
  negative = drop_entry negative_size code s.negative;
}

-- `*shards_[shard_index(code)]`
abbrev pub shard_at : LocalUrlCache → Bytes → Shard
shard_at c code = get_or c.shards (shard_index c.shard_count code) new_shard

abbrev pub with_shard : LocalUrlCache → Bytes → Shard → LocalUrlCache
with_shard c code s = record c { shards = set c.shards (shard_index c.shard_count code) s }

unfoldable pub get : ℕ → Bytes → Bytes → LocalUrlCache → Status × LocalUrlCache
get now wall code c =
    let (status, s) = shard_get now wall code (shard_at c code) in (status, with_shard c code s)

unfoldable pub put_positive : ℕ → ℕ → Bytes → Bytes → Bytes → LocalUrlCache → LocalUrlCache
put_positive now drawn code long_url expire_at c = with_shard c code (
    shard_put_positive c.config code (positive_entry c.config now drawn code long_url expire_at)
      (shard_at c code))

unfoldable pub put_negative : ℕ → Bytes → LocalUrlCache → LocalUrlCache
put_negative now code c =
    with_shard c code
      (shard_put_negative c.config code (negative_entry c.config now code) (shard_at c code))

unfoldable pub erase_code : Bytes → LocalUrlCache → LocalUrlCache
erase_code code c = with_shard c code (shard_erase code (shard_at c code))

-- The loops of `positive_bytes` and `negative_bytes`.
unfoldable pub sum_bytes : (Shard → ℕ) → ℕ → List Shard → ℕ
sum_bytes bytes_of sum [] = sum
sum_bytes bytes_of sum (s ∷ shards) = sum_bytes bytes_of (add64 sum (bytes_of s)) shards

unfoldable pub positive_bytes : LocalUrlCache → ℕ
positive_bytes c = sum_bytes (λ s. s.positive.bytes) 0 c.shards

unfoldable pub negative_bytes : LocalUrlCache → ℕ
negative_bytes c = sum_bytes (λ s. s.negative.bytes) 0 c.shards

-- A call of the cache, with the clocks and the draw that it meets.
pub data Op : Type 0 where
  gets : ℕ → Bytes → Bytes → Op
  puts_positive : ℕ → ℕ → Bytes → Bytes → Bytes → Op
  puts_negative : ℕ → Bytes → Op
  erases : Bytes → Op

unfoldable pub step : Op → LocalUrlCache → LocalUrlCache
step (gets now wall code) c = (get now wall code c).1
step (puts_positive now drawn code long_url expire_at) c =
    put_positive now drawn code long_url expire_at c
step (puts_negative now code) c = put_negative now code c
step (erases code) c = erase_code code c

unfoldable pub run : List Op → LocalUrlCache → LocalUrlCache
run [] c = c
run (op ∷ ops) c = run ops (step op c)
