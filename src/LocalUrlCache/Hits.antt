-- ===== src/LocalUrlCache/Hits.antt =====
-- What can be read right after a write: `get` finds a stored mapping until one of its two times
-- is over, finds a negative entry until its time is over, and finds nothing after `erase`.
use cpp_url_shortener.Common.{
  ℕ, ◌+◌, ◌*◌, ◌^◌, ◌≤◌, ◌<◌, ◌≡◌, ◌∙◌, none, some, arith, leb, if◌then◌else◌, get_or-set_self,
  Bytes, bytes_eq_refl, find,
}
use cpp_url_shortener.LocalUrlCache
use cpp_url_shortener.LocalUrlCache.Eviction.Lookups.{find-store_fitting, find-drop_entry}
use cpp_url_shortener.LocalUrlCache.{
  is_business_expired, EntryView, PositiveEntry, NegativeEntry, view_of, Status, hit, expired, miss,
  neg_hit, positive_size, negative_size, Shard, new_shard, shard_index, positive_entry,
  negative_entry, get_negative, get_found, shard_get, shard_put_positive, shard_put_negative,
  shard_erase, shard_at, with_shard, get, put_positive, put_negative, erase_code, ttl_with_jitter,
  seconds_after, second, estimate_positive_bytes, estimate_negative_bytes,
}
use cpp_url_shortener.LocalUrlCache.Writes.{shard_erase-find}
use cpp_url_shortener.LocalUrlCache.Budget.{Inv, shard_at-ShardInv}
use cpp_url_shortener.LocalUrlCache.History.{shard_index-lt}

shard_at-with_shard_self :
    (c : LocalUrlCache.LocalUrlCache) (code : Bytes) (s : Shard)
    → Inv c
    → shard_at (with_shard c code s) code ≡ s
shard_at-with_shard_self c code s v =
    let p = v.some_shard in
    get_or-set_self c.shards _ s new_shard (rw v.counted (shard_index-lt c.shard_count code p))

-- `get` where the positive table has an entry and the negative table has none.
shard_get_there :
    (later : ℕ) (wall code : Bytes) (s : Shard) (e : PositiveEntry)
    → find code s.positive.entries ≡ some e
    → find code s.negative.entries ≡ none
    → (shard_get later wall code s).0 ≡ (
        if leb e.cache_expire later
        then miss
        else if is_business_expired wall e.expire_at
        then expired (view_of e)
        else hit (view_of e))
unfolding shard_get get_found get_negative
shard_get_there later wall code s e there gone = ground arith

-- `get` where the positive table has no entry.
shard_get_gone :
    (later : ℕ) (wall code : Bytes) (s : Shard)
    → find code s.positive.entries ≡ none
    → (shard_get later wall code s).0 ≡ (get_negative later code s).0
unfolding shard_get
shard_get_gone later wall code s gone = rw (gone, shard_get)

module _ (c : LocalUrlCache.LocalUrlCache) (v : Inv c) (code : Bytes) where
  -- What `get` says of a mapping that was just stored, by its two times.
  abbrev pub fresh_answer : ℕ → ℕ → ℕ → Bytes → Bytes → Bytes → Status
  fresh_answer drawn now later wall long_url expire_at =
      if leb (seconds_after now (ttl_with_jitter c.config drawn)) later
      then miss
      else if is_business_expired wall expire_at
      then expired (record { long_url = long_url; expire_at = expire_at })
      else hit (record { long_url = long_url; expire_at = expire_at })

  -- A mapping for which its shard has room is served right after it is stored: as a hit while
  -- both its times run, as expired once its business time is over, and not at all once its
  -- cache time is over.
  pub get-put_positive :
      (now drawn later : ℕ) (wall long_url expire_at : Bytes)
      → c.positive_byte_budget < 2 ^ 64
      → (shard_at c code).positive.bytes + estimate_positive_bytes code long_url expire_at
        ≤ c.positive_byte_budget
      → (get later wall code (put_positive now drawn code long_url expire_at c)).0
        ≡ fresh_answer drawn now later wall long_url expire_at
  unfolding get put_positive shard_put_positive positive_entry
  get-put_positive now drawn later wall long_url expire_at big room =
      let s = shard_at c code in
      let w = shard_at-ShardInv c code v in
      let entry = positive_entry c.config now drawn code long_url expire_at in
      let there =
        find-store_fitting positive_size c.positive_byte_budget code code entry s.positive
          w.positive_counted room big
        ∙ rw (bytes_eq_refl code) in
      let gone =
        find-drop_entry negative_size code code s.negative w.negative_counted.distinct
        ∙ rw (bytes_eq_refl code) in
      rw (shard_at-with_shard_self c code _ v) (
        shard_get_there later wall code (shard_put_positive c.config code entry s) entry there gone)

  -- A negative entry for which its shard has room answers until its time is over, also where the
  -- code had a mapping before.
  pub get-put_negative :
      (now later : ℕ) (wall : Bytes)
      → c.negative_byte_budget < 2 ^ 64
      → (shard_at c code).negative.bytes + estimate_negative_bytes code ≤ c.negative_byte_budget
      → (get later wall code (put_negative now code c)).0
        ≡ (if leb (now + c.negative_ttl_seconds * second) later then miss else neg_hit)
  unfolding get put_negative shard_put_negative negative_entry
  get-put_negative now later wall big room =
      let s = shard_at c code in
      let w = shard_at-ShardInv c code v in
      let entry = negative_entry c.config now code in
      let there =
        find-store_fitting negative_size c.negative_byte_budget code code entry s.negative
          w.negative_counted room big
        ∙ rw (bytes_eq_refl code) in
      let gone =
        find-drop_entry positive_size code code s.positive w.positive_counted.distinct
        ∙ rw (bytes_eq_refl code) in
      rw (shard_at-with_shard_self c code _ v) (
        shard_get_gone later wall code (shard_put_negative c.config code entry s) gone
        ∙ negative_there later (shard_put_negative c.config code entry s) entry there)
    where
      negative_there :
          (t : ℕ) (s : Shard) (e : NegativeEntry)
          → find code s.negative.entries ≡ some e
          → (get_negative t code s).0 ≡ (if leb e.cache_expire t then miss else neg_hit)
      negative_there t s e h = unfold get_negative in ground arith

  -- After `erase` the code is neither found nor known to be absent.
  pub get-erase_code :
      (later : ℕ) (wall : Bytes) → (get later wall code (erase_code code c)).0 ≡ miss
  unfolding get erase_code
  get-erase_code later wall =
      let s = shard_at c code in
      let (gone, gone') = shard_erase-find c.config code s (shard_at-ShardInv c code v) code in
      rw (shard_at-with_shard_self c code _ v) (
        shard_get_gone later wall code (shard_erase code s) (gone ∙ rw (bytes_eq_refl code))
        ∙ negative_gone (shard_erase code s) (gone' ∙ rw (bytes_eq_refl code)))
    where
      negative_gone :
          (s : Shard) → find code s.negative.entries ≡ none → (get_negative later code s).0 ≡ miss
      negative_gone s h = unfold get_negative in ground arith
