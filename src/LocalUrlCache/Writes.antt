-- ===== src/LocalUrlCache/Writes.antt =====
-- What `put_positive`, `put_negative` and `erase` leave in a shard.
use cpp_url_shortener.Common.{
  ◌+◌, ◌^◌, ◌<◌, ◌≡◌, inl, inr, false, none, some, arith, if◌then◌else◌, Option-cases, Bytes,
  bytes_eq, find,
}
use cpp_url_shortener.LocalUrlCache.Eviction.Counts.{
  drop_entry-IsCounted, drop_entry_bytes-le, store_lem,
}
use cpp_url_shortener.LocalUrlCache.Eviction.Lookups.{find-drop_entry, store_sound}
use cpp_url_shortener.LocalUrlCache.{
  PositiveEntry, NegativeEntry, positive_size, negative_size, Shard, Config, shard_put_positive,
  shard_put_negative, shard_erase,
}
use cpp_url_shortener.LocalUrlCache.Invariant.{
  ShardInv, without_positive_lem, without_negative_lem, without_positive,
}

module _ (config : Config) (code : Bytes) (s : Shard) (v : ShardInv config s) where
  module _ (entry : PositiveEntry) where
    -- The new entry, or an old one of another code.
    pub shard_put_positive-find :
        (k : Bytes) (e : PositiveEntry)
        → find k (shard_put_positive config code entry s).positive.entries ≡ some e
        → (if bytes_eq code k then some entry else find k s.positive.entries) ≡ some e
    unfolding shard_put_positive
    shard_put_positive-find k e h =
        store_sound positive_size config.positive_byte_budget code k entry e s.positive
          v.positive_counted.distinct h

    pub shard_put_positive-find_negative :
        (k : Bytes)
        → find k (shard_put_positive config code entry s).negative.entries
          ≡ (if bytes_eq code k then none else find k s.negative.entries)
    unfolding shard_put_positive
    shard_put_positive-find_negative k =
        find-drop_entry negative_size code k s.negative v.negative_counted.distinct

    pub shard_put_positive-ShardInv :
        config.positive_byte_budget + entry.bytes < 2 ^ 64
        → ShardInv config (shard_put_positive config code entry s)
    unfolding shard_put_positive
    shard_put_positive-ShardInv room =
        let f = v.positive_fits in
        let g = v.negative_fits in
        let (counted, fits) =
          store_lem positive_size config.positive_byte_budget code entry s.positive
            v.positive_counted (omega arith) in
        record {
          positive_counted = counted;
          negative_counted = drop_entry-IsCounted negative_size code s.negative v.negative_counted;
          positive_fits = fits;
          negative_fits =
              omega (arith, drop_entry_bytes-le negative_size code s.negative v.negative_counted);
          apart = λ k e h.
              let new = shard_put_positive-find k e h in
              let gone = shard_put_positive-find_negative k in
              let old = v.apart k e in ground arith;
        }

  module _ (entry : NegativeEntry) where
    pub shard_put_negative-find :
        (k : Bytes) (e : NegativeEntry)
        → find k (shard_put_negative config code entry s).negative.entries ≡ some e
        → (if bytes_eq code k then some entry else find k s.negative.entries) ≡ some e
    unfolding shard_put_negative
    shard_put_negative-find k e h =
        store_sound negative_size config.negative_byte_budget code k entry e s.negative
          v.negative_counted.distinct h

    pub shard_put_negative-find_positive :
        (k : Bytes)
        → find k (shard_put_negative config code entry s).positive.entries
          ≡ (if bytes_eq code k then none else find k s.positive.entries)
    unfolding shard_put_negative
    shard_put_negative-find_positive k =
        find-drop_entry positive_size code k s.positive v.positive_counted.distinct

    pub shard_put_negative-ShardInv :
        config.negative_byte_budget + entry.bytes < 2 ^ 64
        → ShardInv config (shard_put_negative config code entry s)
    unfolding shard_put_negative
    shard_put_negative-ShardInv room =
        let f = v.positive_fits in
        let g = v.negative_fits in
        let (counted, fits) =
          store_lem negative_size config.negative_byte_budget code entry s.negative
            v.negative_counted (omega arith) in
        record {
          positive_counted = drop_entry-IsCounted positive_size code s.positive v.positive_counted;
          negative_counted = counted;
          positive_fits =
              omega (arith, drop_entry_bytes-le positive_size code s.positive v.positive_counted);
          negative_fits = fits;
          apart = λ k e h.
              let there = shard_put_negative-find_positive k in
              apart_from k e (ground arith) (ground arith);
        }
      where
        apart_from :
            (k : Bytes) (e : PositiveEntry)
            → find k s.positive.entries ≡ some e
            → bytes_eq code k ≡ false
            → find k (shard_put_negative config code entry s).negative.entries ≡ none
        apart_from k e h other =
            elim (Option-cases (find k (shard_put_negative config code entry s).negative.entries)) [
              | inl gone ↦ gone
              | inr (w, there) ↦ absurd (
                  let new = shard_put_negative-find k w there in
                  let old = v.apart k e h in ground arith)
            ]

  pub shard_erase-find :
      (k : Bytes)
      → (find k (shard_erase code s).positive.entries
          ≡ (if bytes_eq code k then none else find k s.positive.entries))
        × (find k (shard_erase code s).negative.entries
            ≡ (if bytes_eq code k then none else find k s.negative.entries))
  unfolding shard_erase
  shard_erase-find k = (
    find-drop_entry positive_size code k s.positive v.positive_counted.distinct,
    find-drop_entry negative_size code k s.negative v.negative_counted.distinct,
  )

  pub shard_erase-ShardInv : ShardInv config (shard_erase code s)
  unfolding shard_erase
  shard_erase-ShardInv =
      let (w, less) = without_positive_lem config code s v in
      (without_negative_lem config code (without_positive config code s v) w).0
