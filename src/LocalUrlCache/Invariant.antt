-- ===== src/LocalUrlCache/Invariant.antt =====
-- The invariant of a shard and what `get` returns: both byte counts are exact and within their
-- budgets, and no code has a positive and a negative entry at once.
use cpp_url_shortener.Common.{
  ℕ, ◌≤◌, ◌≡◌, refl, false, none, some, arith, Bytes, bytes_eq, find, total,
}
use cpp_url_shortener.LocalUrlCache.Eviction.{Table, drop_entry}
use cpp_url_shortener.LocalUrlCache.Eviction.Counts.{
  IsCounted, drop_entry-IsCounted, drop_entry_bytes-le,
}
use cpp_url_shortener.LocalUrlCache.Eviction.Lookups.{find-drop_entry}
use cpp_url_shortener.LocalUrlCache.{
  PositiveEntry, NegativeEntry, positive_size, negative_size, Shard, new_shard, Config,
}

pub record ShardInv (config : Config) (s : Shard) : Type 0 where
  pub positive_counted : IsCounted positive_size s.positive
  pub negative_counted : IsCounted negative_size s.negative
  pub positive_fits : s.positive.bytes ≤ config.positive_byte_budget
  pub negative_fits : s.negative.bytes ≤ config.negative_byte_budget
  pub apart :
      (k : Bytes) (e : PositiveEntry)
      → find k s.positive.entries ≡ some e
      → find k s.negative.entries ≡ none

pub new_shard-ShardInv : (config : Config) → ShardInv config new_shard
unfolding find total
new_shard-ShardInv config = record {
  positive_counted = record {
    exact = refl;
    fits = omega arith;
    distinct = tt;
    queued = λ k q. refl;
  };
  negative_counted = record {
    exact = refl;
    fits = omega arith;
    distinct = tt;
    queued = λ k q. refl;
  };
  positive_fits = omega arith;
  negative_fits = omega arith;
  apart = λ k e h. refl;
}

-- What a shard holds, it held before.
pub record Less (s' s : Shard) : Type 0 where
  pub positive_less :
      (k : Bytes) (e : PositiveEntry)
      → find k s'.positive.entries ≡ some e
      → find k s.positive.entries ≡ some e
  pub negative_less :
      (k : Bytes) (e : NegativeEntry)
      → find k s'.negative.entries ≡ some e
      → find k s.negative.entries ≡ some e

pub Less-refl : (s : Shard) → Less s s
Less-refl s = record { positive_less = λ k e h. h; negative_less = λ k e h. h }

pub Less-trans : (s t u : Shard) → Less s t → Less t u → Less s u
Less-trans s t u a b = record {
  positive_less = λ k e h. b.positive_less k e (a.positive_less k e h);
  negative_less = λ k e h. b.negative_less k e (a.negative_less k e h);
}

module _ {V : Type 0} (size : V → ℕ) where
  drop_entry-Subset :
      (code k : Bytes) (e : V) (t : Table V)
      → IsCounted size t
      → find k (drop_entry size code t).entries ≡ some e
      → find k t.entries ≡ some e
  drop_entry-Subset code k e t v h =
      let at_k = find-drop_entry size code k t v.distinct in ground arith

  drop_entry_other :
      (code k : Bytes) (e : V) (t : Table V)
      → IsCounted size t
      → find k (drop_entry size code t).entries ≡ some e
      → bytes_eq code k ≡ false
  drop_entry_other code k e t v h =
      let at_k = find-drop_entry size code k t v.distinct in ground arith

module _ (config : Config) (code : Bytes) (s : Shard) (v : ShardInv config s) where
  abbrev pub without_positive : Shard
  without_positive = record s { positive = drop_entry positive_size code s.positive }

  abbrev pub without_negative : Shard
  without_negative = record s { negative = drop_entry negative_size code s.negative }

  pub without_positive_lem : ShardInv config without_positive × Less without_positive s
  without_positive_lem = (
    record {
      positive_counted = drop_entry-IsCounted positive_size code s.positive v.positive_counted;
      negative_counted = v.negative_counted;
      positive_fits =
          let f = v.positive_fits in
          omega (arith, drop_entry_bytes-le positive_size code s.positive v.positive_counted);
      negative_fits = v.negative_fits;
      apart = λ k e h.
          v.apart k e (drop_entry-Subset positive_size code k e s.positive v.positive_counted h);
    },
    record {
      positive_less = λ k e. drop_entry-Subset positive_size code k e s.positive v.positive_counted;
      negative_less = λ k e h. h;
    },
  )

  pub without_negative_lem : ShardInv config without_negative × Less without_negative s
  without_negative_lem = (
    record {
      positive_counted = v.positive_counted;
      negative_counted = drop_entry-IsCounted negative_size code s.negative v.negative_counted;
      positive_fits = v.positive_fits;
      negative_fits =
          let f = v.negative_fits in
          omega (arith, drop_entry_bytes-le negative_size code s.negative v.negative_counted);
      apart = λ k e h.
          let gone = v.apart k e h in
          let at_k = find-drop_entry negative_size code k s.negative v.negative_counted.distinct in
          ground arith;
    },
    record {
      positive_less = λ k e h. h;
      negative_less = λ k e. drop_entry-Subset negative_size code k e s.negative v.negative_counted;
    },
  )
