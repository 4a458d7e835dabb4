-- ===== src/LocalUrlCache/Eviction.antt =====
-- One of the two tables of a shard: a map, the queue of its insertions, and a byte count. The
-- positive and the negative table are kept by the same statements, over their own entry type.
pub mod Counts
pub mod Lookups
use cpp_url_shortener.Common.{
  ℕ, ◌+◌, ◌-◌, ◌%◌, ◌^◌, true, false, none, some, List, [], ◌∷◌, ◌++◌, leb, Bytes, find, erase,
  insert,
}

-- `size_t` addition and subtraction.
abbrev pub add64 : ℕ → ℕ → ℕ
add64 a b = (a + b) % 2 ^ 64

abbrev pub sub64 : ℕ → ℕ → ℕ
sub64 a b = (a + 2 ^ 64 - b) % 2 ^ 64

pub record Table (V : Type 0) : Type 0 where
  pub entries : List (Bytes × V)
  pub fifo : List Bytes
  pub bytes : ℕ

abbrev pub empty_table : {V : Type 0} → Table V
empty_table = record { entries = []; fifo = []; bytes = 0 }

module _ {V : Type 0} (size : V → ℕ) where
  -- `bytes -= it->second.bytes; erase(it)` for the entry that a `find` has found.
  unfoldable pub drop_found : Bytes → V → Table V → Table V
  drop_found code e t = record t { entries = erase code t.entries; bytes = sub64 t.bytes (size e) }

  -- The same behind its `find`, and nothing where there is no entry.
  unfoldable pub drop_entry : Bytes → Table V → Table V
  drop_entry code t = elim (find code t.entries) [ none ↦ t | some e ↦ drop_found code e t ]

  -- The loop of `evict_positive_locked` and `evict_negative_locked`, over the queue.
  unfoldable pub evict_loop : ℕ → List Bytes → List (Bytes × V) → ℕ → Table V
  evict_loop budget [] entries bytes = record { entries = entries; fifo = []; bytes = bytes }
  evict_loop budget (victim ∷ fifo) entries bytes = elim (leb bytes budget) [
    | true ↦ record { entries = entries; fifo = victim ∷ fifo; bytes = bytes }
    | false ↦ elim (find victim entries) [
      | none ↦ evict_loop budget fifo entries bytes
      | some e ↦ evict_loop budget fifo (erase victim entries) (sub64 bytes (size e))
    ]
  ]

  unfoldable pub evict : ℕ → Table V → Table V
  evict budget t = evict_loop budget t.fifo t.entries t.bytes

  -- Replace the entry of the code, or add one at the end of the queue.
  unfoldable pub put_entry : Bytes → V → Table V → Table V
  put_entry code entry t = elim (find code t.entries) [
    | some old ↦ record t {
      entries = insert code entry t.entries;
      bytes = add64 (sub64 t.bytes (size old)) (size entry);
    }
    | none ↦ record {
      entries = insert code entry t.entries;
      fifo = t.fifo ++ code ∷ [];
      bytes = add64 t.bytes (size entry);
    }
  ]

  unfoldable pub store : ℕ → Bytes → V → Table V → Table V
  store budget code entry t = evict budget (put_entry code entry t)
