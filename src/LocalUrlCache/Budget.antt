-- ===== src/LocalUrlCache/Budget.antt =====
-- The cache keeps its invariant through every call, so its memory stays within the configured
-- budgets.
use native.Mathlib.Nat.{le_trans}
use cpp_url_shortener.LocalUrlCache.{positive_size, negative_size}
use cpp_url_shortener.LocalUrlCache
use cpp_url_shortener.Common.{
  ℕ, ◌+◌, ◌*◌, ◌/◌, ◌^◌, ◌≤◌, ◌<◌, max, ◌≡◌, refl, ◌∙◌, inl, inr, List, [], ◌∷◌, arith, leb,
  Bool-cases, length, All, length-set, length-replicate, Bytes, ℤ, total, All-get_or, All-set,
  All-replicate,
}
use cpp_url_shortener.LocalUrlCache.Eviction.{add64}
use cpp_url_shortener.LocalUrlCache.{
  Shard, new_shard, Config, at_least, configure, shard_index, positive_entry, negative_entry,
  estimate_positive_bytes, estimate_negative_bytes, shard_at, with_shard, get, put_positive,
  put_negative, erase_code, sum_bytes, positive_bytes, negative_bytes, Op, gets, puts_positive,
  puts_negative, erases, step, run,
}
use cpp_url_shortener.LocalUrlCache.Invariant.{ShardInv, new_shard-ShardInv}
use cpp_url_shortener.LocalUrlCache.Reads.{shard_get-Answers}
use cpp_url_shortener.LocalUrlCache.Writes.{
  shard_put_positive-ShardInv, shard_put_negative-ShardInv, shard_erase-ShardInv,
}

pub record Inv (c : LocalUrlCache.LocalUrlCache) : Type 0 where
  pub counted : length c.shards ≡ c.shard_count
  pub some_shard : 0 < c.shard_count
  pub valid : All (ShardInv c.config) c.shards

-- An entry on top of a full table does not overflow the 64-bit count.
abbrev pub HasRoom : Config → Op → Type 0
HasRoom config (gets now wall code) = Unit {0}
HasRoom config (puts_positive now drawn code long_url expire_at) =
    config.positive_byte_budget + estimate_positive_bytes code long_url expire_at < 2 ^ 64
HasRoom config (puts_negative now code) =
    config.negative_byte_budget + estimate_negative_bytes code < 2 ^ 64
HasRoom config (erases code) = Unit {0}

pub shard_at-ShardInv :
    (c : LocalUrlCache.LocalUrlCache) (code : Bytes) → Inv c → ShardInv c.config (shard_at c code)
shard_at-ShardInv c code v =
    All-get_or (ShardInv c.config) c.shards _ new_shard v.valid (new_shard-ShardInv c.config)

with_shard-Inv :
    (c : LocalUrlCache.LocalUrlCache) (code : Bytes) (s : Shard)
    → Inv c
    → ShardInv c.config s
    → Inv (with_shard c code s)
with_shard-Inv c code s v w = record {
  counted = length-set c.shards _ s ∙ v.counted;
  some_shard = v.some_shard;
  valid = All-set (ShardInv c.config) c.shards _ s v.valid w;
}

-- Every call keeps the invariant.
pub step-Inv :
    (op : Op) (c : LocalUrlCache.LocalUrlCache) → HasRoom c.config op → Inv c → Inv (step op c)
unfolding step get put_positive put_negative erase_code positive_entry negative_entry
step-Inv (gets now wall code) c room v =
    with_shard-Inv c code _ v
      (shard_get-Answers c.config now wall code _ (shard_at-ShardInv c code v)).1
step-Inv (puts_positive now drawn code long_url expire_at) c room v =
    with_shard-Inv c code _ v
      (shard_put_positive-ShardInv c.config code _ (shard_at-ShardInv c code v) _ room)
step-Inv (puts_negative now code) c room v =
    with_shard-Inv c code _ v
      (shard_put_negative-ShardInv c.config code _ (shard_at-ShardInv c code v) _ room)
step-Inv (erases code) c room v =
    with_shard-Inv c code _ v (shard_erase-ShardInv c.config code _ (shard_at-ShardInv c code v))

pub step_config : (op : Op) (c : LocalUrlCache.LocalUrlCache) → (step op c).config ≡ c.config
unfolding step get put_positive put_negative erase_code
step_config (gets now wall code) c = refl
step_config (puts_positive now drawn code long_url expire_at) c = refl
step_config (puts_negative now code) c = refl
step_config (erases code) c = refl

pub run-Inv :
    (ops : List Op) (c : LocalUrlCache.LocalUrlCache)
    → All (HasRoom c.config) ops
    → Inv c
    → Inv (run ops c) × ((run ops c).config ≡ c.config)
unfolding run
run-Inv [] c room v = (v, refl)
run-Inv (op ∷ ops) c room v =
    let (w, same) =
      run-Inv ops (step op c) (rw (step_config op c) room.1) (step-Inv op c room.0 v) in
    (w, same ∙ step_config op c)

pub configure-Inv :
    (n p q : ℕ) (ttl jitter negative_ttl : ℤ) → Inv (configure n p q ttl jitter negative_ttl)
unfolding configure
configure-Inv n p q ttl jitter negative_ttl = record {
  counted = length-replicate _ _;
  some_shard = omega arith;
  valid = All-replicate (ShardInv _) _ new_shard (new_shard-ShardInv _);
}

-- The bytes that the entries of all shards take, with no bound on the sum.
pub held : (Shard → ℕ) → List Shard → ℕ
held bytes_of [] = 0
held bytes_of (s ∷ shards) = bytes_of s + held bytes_of shards

sum_bytes-held :
    (counter bytes_of : Shard → ℕ) (budget sum : ℕ) (shards : List Shard)
    → All (λ s. (counter s ≡ bytes_of s) × (counter s ≤ budget)) shards
    → sum + length shards * budget < 2 ^ 64
    → (sum_bytes counter sum shards ≡ sum + held bytes_of shards)
      × (held bytes_of shards ≤ length shards * budget)
unfolding sum_bytes held
sum_bytes-held counter bytes_of budget sum [] h room = omega arith
sum_bytes-held counter bytes_of budget sum (s ∷ shards) h room =
    let (same, le) = h.0 in
    let exact : add64 sum (counter s) ≡ sum + bytes_of s = grind arith in
    let (total_sum, total_le) =
      sum_bytes-held counter bytes_of budget (add64 sum (counter s)) shards h.1 (omega arith) in
    (omega arith, omega arith)

-- An even share of a budget, times the number of shares.
shares-le :
    (count budget : ℕ) → 0 < count → count * max 1024 (budget / count) ≤ max budget (1024 * count)
shares-le count budget h = elim (Bool-cases (leb (budget / count) 1024)) [
  | inl small ↦ let e : max 1024 (budget / count) ≡ 1024 = ground arith in rw e (omega arith)
  | inr large ↦
      let e : max 1024 (budget / count) ≡ budget / count = ground arith in
      let part : count * (budget / count) ≤ budget = grind arith in rw e (omega arith)
]

module _ (config : Config) where
  positive_valid :
      (shards : List Shard)
      → All (ShardInv config) shards
      → All
          (λ s.
            (s.positive.bytes ≡ total positive_size s.positive.entries)
            × (s.positive.bytes ≤ config.positive_byte_budget))
          shards
  positive_valid [] v = tt
  positive_valid (s ∷ shards) v =
      ((v.0.positive_counted.exact, v.0.positive_fits), positive_valid shards v.1)

  negative_valid :
      (shards : List Shard)
      → All (ShardInv config) shards
      → All
          (λ s.
            (s.negative.bytes ≡ total negative_size s.negative.entries)
            × (s.negative.bytes ≤ config.negative_byte_budget))
          shards
  negative_valid [] v = tt
  negative_valid (s ∷ shards) v =
      ((v.0.negative_counted.exact, v.0.negative_fits), negative_valid shards v.1)

-- The sizes of all positive and of all negative entries.
abbrev pub positive_held : LocalUrlCache.LocalUrlCache → ℕ
positive_held c = held (λ s. total positive_size s.positive.entries) c.shards

abbrev pub negative_held : LocalUrlCache.LocalUrlCache → ℕ
negative_held c = held (λ s. total negative_size s.negative.entries) c.shards

-- What the two counters report is what the entries take, and at most the budget of a shard for
-- each shard.
pub Inv-exact :
    (c : LocalUrlCache.LocalUrlCache)
    → Inv c
    → c.shard_count * c.positive_byte_budget < 2 ^ 64
    → c.shard_count * c.negative_byte_budget < 2 ^ 64
    → (positive_bytes c ≡ positive_held c)
      × (positive_held c ≤ c.shard_count * c.positive_byte_budget)
      × (negative_bytes c ≡ negative_held c)
      × (negative_held c ≤ c.shard_count * c.negative_byte_budget)
unfolding positive_bytes negative_bytes
Inv-exact c v p q =
    let n = v.counted in
    let (same, le) =
      sum_bytes-held (λ s. s.positive.bytes) (λ s. total positive_size s.positive.entries)
        c.positive_byte_budget 0 c.shards (positive_valid c.config c.shards v.valid)
        (rw n (omega arith)) in
    let (same', le') =
      sum_bytes-held (λ s. s.negative.bytes) (λ s. total negative_size s.negative.entries)
        c.negative_byte_budget 0 c.shards (negative_valid c.config c.shards v.valid)
        (rw n (omega arith)) in
    (omega arith, rw n at le, omega arith, rw n at le')

-- Through every series of calls that leave room in the counters, the counters report exactly
-- what the entries take, and that stays within the configured byte budget, or within 1024 bytes
-- for each shard where the budget is smaller.
pub run_within_budget :
    (n p q : ℕ) (ttl jitter negative_ttl : ℤ) (ops : List Op)
    → max p (1024 * max 1 n) < 2 ^ 64
    → max q (1024 * max 1 n) < 2 ^ 64
    → All (HasRoom (configure n p q ttl jitter negative_ttl).config) ops
    → let c = run ops (configure n p q ttl jitter negative_ttl) in
      (positive_bytes c ≡ positive_held c)
      × (positive_held c ≤ max p (1024 * max 1 n))
      × (negative_bytes c ≡ negative_held c)
      × (negative_held c ≤ max q (1024 * max 1 n))
unfolding configure
run_within_budget n p q ttl jitter negative_ttl ops hp hq room =
    let c = configure n p q ttl jitter negative_ttl in
    let (v, same) = run-Inv ops c room (configure-Inv n p q ttl jitter negative_ttl) in
    let sp = shares-le (max 1 n) p (omega arith) in
    let sq = shares-le (max 1 n) q (omega arith) in
    let (a, b, d, e) = Inv-exact (run ops c) v (rw same (omega arith)) (rw same (omega arith)) in
    (a, le_trans (rw same at b) sp, d, le_trans (rw same at e) sq)
