-- ===== src/LocalUrlCache/History.antt =====
-- The cache against the history of its calls: an answer for a code is never older than the last
-- write of that code, whatever was evicted, expired or written to other codes in between.
use cpp_url_shortener.Common.{
  ℕ, zero, suc, ◌<◌, max, ◌≡◌, refl, sym, ap, ◌∙◌, ◌⊎◌, inl, inr, true, false, some, List, [], ◌∷◌,
  arith, ◌==◌, if◌then◌else◌, Bool-cases, length, get_or, replicate, All, get_or-set_self,
  get_or-set_ne, Bytes, bytes_eq, bytes_eq_iff, ℤ, find,
}
use cpp_url_shortener.LocalUrlCache
use cpp_url_shortener.LocalUrlCache.{
  is_business_expired, EntryView, Status, hit, expired, miss, neg_hit, PositiveEntry, NegativeEntry,
  view_of, Shard, new_shard, Config, shard_index, positive_entry, negative_entry, shard_get,
  shard_put_positive, shard_put_negative, shard_erase, shard_at, with_shard, get, put_positive,
  put_negative, erase_code, Op, gets, puts_positive, puts_negative, erases, step, run, configure,
}
use cpp_url_shortener.LocalUrlCache.Reads.{shard_get-Answers, Serves}
use cpp_url_shortener.LocalUrlCache.Writes.{
  shard_put_positive-find, shard_put_positive-find_negative, shard_put_negative-find,
  shard_put_negative-find_positive, shard_erase-find,
}
use cpp_url_shortener.LocalUrlCache.Budget.{
  Inv, HasRoom, shard_at-ShardInv, step-Inv, step_config, run-Inv, configure-Inv,
}

-- What was last written for a code.
pub data Written : Type 0 where
  nothing : Written
  stored : EntryView → Written
  negative : Written
  erased : Written

unfoldable pub write : Bytes → Op → Written → Written
write k (gets now wall code) w = w
write k (puts_positive now drawn code long_url expire_at) w =
    if bytes_eq code k then stored (record { long_url = long_url; expire_at = expire_at }) else w
write k (puts_negative now code) w = if bytes_eq code k then negative else w
write k (erases code) w = if bytes_eq code k then erased else w

unfoldable pub last_written : Bytes → Written → List Op → Written
last_written k w [] = w
last_written k w (op ∷ ops) = last_written k (write k op w) ops

-- The entries of a shard agree with what was written.
pub record Agrees (written : Bytes → Written) (k : Bytes) (s : Shard) : Type 0 where
  pub positive_agrees :
      (e : PositiveEntry) → find k s.positive.entries ≡ some e → written k ≡ stored (view_of e)
  pub negative_agrees :
      (e : NegativeEntry) → find k s.negative.entries ≡ some e → written k ≡ negative

abbrev pub Tracks : (Bytes → Written) → LocalUrlCache.LocalUrlCache → Type 0
Tracks written c = (k : Bytes) → Agrees written k (shard_at c k)

pub shard_index-lt : (n : ℕ) (code : Bytes) → 0 < n → shard_index n code < n
unfolding shard_index
shard_index-lt n code h = omega arith

-- After a change of the shard of `code`, another code sees its old shard, or the changed one.
shard_at-with_shard :
    (c : LocalUrlCache.LocalUrlCache) (code k : Bytes) (s : Shard)
    → Inv c
    → (shard_at (with_shard c code s) k ≡ s) × (shard_at c k ≡ shard_at c code)
      ⊎ (shard_at (with_shard c code s) k ≡ shard_at c k) × (bytes_eq code k ≡ false)
shard_at-with_shard c code k s v =
    elim (Bool-cases (shard_index c.shard_count code == shard_index c.shard_count k)) [
      | inl same ↦
          let e : shard_index c.shard_count code ≡ shard_index c.shard_count k = ground arith in
          inl (rw (← e) (get_or-set_self c.shards _ s new_shard (in_range v)), rw e)
      | inr other ↦ inr (
        get_or-set_ne c.shards _ _ s new_shard (ground arith),
        ground (arith, bytes_eq_iff code k, ap (shard_index c.shard_count)),
      )
    ]
  where
    in_range : Inv c → shard_index c.shard_count code < length c.shards
    in_range w = let p = w.some_shard in rw w.counted (shard_index-lt c.shard_count code p)

module _ (written : Bytes → Written) (c : LocalUrlCache.LocalUrlCache) (v : Inv c) where
  -- A call that changes one shard tracks the history if that shard agrees for every code.
  with_shard-Tracks :
      (op : Op) (code : Bytes) (s : Shard)
      → ((k : Bytes) → bytes_eq code k ≡ false → write k op (written k) ≡ written k)
      → Tracks written c
      → ((k : Bytes)
          → Agrees written k (shard_at c code)
          → Agrees (λ j. write j op (written j)) k s)
      → Tracks (λ k. write k op (written k)) (with_shard c code s)
  with_shard-Tracks op code s other t agrees k = elim (shard_at-with_shard c code k s v) [
    | inl (now, was) ↦ rw now (agrees k (rw was at (t k)))
    | inr (kept, ne) ↦ rw kept (record {
      positive_agrees = λ e h. other k ne ∙ (t k).positive_agrees e h;
      negative_agrees = λ e h. other k ne ∙ (t k).negative_agrees e h;
    })
  ]

  get-Tracks :
      (now : ℕ) (wall code : Bytes)
      → Tracks written c
      → Tracks (λ k. write k (gets now wall code) (written k)) (get now wall code c).1
  unfolding get write
  get-Tracks now wall code t =
      let s = shard_at c code in
      let less = (shard_get-Answers c.config now wall code s (shard_at-ShardInv c code v)).2 in
      with_shard-Tracks (gets now wall code) code _ (λ k ne. refl) t
        (λ k a. record {
          positive_agrees = λ e h. a.positive_agrees e (less.positive_less k e h);
          negative_agrees = λ e h. a.negative_agrees e (less.negative_less k e h);
        })

  put_positive-Tracks :
      (now drawn : ℕ) (code long_url expire_at : Bytes)
      → Tracks written c
      → Tracks
          (λ k. write k (puts_positive now drawn code long_url expire_at) (written k))
          (put_positive now drawn code long_url expire_at c)
  unfolding put_positive write positive_entry
  put_positive-Tracks now drawn code long_url expire_at t =
      let s = shard_at c code in
      let w = shard_at-ShardInv c code v in
      let entry = positive_entry c.config now drawn code long_url expire_at in
      with_shard-Tracks (puts_positive now drawn code long_url expire_at) code _ (λ k ne. rw ne) t
        (λ k a. record {
          positive_agrees = λ e h.
              let found = shard_put_positive-find c.config code s w entry k e h in
              let old = a.positive_agrees e in ground arith;
          negative_agrees = λ e h.
              let found = shard_put_positive-find_negative c.config code s w entry k in
              let old = a.negative_agrees e in ground arith;
        })

  put_negative-Tracks :
      (now : ℕ) (code : Bytes)
      → Tracks written c
      → Tracks (λ k. write k (puts_negative now code) (written k)) (put_negative now code c)
  unfolding put_negative write
  put_negative-Tracks now code t =
      let s = shard_at c code in
      let w = shard_at-ShardInv c code v in
      let entry = negative_entry c.config now code in
      with_shard-Tracks (puts_negative now code) code _ (λ k ne. rw ne) t
        (λ k a. record {
          positive_agrees = λ e h.
              let found = shard_put_negative-find_positive c.config code s w entry k in
              let old = a.positive_agrees e in ground arith;
          negative_agrees = λ e h.
              let found = shard_put_negative-find c.config code s w entry k e h in
              let old = a.negative_agrees e in ground arith;
        })

  erase_code-Tracks :
      (code : Bytes)
      → Tracks written c
      → Tracks (λ k. write k (erases code) (written k)) (erase_code code c)
  unfolding erase_code write
  erase_code-Tracks code t =
      let s = shard_at c code in
      let w = shard_at-ShardInv c code v in
      with_shard-Tracks (erases code) code _ (λ k ne. rw ne) t
        (λ k a.
          let (found, found') = shard_erase-find c.config code s w k in
          record {
            positive_agrees = λ e h. let old = a.positive_agrees e in ground arith;
            negative_agrees = λ e h. let old = a.negative_agrees e in ground arith;
          })

  pub step-Tracks : (op : Op) → Tracks written c → Tracks (λ k. write k op (written k)) (step op c)
  unfolding step
  step-Tracks (gets now wall code) t = get-Tracks now wall code t
  step-Tracks (puts_positive now drawn code long_url expire_at) t =
      put_positive-Tracks now drawn code long_url expire_at t
  step-Tracks (puts_negative now code) t = put_negative-Tracks now code t
  step-Tracks (erases code) t = erase_code-Tracks code t

run-Tracks :
    (ops : List Op) (written : Bytes → Written) (c : LocalUrlCache.LocalUrlCache)
    → All (HasRoom c.config) ops
    → Inv c
    → Tracks written c
    → Tracks (λ k. last_written k (written k) ops) (run ops c)
unfolding run last_written
run-Tracks [] written c room v t = t
run-Tracks (op ∷ ops) written c room v t =
    run-Tracks ops (λ k. write k op (written k)) (step op c) (rw (step_config op c) room.1)
      (step-Inv op c room.0 v) (step-Tracks written c v op t)

configure-Tracks :
    (n p q : ℕ) (ttl jitter negative_ttl : ℤ)
    → Tracks (λ k. nothing) (configure n p q ttl jitter negative_ttl)
unfolding configure find
configure-Tracks n p q ttl jitter negative_ttl k =
    rw (get_or-replicate (max 1 n) (shard_index (max 1 n) k))
      (record { positive_agrees = λ e h. absurd (cc); negative_agrees = λ e h. absurd (cc) })
  where
    get_or-replicate : (m i : ℕ) → get_or (replicate m new_shard) i new_shard ≡ new_shard
    get_or-replicate zero i = refl
    get_or-replicate (suc m) zero = refl
    get_or-replicate (suc m) (suc i) = get_or-replicate m i

-- The answers that agree with the last write and the two clocks.
abbrev pub IsCurrent : Bytes → Written → Status → Type 0
IsCurrent wall w (hit view) = (w ≡ stored view) × (is_business_expired wall view.expire_at ≡ false)
IsCurrent wall w (expired view) =
    (w ≡ stored view) × (is_business_expired wall view.expire_at ≡ true)
IsCurrent wall w miss = Unit {0}
IsCurrent wall w neg_hit = w ≡ negative

-- After any series of calls on a new cache, `get` answers a hit only with the value that was last
-- written for the code, and only while its business time runs; it answers expired only with that
-- value, when its time is over; and it answers from the negative table only if a negative entry
-- was the last write.
pub get-IsCurrent :
    (n p q : ℕ) (ttl jitter negative_ttl : ℤ) (ops : List Op) (now : ℕ) (wall code : Bytes)
    → All (HasRoom (configure n p q ttl jitter negative_ttl).config) ops
    → IsCurrent wall
        (last_written code nothing ops)
        (get now wall code (run ops (configure n p q ttl jitter negative_ttl))).0
unfolding get
get-IsCurrent n p q ttl jitter negative_ttl ops now wall code room =
    let c = configure n p q ttl jitter negative_ttl in
    let v = configure-Inv n p q ttl jitter negative_ttl in
    let d = run ops c in
    let w = (run-Inv ops c room v).0 in
    let t =
      run-Tracks ops (λ k. nothing) c room v (configure-Tracks n p q ttl jitter negative_ttl) in
    current _ (t code)
      (shard_get-Answers d.config now wall code (shard_at d code) (shard_at-ShardInv d code w)).0
  where
    current :
        {s : Shard} {written : Bytes → Written} (st : Status)
        → Agrees written code s
        → Serves now wall code s st
        → IsCurrent wall (written code) st
    current (hit view) a (e, there, same, live, valid) = (
      a.positive_agrees e there ∙ ap stored same,
      ap (λ (x : EntryView). is_business_expired wall x.expire_at) (sym same) ∙ valid,
    )
    current (expired view) a (e, there, same, live, over) = (
      a.positive_agrees e there ∙ ap stored same,
      ap (λ (x : EntryView). is_business_expired wall x.expire_at) (sym same) ∙ over,
    )
    current miss a h = tt
    current neg_hit a (stale, (e, there, live)) = a.negative_agrees e there
