-- ===== src/LocalUrlCache/Reads.antt =====
-- What `get` returns, on every branch, by the entries of its shard and the two clocks.
use cpp_url_shortener.Common.{
  ℕ, ◌≤◌, ◌<◌, ◌≡◌, refl, inl, inr, true, false, some, arith, leb, Bool-cases, Option-cases, Bytes,
  find,
}
use cpp_url_shortener.LocalUrlCache.Eviction.Counts.{drop_entry-drop_found}
use cpp_url_shortener.LocalUrlCache.{
  Status, hit, expired, miss, neg_hit, PositiveEntry, NegativeEntry, positive_size, negative_size,
  view_of, Shard, Config, is_business_expired, get_negative, get_found, shard_get,
}
use cpp_url_shortener.LocalUrlCache.Invariant.{
  ShardInv, Less, Less-refl, Less-trans, without_positive_lem, without_negative_lem,
}

-- The live negative entry behind a `neg_hit`, and the absence of one behind a `miss`.
abbrev pub ServesNegative : ℕ → Bytes → Shard → Status → Type 0
ServesNegative now code s neg_hit =
    (e : NegativeEntry) × (find code s.negative.entries ≡ some e) × (now < e.cache_expire)
ServesNegative now code s miss =
    (e : NegativeEntry) → find code s.negative.entries ≡ some e → e.cache_expire ≤ now
ServesNegative now code s _ = ⊥

-- A hit is an entry that is live by both clocks; an expired answer is one within its cache time
-- whose business time has passed; the rest is said by the negative table, and then no positive
-- entry is within its cache time.
abbrev pub Serves : ℕ → Bytes → Bytes → Shard → Status → Type 0
Serves now wall code s (hit w) =
    (e : PositiveEntry) × (find code s.positive.entries ≡ some e)
    × (view_of e ≡ w)
    × (now < e.cache_expire)
    × (is_business_expired wall e.expire_at ≡ false)
Serves now wall code s (expired w) =
    (e : PositiveEntry) × (find code s.positive.entries ≡ some e)
    × (view_of e ≡ w)
    × (now < e.cache_expire)
    × (is_business_expired wall e.expire_at ≡ true)
Serves now wall code s miss =
    ((e : PositiveEntry) → find code s.positive.entries ≡ some e → e.cache_expire ≤ now)
    × ServesNegative now code s miss
Serves now wall code s neg_hit =
    ((e : PositiveEntry) → find code s.positive.entries ≡ some e → e.cache_expire ≤ now)
    × ServesNegative now code s neg_hit

module _ (config : Config) (now : ℕ) (wall code : Bytes) where
  -- The answer fits the shard before, and the shard after is valid and holds nothing new.
  abbrev pub Answers : Shard → Status × Shard → Type 0
  Answers s r = Serves now wall code s r.0 × ShardInv config r.1 × Less r.1 s

  abbrev AnswersNegative : Shard → Status × Shard → Type 0
  AnswersNegative s r = ServesNegative now code s r.0 × ShardInv config r.1 × Less r.1 s

  get_negative-AnswersNegative :
      (s : Shard) → ShardInv config s → AnswersNegative s (get_negative now code s)
  unfolding get_negative
  get_negative-AnswersNegative s v = elim (Option-cases (find code s.negative.entries)) [
    | inl none_there ↦ rw (none_there, get_negative) ((λ e h. absurd (cc)), v, Less-refl s)
    | inr (e, there) ↦ elim (Bool-cases (leb e.cache_expire now)) [
      | inl stale ↦
          let (w, less) = without_negative_lem config code s v in
          rw
            (
              there,
              stale,
              get_negative,
              ← drop_entry-drop_found negative_size code e s.negative there,
            )
            ((λ e' h. ground arith), w, less)
      | inr live ↦ rw (there, live, get_negative) ((e, there, ground arith), v, Less-refl s)
    ]
  ]

  -- With no live positive entry, the answer is that of the negative table.
  from_negative :
      (s t : Shard) (r : Status × Shard)
      → ((e : PositiveEntry) → find code s.positive.entries ≡ some e → e.cache_expire ≤ now)
      → Less t s
      → t.negative ≡ s.negative
      → AnswersNegative t r
      → Answers s r
  from_negative s t (hit w, u) stale less same a = absurd a.0
  from_negative s t (expired w, u) stale less same a = absurd a.0
  from_negative s t (miss, u) stale less same (a, w, l) =
      ((stale, λ e h. a e (rw same h)), w, Less-trans u t s l less)
  from_negative s t (neg_hit, u) stale less same ((e, h, lt), w, l) =
      ((stale, (e, rw (← same) h, lt)), w, Less-trans u t s l less)

  get_found-Answers :
      (s : Shard) (e : PositiveEntry)
      → ShardInv config s
      → find code s.positive.entries ≡ some e
      → Answers s (get_found now wall code e s)
  unfolding get_found
  get_found-Answers s e v there =
      let (w, less) = without_positive_lem config code s v in
      let same = drop_entry-drop_found positive_size code e s.positive there in
      elim (Bool-cases (leb e.cache_expire now)) [
        | inl stale ↦
            rw (stale, ← same)
              (from_negative s _ _ (λ e' h. ground arith) less refl
                (get_negative-AnswersNegative _ w))
        | inr live ↦ elim (Bool-cases (is_business_expired wall e.expire_at)) [
          | inl over ↦ rw (live, over, ← same) ((e, there, refl, ground arith, over), w, less)
          | inr valid ↦ rw (live, valid) ((e, there, refl, ground arith, valid), v, Less-refl s)
        ]
      ]

  -- On every branch of `get` the answer is the one that the entries of the code call for, the
  -- shard stays valid, and nothing is added to it.
  pub shard_get-Answers : (s : Shard) → ShardInv config s → Answers s (shard_get now wall code s)
  unfolding shard_get
  shard_get-Answers s v = elim (Option-cases (find code s.positive.entries)) [
    | inl none_there ↦
        rw (none_there, shard_get)
          (from_negative s s _ (λ e h. absurd (cc)) (Less-refl s) refl
            (get_negative-AnswersNegative s v))
    | inr (e, there) ↦ rw (there, shard_get) (get_found-Answers s e v there)
  ]
