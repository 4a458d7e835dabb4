-- ===== src/LocalUrlCache/Eviction/Counts.antt =====
-- The byte count of a table is exact, and eviction keeps it within the budget.
use cpp_url_shortener.Common.{
  ℕ, ◌+◌, ◌^◌, ◌≤◌, ◌<◌, ◌≡◌, refl, ◌≢◌, inl, inr, Bool, false, ◌||◌, none, some, List, [], ◌∷◌,
  ◌++◌, arith, leb, Bool-cases, Option-cases, Bytes, bytes_eq, bytes_eq_iff, bytes_eq_refl, find,
  erase, insert, total, Distinct, find-insert, find-erase_self, find-erase-none, erase-Distinct,
  insert-Distinct, total-erase, total-insert_new, total-insert_old, size-le-total,
}
use cpp_url_shortener.LocalUrlCache.Eviction.{
  sub64, Table, drop_found, drop_entry, evict_loop, evict, put_entry, store,
}

module _ {V : Type 0} (size : V → ℕ) where
  abbrev pub queued_in : Bytes → List Bytes → Bool
  queued_in k [] = false
  queued_in k (j ∷ fifo) = bytes_eq j k || queued_in k fifo

  abbrev pub Queued : List Bytes → List (Bytes × V) → Type 0
  Queued fifo entries = (k : Bytes) → queued_in k fifo ≡ false → find k entries ≡ none

  -- The count is exact, no code stands twice, and every code with an entry waits in the queue.
  pub record IsCounted (t : Table V) : Type 0 where
    pub exact : t.bytes ≡ total size t.entries
    pub fits : t.bytes < 2 ^ 64
    pub distinct : Distinct t.entries
    pub queued : Queued t.fifo t.entries

  drop_found-IsCounted :
      (code : Bytes) (e : V) (t : Table V)
      → IsCounted t
      → find code t.entries ≡ some e
      → IsCounted (drop_found size code e t)
  unfolding drop_found
  drop_found-IsCounted code e t v h =
      let x = v.exact in
      let f = v.fits in
      let d = total-erase size code e t.entries h in
      record {
        exact = omega arith;
        fits = omega arith;
        distinct = erase-Distinct code t.entries v.distinct;
        queued = λ k q. find-erase-none code k t.entries (v.queued k q);
      }

  pub drop_entry-IsCounted :
      (code : Bytes) (t : Table V) → IsCounted t → IsCounted (drop_entry size code t)
  unfolding drop_entry
  drop_entry-IsCounted code t v = elim (Option-cases (find code t.entries)) [
    | inl miss ↦ rw (miss, drop_entry) v
    | inr (e, hit) ↦ rw (hit, drop_entry) (drop_found-IsCounted code e t v hit)
  ]

  no_entries : (entries : List (Bytes × V)) → Queued [] entries → total size entries ≡ 0
  unfolding total find
  no_entries [] q = refl
  no_entries ((k, e) ∷ m) q = absurd (let h = q k refl in ground (arith, bytes_eq_refl k))

  Queued-tail :
      (victim : Bytes) (fifo : List Bytes) (entries : List (Bytes × V))
      → Queued (victim ∷ fifo) entries
      → find victim entries ≡ none
      → Queued fifo entries
  Queued-tail victim fifo entries q miss k h = ground (arith, q k, bytes_eq_iff victim k)

  drop_victim :
      (victim : Bytes) (e : V) (fifo : List Bytes) (entries : List (Bytes × V)) (bytes : ℕ)
      → IsCounted (record { entries = entries; fifo = victim ∷ fifo; bytes = bytes })
      → find victim entries ≡ some e
      → IsCounted
          (record { entries = erase victim entries; fifo = fifo; bytes = sub64 bytes (size e) })
  unfolding drop_found
  drop_victim victim e fifo entries bytes v hit =
      let d =
        drop_found-IsCounted victim e
          (record { entries = entries; fifo = victim ∷ fifo; bytes = bytes }) v hit in
      record {
        exact = d.exact;
        fits = d.fits;
        distinct = d.distinct;
        queued =
            Queued-tail victim fifo (erase victim entries) d.queued
              (find-erase_self victim entries v.distinct);
      }

  -- Where every code waits in the queue, the loop ends within the budget.
  evict_loop-lem :
      (budget : ℕ) (fifo : List Bytes) (entries : List (Bytes × V)) (bytes : ℕ)
      → IsCounted (record { entries = entries; fifo = fifo; bytes = bytes })
      → IsCounted (evict_loop size budget fifo entries bytes)
        × ((evict_loop size budget fifo entries bytes).bytes ≤ budget)
  unfolding evict_loop
  evict_loop-lem budget [] entries bytes v =
      let x = v.exact in (v, omega (arith, no_entries entries v.queued))
  evict_loop-lem budget (victim ∷ fifo) entries bytes v = elim (Bool-cases (leb bytes budget)) [
    | inl fits ↦ rw (fits, evict_loop) (v, ground arith)
    | inr over ↦ elim (Option-cases (find victim entries)) [
      | inl miss ↦
          rw (over, miss, evict_loop)
            (evict_loop-lem budget fifo entries bytes (record {
              exact = v.exact;
              fits = v.fits;
              distinct = v.distinct;
              queued = Queued-tail victim fifo entries v.queued miss;
            }))
      | inr (e, hit) ↦
          rw (over, hit, evict_loop)
            (evict_loop-lem budget fifo (erase victim entries) (sub64 bytes (size e))
              (drop_victim victim e fifo entries bytes v hit))
    ]
  ]

  evict_lem :
      (budget : ℕ) (t : Table V)
      → IsCounted t
      → IsCounted (evict size budget t) × ((evict size budget t).bytes ≤ budget)
  unfolding evict
  evict_lem budget t v = evict_loop-lem budget t.fifo t.entries t.bytes v

  Queued-insert :
      (code : Bytes) (entry : V) (t : Table V)
      → Queued t.fifo t.entries
      → find code t.entries ≢ none
      → Queued t.fifo (insert code entry t.entries)
  Queued-insert code entry t q present k h =
      ground (arith, q k, find-insert code k entry t.entries, bytes_eq_iff code k)

  queued_in-append :
      (k : Bytes) (fifo : List Bytes) (code : Bytes)
      → queued_in k (fifo ++ code ∷ []) ≡ queued_in k fifo || bytes_eq code k
  queued_in-append k [] code = ground arith
  queued_in-append k (j ∷ fifo) code = ground (arith, queued_in-append k fifo code)

  put_entry-IsCounted :
      (code : Bytes) (entry : V) (t : Table V)
      → IsCounted t
      → t.bytes + size entry < 2 ^ 64
      → IsCounted (put_entry size code entry t)
  unfolding put_entry
  put_entry-IsCounted code entry t v room = elim (Option-cases (find code t.entries)) [
    | inl miss ↦
        rw (miss, put_entry)
          (record {
            exact = omega (arith, v.exact, total-insert_new size code entry t.entries miss);
            fits = omega arith;
            distinct = insert-Distinct code entry t.entries v.distinct;
            queued = λ k h. ground (
              arith,
              v.queued k,
              queued_in-append k t.fifo code,
              find-insert code k entry t.entries,
            );
          })
    | inr (old, hit) ↦
        let x = v.exact in
        let f = v.fits in
        let part = size-le-total size code old t.entries hit in
        rw (hit, put_entry)
          (record {
            exact = omega (arith, total-insert_old size code entry old t.entries hit);
            fits = omega arith;
            distinct = insert-Distinct code entry t.entries v.distinct;
            queued = Queued-insert code entry t v.queued (λ gone. cc);
          })
  ]

  -- After a store the count is exact and within the budget, however large the entry.
  pub store_lem :
      (budget : ℕ) (code : Bytes) (entry : V) (t : Table V)
      → IsCounted t
      → t.bytes + size entry < 2 ^ 64
      → IsCounted (store size budget code entry t)
        × ((store size budget code entry t).bytes ≤ budget)
  unfolding store
  store_lem budget code entry t v room =
      evict_lem budget (put_entry size code entry t) (put_entry-IsCounted code entry t v room)

  pub drop_found_bytes-le :
      (code : Bytes) (e : V) (t : Table V)
      → IsCounted t
      → find code t.entries ≡ some e
      → (drop_found size code e t).bytes ≤ t.bytes
  unfolding drop_found
  drop_found_bytes-le code e t v h =
      let x = v.exact in
      let f = v.fits in let part = size-le-total size code e t.entries h in omega arith

  pub drop_entry_bytes-le :
      (code : Bytes) (t : Table V) → IsCounted t → (drop_entry size code t).bytes ≤ t.bytes
  unfolding drop_entry
  drop_entry_bytes-le code t v = elim (Option-cases (find code t.entries)) [
    | inl miss ↦ rw (miss, drop_entry) (omega arith)
    | inr (e, hit) ↦ rw (hit, drop_entry) (drop_found_bytes-le code e t v hit)
  ]

  -- The `find` of `drop_entry` finds what the caller has found.
  pub drop_entry-drop_found :
      (code : Bytes) (e : V) (t : Table V)
      → find code t.entries ≡ some e
      → drop_entry size code t ≡ drop_found size code e t
  unfolding drop_entry
  drop_entry-drop_found code e t hit = rw (hit, drop_entry)
