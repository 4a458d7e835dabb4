-- ===== src/LocalUrlCache/Eviction/Lookups.antt =====
-- What a table holds after each of its operations.
use cpp_url_shortener.Common.{
  ℕ, ◌+◌, ◌^◌, ◌≤◌, ◌<◌, ◌≡◌, refl, sym, ◌∙◌, inl, inr, true, none, some, List, [], ◌∷◌, arith, leb,
  if◌then◌else◌, Bool-cases, Option-cases, Bytes, bytes_eq, bytes_eq_iff, find, erase, Distinct,
  find-insert, find-erase_ne, find-erase_self, erase-Distinct, insert-Distinct, size-le-total,
}
use cpp_url_shortener.LocalUrlCache.Eviction.{
  sub64, Table, drop_found, drop_entry, evict_loop, evict, put_entry, store,
}
use cpp_url_shortener.LocalUrlCache.Eviction.Counts.{IsCounted}

module _ {V : Type 0} (size : V → ℕ) where
  -- Eviction only takes entries away.
  abbrev pub Subset : List (Bytes × V) → List (Bytes × V) → Type 0
  Subset less more = (k : Bytes) (e : V) → find k less ≡ some e → find k more ≡ some e

  erase-Subset :
      (code : Bytes) (entries : List (Bytes × V))
      → Distinct entries
      → Subset (erase code entries) entries
  erase-Subset code entries d k e h = elim (Bool-cases (bytes_eq code k)) [
    | inl same ↦
        let eq : code ≡ k = (bytes_eq_iff code k).0 same in
        absurd (let none_left = find-erase_self code entries d in cc)
    | inr other ↦ rw (← find-erase_ne code k entries other) h
  ]

  pub evict_loop-Subset :
      (budget : ℕ) (fifo : List Bytes) (entries : List (Bytes × V)) (bytes : ℕ)
      → Distinct entries
      → Subset (evict_loop size budget fifo entries bytes).entries entries
  unfolding evict_loop
  evict_loop-Subset budget [] entries bytes d k e h = h
  evict_loop-Subset budget (victim ∷ fifo) entries bytes d k e h =
      elim (Bool-cases (leb bytes budget)) [
        | inl fits ↦ rw (fits, evict_loop) at h
        | inr over ↦ elim (Option-cases (find victim entries)) [
          | inl miss ↦
              evict_loop-Subset budget fifo entries bytes d k e (rw (over, miss, evict_loop) at h)
          | inr (found, hit) ↦ erase-Subset victim entries d k e (
              evict_loop-Subset budget fifo (erase victim entries) (sub64 bytes (size found))
                (erase-Distinct victim entries d) k e (rw (over, hit, evict_loop) at h))
        ]
      ]

  evict_fitting :
      (budget : ℕ) (t : Table V) → t.bytes ≤ budget → (evict size budget t).entries ≡ t.entries
  unfolding evict evict_loop
  evict_fitting budget t h = fitting t.fifo
    where
      fitting :
          (fifo : List Bytes) → (evict_loop size budget fifo t.entries t.bytes).entries ≡ t.entries
      fitting [] = refl
      fitting (victim ∷ fifo) =
          let yes_fits : leb t.bytes budget ≡ true = ground arith in rw (yes_fits, evict_loop)

  find-put_entry :
      (code k : Bytes) (entry : V) (t : Table V)
      → find k (put_entry size code entry t).entries
        ≡ (if bytes_eq code k then some entry else find k t.entries)
  unfolding put_entry
  find-put_entry code k entry t = ground (arith, find-insert code k entry t.entries)

  put_entry-Distinct :
      (code : Bytes) (entry : V) (t : Table V)
      → Distinct t.entries
      → Distinct (put_entry size code entry t).entries
  unfolding put_entry
  put_entry-Distinct code entry t d = ground (arith, insert-Distinct code entry t.entries d)

  -- What a table holds after a store is the new entry, or was there before.
  pub store_sound :
      (budget : ℕ) (code k : Bytes) (entry e : V) (t : Table V)
      → Distinct t.entries
      → find k (store size budget code entry t).entries ≡ some e
      → (if bytes_eq code k then some entry else find k t.entries) ≡ some e
  unfolding store evict
  store_sound budget code k entry e t d h =
      let p = put_entry size code entry t in
      sym (find-put_entry code k entry t)
      ∙ evict_loop-Subset budget p.fifo p.entries p.bytes (put_entry-Distinct code entry t d) k e h

  -- An entry for which there is room is kept, and nothing makes way for it.
  pub find-store_fitting :
      (budget : ℕ) (code k : Bytes) (entry : V) (t : Table V)
      → IsCounted size t
      → t.bytes + size entry ≤ budget
      → budget < 2 ^ 64
      → find k (store size budget code entry t).entries
        ≡ (if bytes_eq code k then some entry else find k t.entries)
  unfolding store
  find-store_fitting budget code k entry t v room big =
      rw (evict_fitting budget (put_entry size code entry t) (put_entry_bytes-le))
        (find-put_entry code k entry t)
    where
      put_entry_bytes-le : (put_entry size code entry t).bytes ≤ budget
      put_entry_bytes-le = elim (Option-cases (find code t.entries)) [
        | inl miss ↦ unfold put_entry in rw (miss, put_entry) (omega arith)
        | inr (old, hit) ↦
            let part = size-le-total size code old t.entries hit in
            let x = v.exact in unfold put_entry in rw (hit, put_entry) (omega arith)
      ]

  -- A dropped code is gone, and the others stay.
  pub find-drop_entry :
      (code k : Bytes) (t : Table V)
      → Distinct t.entries
      → find k (drop_entry size code t).entries
        ≡ (if bytes_eq code k then none else find k t.entries)
  unfolding drop_entry drop_found
  find-drop_entry code k t d =
      ground (
        arith,
        find-erase_self code t.entries d,
        find-erase_ne code k t.entries,
        bytes_eq_iff code k,
      )
