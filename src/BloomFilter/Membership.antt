-- ===== src/BloomFilter/Membership.antt =====
-- A value that was added is never reported absent.
use cpp_url_shortener.Common.{
  ℕ, zero, suc, ◌+◌, ◌*◌, ◌/◌, ◌%◌, ◌^◌, ◌≤◌, ◌<◌, max, bit_and, bit_or, ◌≡◌, refl, inl, inr, Bool,
  true, false, not, ◌&&◌, ◌||◌, List, [], ◌∷◌, arith, ltb, ◌==◌, Bool-cases, length, get_or, All,
  length-set, get_or-set_self, get_or-set_ne, length-replicate, Bytes, passes_below,
  passes_below_lem, All-get_or, All-set, All-replicate,
}
use cpp_url_shortener.BloomFilter.{
  BloomFilter, reset, hash, mask, set_bit, get_bit, probe, add_loop, contain_loop, seed1, seed2,
  add, might_contain,
}

-- Every index has its byte, and the bytes are bytes.
pub record IsValid (f : BloomFilter) : Type 0 where
  pub covered : f.bit_count ≤ 8 * length f.bits
  pub bytes : All (λ b. b < 256) f.bits

table :
    passes_below
      (λ b.
        passes_below
          (λ k.
            passes_below
              (λ j.
                let set_k = bit_or b (2 ^ k) in
                ltb set_k 256
                && (not (bit_and set_k (2 ^ k) == 0)
                    && (not (not (bit_and b (2 ^ j) == 0)) || not (bit_and set_k (2 ^ j) == 0))))
              8)
          8)
      256
    ≡ true
unfolding passes_below
table = refl

bits_of_byte :
    (b k j : ℕ)
    → b < 256
    → k < 8
    → j < 8
    → (bit_or b (2 ^ k) < 256)
      × ((bit_and (bit_or b (2 ^ k)) (2 ^ k) == 0) ≡ false)
      × ((bit_and b (2 ^ j) == 0) ≡ false → (bit_and (bit_or b (2 ^ k)) (2 ^ j) == 0) ≡ false)
bits_of_byte b k j hb hk hj =
    let row = passes_below_lem _ 256 table b hb in
    let col = passes_below_lem _ 8 row k hk in
    let cell = passes_below_lem _ 8 col j hj in ground arith

get_bit-set_bit :
    (i j : ℕ) (bits : List ℕ)
    → All (λ b. b < 256) bits
    → i / 8 < length bits
    → (get_bit i (set_bit i bits) ≡ true)
      × (get_bit j bits ≡ true → get_bit j (set_bit i bits) ≡ true)
unfolding get_bit set_bit
get_bit-set_bit i j bits bytes h =
    let cell = λ (k : ℕ). get_or bits k 0 in
    let fact_i =
      bits_of_byte (cell (i / 8)) (i % 8) (j % 8) (All-get_or _ bits (i / 8) 0 bytes (omega arith))
        (omega arith) (omega arith) in
    let self = get_or-set_self bits (i / 8) (bit_or (cell (i / 8)) (mask i)) 0 h in
    (
      rw (self, fact_i.1),
      (λ on. elim (Bool-cases (i / 8 == j / 8)) [
        | inl same ↦
            let e : j / 8 ≡ i / 8 = ground arith in rw (e, self, fact_i.2 (ground (arith, e)))
        | inr other ↦
            let kept =
              get_or-set_ne bits (i / 8) (j / 8) (bit_or (cell (i / 8)) (mask i)) 0
                (ground arith) in
            rw (kept, on)
      ]),
    )

-- One list of bytes has every bit of another.
abbrev Covers : List ℕ → List ℕ → Type 0
Covers bits more = (j : ℕ) → get_bit j bits ≡ true → get_bit j more ≡ true

module _ (bit_count h1 h2 : ℕ) (positive : 0 < bit_count) where
  abbrev Sound : List ℕ → Type 0
  Sound bits = All (λ b. b < 256) bits × (bit_count ≤ 8 * length bits)

  probe-lt : (i : ℕ) → probe bit_count h1 h2 i < bit_count
  unfolding probe
  probe-lt i = grind arith

  set_bit-Sound :
      (i : ℕ) (bits : List ℕ) → Sound bits → Sound (set_bit (probe bit_count h1 h2 i) bits)
  unfolding set_bit
  set_bit-Sound i bits (bytes, wide) =
      let idx = probe bit_count h1 h2 i in
      let new = bit_or (get_or bits (idx / 8) 0) (mask idx) in
      (
        All-set _ bits (idx / 8) new bytes
            (bits_of_byte (get_or bits (idx / 8) 0) (idx % 8) 0
              (All-get_or _ bits (idx / 8) 0 bytes (omega arith)) (omega arith) (omega arith)).0,
        omega (arith, length-set bits (idx / 8) new),
      )

  add_loop_lem :
      (rounds i : ℕ) (bits : List ℕ)
      → Sound bits
      → Sound (add_loop rounds i bit_count h1 h2 bits)
        × Covers bits (add_loop rounds i bit_count h1 h2 bits)
  unfolding add_loop
  add_loop_lem zero i bits h = (h, (λ j on. on))
  add_loop_lem (suc rounds) i bits h =
      let idx = probe bit_count h1 h2 i in
      let later = add_loop_lem rounds (suc i) (set_bit idx bits) (set_bit-Sound i bits h) in
      let small = probe-lt i in
      (
        later.0,
        (λ j on. later.1 j ((get_bit-set_bit idx j bits h.0 (let w = h.1 in omega arith)).1 on)),
      )

  contain_loop-Covers :
      (rounds i : ℕ) (bits more : List ℕ)
      → Covers bits more
      → contain_loop rounds i bit_count h1 h2 bits ≡ true
      → contain_loop rounds i bit_count h1 h2 more ≡ true
  unfolding contain_loop
  contain_loop-Covers zero i bits more c h = refl
  contain_loop-Covers (suc rounds) i bits more c h =
      elim (Bool-cases (get_bit (probe bit_count h1 h2 i) bits)) [
        | inl on ↦
            rw (c _ on, contain_loop)
              (contain_loop-Covers rounds (suc i) bits more c (rw (on, contain_loop) at h))
        | inr off ↦ absurd (ground arith)
      ]

  contain_loop-add_loop :
      (rounds i : ℕ) (bits : List ℕ)
      → Sound bits
      → contain_loop rounds i bit_count h1 h2 (add_loop rounds i bit_count h1 h2 bits) ≡ true
  unfolding contain_loop add_loop
  contain_loop-add_loop zero i bits h = refl
  contain_loop-add_loop (suc rounds) i bits h =
      let idx = probe bit_count h1 h2 i in
      let small = probe-lt i in
      let next = set_bit-Sound i bits h in
      let on = (get_bit-set_bit idx 0 bits h.0 (let w = h.1 in omega arith)).0 in
      rw ((add_loop_lem rounds (suc i) (set_bit idx bits) next).1 idx on, contain_loop)
        (contain_loop-add_loop rounds (suc i) (set_bit idx bits) next)

pub reset-IsValid :
    (bit_count hash_count : ℕ) → bit_count < 2 ^ 63 → IsValid (reset bit_count hash_count)
unfolding reset
reset-IsValid bit_count hash_count h = record {
  covered = omega (arith, length-replicate ((max bit_count 8 + 7) % 2 ^ 64 / 8) (zero));
  bytes = All-replicate _ ((max bit_count 8 + 7) % 2 ^ 64 / 8) 0 (omega arith);
}

-- A filter with no bits or no hashes stays as it is, and contains everything.
abbrev is_off : BloomFilter → Bool
is_off f = f.bit_count == 0 || f.hash_count == 0

module _ (f : BloomFilter) (valid : IsValid f) (value : Bytes) where
  add-IsValid : IsValid (add value f)
  unfolding add
  add-IsValid = elim (Bool-cases (is_off f)) [
    | inl off ↦ rw off valid
    | inr on ↦
        let kept =
          (add_loop_lem f.bit_count (hash value seed1) (hash value seed2) (ground arith)
            f.hash_count 0 f.bits (valid.bytes, valid.covered)).0 in
        rw on record { covered = kept.1; bytes = kept.0 }
  ]

  pub might_contain-add_self : might_contain value (add value f) ≡ true
  unfolding add might_contain
  might_contain-add_self = elim (Bool-cases (is_off f)) [
    | inl off ↦ rw (off, off)
    | inr on ↦
        rw (on, on)
          (contain_loop-add_loop f.bit_count (hash value seed1) (hash value seed2) (ground arith)
            f.hash_count 0 f.bits (valid.bytes, valid.covered))
  ]

  might_contain-add :
      (other : Bytes) → might_contain other f ≡ true → might_contain other (add value f) ≡ true
  unfolding add might_contain
  might_contain-add other h = elim (Bool-cases (is_off f)) [
    | inl off ↦ rw (off, off)
    | inr on ↦
        rw (on, on)
          (contain_loop-Covers f.bit_count (hash other seed1) (hash other seed2) (ground arith)
            f.hash_count 0 f.bits _
            (add_loop_lem f.bit_count (hash value seed1) (hash value seed2) (ground arith)
              f.hash_count 0 f.bits (valid.bytes, valid.covered)).1
            (rw on at h))
  ]

unfoldable pub add_all : List Bytes → BloomFilter → BloomFilter
add_all [] f = f
add_all (v ∷ values) f = add_all values (add v f)

add_all_lem :
    (values : List Bytes) (f : BloomFilter)
    → IsValid f
    → ((other : Bytes)
        → might_contain other f ≡ true
        → might_contain other (add_all values f) ≡ true)
      × All (λ v. might_contain v (add_all values f) ≡ true) values
unfolding add_all
add_all_lem [] f valid = ((λ other h. h), tt)
add_all_lem (v ∷ values) f valid =
    let (kept, found) = add_all_lem values (add v f) (add-IsValid f valid v) in
    (
      (λ other h. kept other (might_contain-add f valid v other h)),
      (kept v (might_contain-add_self f valid v), found),
    )

-- A filter of fewer than 2^63 bits has no false negative: each value that was added since the
-- reset might be contained, whatever was added before or after it.
pub might_contain-add_all :
    (bit_count hash_count : ℕ) (values : List Bytes)
    → bit_count < 2 ^ 63
    → All (λ v. might_contain v (add_all values (reset bit_count hash_count)) ≡ true) values
might_contain-add_all bit_count hash_count values h =
    (add_all_lem values (reset bit_count hash_count) (reset-IsValid bit_count hash_count h)).1
