-- ===== src/BloomFilter.antt =====
-- shorturl/bloom_filter.{h,cpp}: `BloomFilter`. A vector of bytes, one bit for each index; every
-- operation holds the mutex, so it is one step.
pub mod Membership
mod Tests
use cpp_url_shortener.Common.{
  ℕ, zero, suc, ◌+◌, ◌*◌, ◌/◌, ◌%◌, ◌^◌, max, bit_and, bit_or, bit_xor, Bool, true, false, not,
  ◌||◌, List, [], ◌==◌, if◌then◌else◌, get_or, set, replicate, Bytes, fnv_offset, fnv1a_from,
}

pub record BloomFilter : Type 0 where
  pub bits : List ℕ
  pub bit_count : ℕ
  pub hash_count : ℕ
  pub inserted_count : ℕ

abbrev pub new_filter : BloomFilter
new_filter = record { bits = []; bit_count = 0; hash_count = 0; inserted_count = 0 }

unfoldable pub reset : ℕ → ℕ → BloomFilter
reset bit_count hash_count =
    let count = max bit_count 8 in
    record {
      bits = replicate ((count + 7) % 2 ^ 64 / 8) 0;
      bit_count = count;
      hash_count = max hash_count 1;
      inserted_count = 0;
    }

abbrev pub shift_right : ℕ → ℕ → ℕ
shift_right h k = h / 2 ^ k

unfoldable pub hash : Bytes → ℕ → ℕ
hash value seed =
    let h = fnv1a_from (bit_xor fnv_offset seed) value in
    let h = bit_xor h (shift_right h 33) in
    let h = h * 0xff51afd7ed558ccd % 2 ^ 64 in
    let h = bit_xor h (shift_right h 33) in
    let h = h * 0xc4ceb9fe1a85ec53 % 2 ^ 64 in bit_xor h (shift_right h 33)

-- `1U << (idx % 8)`
abbrev pub mask : ℕ → ℕ
mask idx = 2 ^ (idx % 8)

unfoldable pub set_bit : ℕ → List ℕ → List ℕ
set_bit idx bits = set bits (idx / 8) (bit_or (get_or bits (idx / 8) 0) (mask idx))

unfoldable pub get_bit : ℕ → List ℕ → Bool
get_bit idx bits = not (bit_and (get_or bits (idx / 8) 0) (mask idx) == 0)

-- The index of the round `i`; the sum wraps.
unfoldable pub probe : ℕ → ℕ → ℕ → ℕ → ℕ
probe bit_count h1 h2 i = (h1 + i * h2 % 2 ^ 64) % 2 ^ 64 % bit_count

-- The loops of `add` and `might_contain`: the rounds to go, and the round.
unfoldable pub add_loop : ℕ → ℕ → ℕ → ℕ → ℕ → List ℕ → List ℕ
add_loop zero i bit_count h1 h2 bits = bits
add_loop (suc rounds) i bit_count h1 h2 bits =
    add_loop rounds (suc i) bit_count h1 h2 (set_bit (probe bit_count h1 h2 i) bits)

unfoldable pub contain_loop : ℕ → ℕ → ℕ → ℕ → ℕ → List ℕ → Bool
contain_loop zero i bit_count h1 h2 bits = true
contain_loop (suc rounds) i bit_count h1 h2 bits = elim (get_bit (probe bit_count h1 h2 i) bits) [
  | true ↦ contain_loop rounds (suc i) bit_count h1 h2 bits
  | false ↦ false
]

abbrev pub seed1 : ℕ
seed1 = 0x9e3779b185ebca87

abbrev pub seed2 : ℕ
seed2 = 0xc2b2ae3d27d4eb4f

unfoldable pub add : Bytes → BloomFilter → BloomFilter
add value f = if f.bit_count == 0 || f.hash_count == 0 then f else record f {
  bits = add_loop f.hash_count 0 f.bit_count (hash value seed1) (hash value seed2) f.bits;
  inserted_count = (f.inserted_count + 1) % 2 ^ 64;
}

unfoldable pub might_contain : Bytes → BloomFilter → Bool
might_contain value f =
    if f.bit_count == 0 || f.hash_count == 0
    then true
    else contain_loop f.hash_count 0 f.bit_count (hash value seed1) (hash value seed2) f.bits
