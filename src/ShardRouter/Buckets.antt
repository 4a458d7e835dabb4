-- ===== src/ShardRouter/Buckets.antt =====
-- Every code is routed to one of the listed tables.
use cpp_url_shortener.Common.{
  ℕ, zero, suc, ◌+◌, ◌*◌, ◌/◌, ◌%◌, ◌^◌, ◌≤◌, ◌<◌, ◌≡◌, refl, sym, ap, ◌∙◌, false, some, List, [],
  ◌∷◌, ◌++◌, arith, ◌==◌, length, get_elem?, Bytes,
}
use native.Mathlib.Nat.{mul-le-mul, mul-pos, div-lt_iff_lt-mul, div-add-mod', mod-lt, mod-eq_of_lt}
use cpp_url_shortener.ShardRouter.{
  hash_code, ShardRouter, route_at, bucket_of, route_for_code, table_loop, database_loop,
  all_routes,
}

-- What `init` leaves: counts of an `int`, neither of them 0.
pub record IsValid (r : ShardRouter) : Type 0 where
  pub databases : (0 < r.database_count) × (r.database_count < 2 ^ 31)
  pub tables : (0 < r.table_count) × (r.table_count < 2 ^ 31)

module _ (r : ShardRouter) where
  length-table_loop : (db rounds table : ℕ) → length (table_loop r db rounds table) ≡ rounds
  unfolding table_loop
  length-table_loop db zero table = refl
  length-table_loop db (suc rounds) table = ap suc (length-table_loop db rounds (suc table))

  get_elem-table_loop :
      (db rounds table i : ℕ)
      → i < rounds
      → get_elem? (table_loop r db rounds table) i ≡ some (route_at r db (table + i))
  unfolding table_loop
  get_elem-table_loop db zero table i h = absurd (omega arith)
  get_elem-table_loop db (suc rounds) table zero h = ap (λ t. some (route_at r db t)) (omega arith)
  get_elem-table_loop db (suc rounds) table (suc i) h =
      get_elem-table_loop db rounds (suc table) i (omega arith)
      ∙ ap (λ t. some (route_at r db t)) (omega arith)

get_elem-append_left :
    {A : Type 0} (xs ys : List A) (i : ℕ) → i < length xs → get_elem? (xs ++ ys) i ≡ get_elem? xs i
get_elem-append_left [] ys i h = absurd (omega arith)
get_elem-append_left (x ∷ xs) ys zero h = refl
get_elem-append_left (x ∷ xs) ys (suc i) h = get_elem-append_left xs ys i (omega arith)

get_elem-append_right :
    {A : Type 0} (xs ys : List A) (i : ℕ) → get_elem? (xs ++ ys) (length xs + i) ≡ get_elem? ys i
get_elem-append_right [] ys i = ap (get_elem? ys) (omega arith)
get_elem-append_right (x ∷ xs) ys i =
    ap (get_elem? (x ∷ (xs ++ ys)))
      (let e : suc (length xs) + i ≡ suc (length xs + i) = omega arith in e)
    ∙ get_elem-append_right xs ys i

mul-lt_small : (a b : ℕ) → a < 2 ^ 31 → b < 2 ^ 31 → a * b < 2 ^ 64
mul-lt_small a b h k =
    let small : a ≤ 2 ^ 31 = omega arith in
    let small' : b ≤ 2 ^ 31 = omega arith in let bound = mul-le-mul small small' in omega arith

module _ (r : ShardRouter) where
  bucket_of-lt :
      (code : Bytes)
      → r.database_count * r.table_count < 2 ^ 64
      → 0 < r.database_count * r.table_count
      → bucket_of r code < r.database_count * r.table_count
  unfolding bucket_of
  bucket_of-lt code h k =
      let count = r.database_count * r.table_count in
      let whole : count % 2 ^ 64 ≡ count = mod-eq_of_lt h in
      let other : (count == 0) ≡ false = ground arith in
      rw (whole, other) (mod-lt (hash_code code) k)

  get_elem-database_loop :
      (rounds db d t : ℕ)
      → d < rounds
      → t < r.table_count
      → get_elem? (database_loop r rounds db) (d * r.table_count + t) ≡ some (route_at r (db + d) t)
  unfolding database_loop
  get_elem-database_loop zero db d t h k = absurd (omega arith)
  get_elem-database_loop (suc rounds) db zero t h k =
      ap (get_elem? (table_loop r db r.table_count 0 ++ database_loop r rounds (suc db)))
        (let e : 0 * r.table_count + t ≡ t = omega arith in e)
      ∙ get_elem-append_left (table_loop r db r.table_count 0) _ t
          (omega (arith, length-table_loop r db r.table_count 0))
      ∙ get_elem-table_loop r db r.table_count 0 t k
      ∙ cc ((let e : 0 + t ≡ t = omega arith in e), (let e : db + 0 ≡ db = omega arith in e))
  get_elem-database_loop (suc rounds) db (suc d) t h k =
      let here = table_loop r db r.table_count 0 in
      let size = length-table_loop r db r.table_count 0 in
      ap (get_elem? (here ++ database_loop r rounds (suc db))) (
        let e : suc d * r.table_count + t ≡ length here + (d * r.table_count + t) =
          omega (arith, size) in
        e)
      ∙ get_elem-append_right here (database_loop r rounds (suc db)) (d * r.table_count + t)
      ∙ get_elem-database_loop rounds (suc db) d t (omega arith) k
      ∙ ap (λ e. some (route_at r e t)) (omega arith)

  -- The route of a code is the entry of `all_routes` at the bucket of the code, and its two
  -- indices are within the configured counts.
  pub route_for_code-all_routes :
      IsValid r
      → (code : Bytes)
      → (get_elem? (all_routes r) (bucket_of r code) ≡ some (route_for_code r code))
        × ((route_for_code r code).database_index < r.database_count)
        × ((route_for_code r code).table_index < r.table_count)
  unfolding all_routes route_for_code route_at
  route_for_code-all_routes v code =
      let whole = v.databases in
      let T = v.tables in
      let product_lt : r.database_count * r.table_count < 2 ^ 64 =
        mul-lt_small r.database_count r.table_count whole.1 T.1 in
      let positive : 0 < r.database_count * r.table_count = mul-pos whole.0 T.0 in
      let lt : bucket_of r code < r.database_count * r.table_count =
        bucket_of-lt code product_lt positive in
      let db_lt : bucket_of r code / r.table_count < r.database_count =
        (div-lt_iff_lt-mul T.0).1 lt in
      let table_lt : bucket_of r code % r.table_count < r.table_count = grind arith in
      (
        ap (get_elem? (database_loop r r.database_count 0)) (
              let e : bucket_of r code
                  ≡ bucket_of r code / r.table_count * r.table_count
                    + bucket_of r code % r.table_count =
                sym (div-add-mod' (bucket_of r code) r.table_count) in
              e)
            ∙ get_elem-database_loop r.database_count 0 (bucket_of r code / r.table_count)
                (bucket_of r code % r.table_count) db_lt table_lt
            ∙ ap (λ d. some (route_at r d (bucket_of r code % r.table_count))) (omega arith),
        db_lt,
        table_lt,
      )
