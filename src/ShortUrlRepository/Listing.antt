-- ===== src/ShortUrlRepository/Listing.antt =====
-- The tables that `list_active_codes` asks hold the rows of every code.
use mathlib.Core.Path.{subst}
use cpp_url_shortener.ShardRouter.{ShardRouter, ShardRoute, bucket_of, all_routes}
use cpp_url_shortener.ShardRouter.Buckets
use cpp_url_shortener.ShardRouter.Buckets.{route_for_code-all_routes}
use cpp_url_shortener.ShortUrlRepository.{
  Answer, rows, no_result, query_failed, Row, short_url_table_for_code, tables, list_sql, codes_in,
  add_rows, list_tables, list_active_codes,
}
use cpp_url_shortener.Common.{
  ℕ, zero, suc, ◌≡◌, refl, sym, ap, ◌∙◌, ◌⊎◌, inl, inr, Option, none, some, List, [], ◌∷◌, ◌++◌,
  map, arith, Bool-cases, get_elem?, Bytes,
}

abbrev pub IsIn : Bytes → List Bytes → Type 0
IsIn c [] = ⊥
IsIn c (x ∷ xs) = (x ≡ c) ⊎ IsIn c xs

IsIn-append : (c : Bytes) (xs ys : List Bytes) → IsIn c xs ⊎ IsIn c ys → IsIn c (xs ++ ys)
IsIn-append c [] ys (inl h) = absurd h
IsIn-append c [] ys (inr h) = h
IsIn-append c (x ∷ xs) ys (inl (inl e)) = inl e
IsIn-append c (x ∷ xs) ys (inl (inr h)) = inr (IsIn-append c xs ys (inl h))
IsIn-append c (x ∷ xs) ys (inr h) = inr (IsIn-append c xs ys (inr h))

get_elem-map :
    {A B : Type 0} (f : A → B) (xs : List A) (i : ℕ) (a : A)
    → get_elem? xs i ≡ some a
    → get_elem? (map f xs) i ≡ some (f a)
get_elem-map f [] i a h = absurd (cc)
get_elem-map f (x ∷ xs) zero a h = ground (arith, h)
get_elem-map f (x ∷ xs) (suc i) a h = get_elem-map f xs i a h

-- The tables that are listed.
tables-code :
    (escape : Bytes → Bytes) (router : ShardRouter) (code : Bytes)
    → Buckets.IsValid router
    → (i : ℕ) × (get_elem? (tables escape router) i ≡ some (short_url_table_for_code router code))
unfolding tables short_url_table_for_code
tables-code escape router code v = elim (Bool-cases router.enabled) [
  | inr off ↦ (0, simp off)
  | inl on ↦ (
    bucket_of router code,
    simp on (
        get_elem-map (λ (r : ShardRoute). r.qualified_table) (all_routes router)
          (bucket_of router code) _ (route_for_code-all_routes router v code).0),
  )
]

rows_of : Answer → List Row
rows_of (rows found_rows) = found_rows
rows_of (query_failed errno text) = []
rows_of (no_result text) = []

module _ (escape : Bytes → Bytes) (router : ShardRouter) (mysql : Bytes → Answer) where
  add_rows-some :
      (answer : Answer) (rest : Option (List Bytes)) (all : List Bytes)
      → add_rows escape router answer rest ≡ some all
      → (found_rows : List Row) × (later : List Bytes) × (answer ≡ rows found_rows)
        × (rest ≡ some later)
        × (codes_in escape router found_rows ++ later ≡ all)
  unfolding add_rows
  add_rows-some (query_failed errno text) rest all h = absurd (cc)
  add_rows-some (no_result text) rest all h = absurd (cc)
  add_rows-some (rows found_rows) none all h = absurd (cc)
  add_rows-some (rows found_rows) (some later) all h = (found_rows, later, refl, refl, cc)

  list_tables-all :
      (names : List Bytes) (i : ℕ) (table : Bytes) (found_rows : List Row) (all : List Bytes)
      (c : Bytes)
      → get_elem? names i ≡ some table
      → mysql (list_sql escape router table) ≡ rows found_rows
      → list_tables escape router mysql names ≡ some all
      → IsIn c (codes_in escape router found_rows)
      → IsIn c all
  unfolding list_tables rows_of
  list_tables-all [] i table found_rows all c at answer listed there = absurd (cc)
  list_tables-all (t ∷ names) zero table found_rows all c at answer listed there =
      let (here, later, said, rest, whole) =
        add_rows-some (mysql (list_sql escape router t)) _ all listed in
      let named : t ≡ table = cc in
      let same : found_rows ≡ here =
        ap rows_of
          (sym answer ∙ ap (λ (x : Bytes). mysql (list_sql escape router x)) (sym named) ∙ said) in
      subst (IsIn c) whole (
        IsIn-append c (codes_in escape router here) later
          (inl (subst (λ (r : List Row). IsIn c (codes_in escape router r)) same there)))
  list_tables-all (t ∷ names) (suc i) table found_rows all c at answer listed there =
      let (here, later, said, rest, whole) =
        add_rows-some (mysql (list_sql escape router t)) _ all listed in
      subst (IsIn c) whole (
        IsIn-append c (codes_in escape router here) later
          (inr (list_tables-all names i table found_rows later c at answer rest there)))

  -- Where `list_active_codes` succeeds, the list it gives has every code that MySQL answers for
  -- the table in which `create` and `find_long_url` keep the rows of that code, with and without
  -- sharding.
  pub list_active_codes_complete :
      (code : Bytes) (found_rows : List Row) (all : List Bytes)
      → Buckets.IsValid router
      → list_active_codes escape router (some mysql) ≡ some all
      → mysql (list_sql escape router (short_url_table_for_code router code)) ≡ rows found_rows
      → IsIn code (codes_in escape router found_rows)
      → IsIn code all
  unfolding list_active_codes
  list_active_codes_complete code found_rows all v listed answer there =
      let (i, at) = tables-code escape router code v in
      list_tables-all (tables escape router) i _ found_rows all code at answer listed there
