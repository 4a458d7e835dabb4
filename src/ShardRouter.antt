-- ===== src/ShardRouter.antt =====
-- shorturl/shard_router.{h,cpp}: `ShardRouter`, the table in which the row of a code lives.
pub mod Buckets
pub mod Names
mod Tests
use cpp_url_shortener.Common.{
  ℕ, zero, suc, ◌*◌, ◌/◌, ◌%◌, ◌^◌, max, Bool, List, [], ◌∷◌, ◌++◌, ltb, ◌==◌, if◌then◌else◌,
  length, Bytes, codes, ℤ, pos, negsuc, fnv_offset, fnv1a_from, to_string,
}

pub record ShardRoute : Type 0 where
  pub database_index : ℕ
  pub table_index : ℕ
  pub database_name : Bytes
  pub table_name : Bytes
  pub qualified_table : Bytes

pub record ShardRouter : Type 0 where
  pub enabled : Bool
  pub database_prefix : Bytes
  pub table_prefix : Bytes
  pub database_count : ℕ
  pub table_count : ℕ

-- `std::max(1, n)` of an `int`
abbrev pub at_least_one : ℤ → ℕ
at_least_one (pos n) = max 1 n
at_least_one (negsuc n) = 1

unfoldable pub init : Bool → Bytes → Bytes → ℤ → ℤ → ShardRouter
init sharding_enabled database_prefix table_prefix database_count table_count = record {
  enabled = sharding_enabled;
  database_prefix = database_prefix;
  table_prefix = table_prefix;
  database_count = at_least_one database_count;
  table_count = at_least_one table_count;
}

unfoldable pub hash_code : Bytes → ℕ
hash_code short_code = fnv1a_from fnv_offset short_code

-- `setw(2) << setfill('0')`
unfoldable pub format_name : Bytes → ℕ → Bytes
format_name prefix index =
    let digits = to_string index in
    if ltb (length digits) 2 then prefix ++ b'0' ∷ digits else prefix ++ digits

unfoldable pub qualified : Bytes → Bytes → Bytes
qualified database table = codes "`" ++ (database ++ (codes "`.`" ++ (table ++ codes "`")))

-- The fields of a route from its two indices.
unfoldable pub route_at : ShardRouter → ℕ → ℕ → ShardRoute
route_at r db table =
    let database_name = format_name r.database_prefix db in
    let table_name = format_name r.table_prefix table in
    record {
      database_index = db;
      table_index = table;
      database_name = database_name;
      table_name = table_name;
      qualified_table = qualified database_name table_name;
    }

unfoldable pub bucket_of : ShardRouter → Bytes → ℕ
bucket_of r short_code =
    let bucket_count = r.database_count * r.table_count % 2 ^ 64 in
    if bucket_count == 0 then 0 else hash_code short_code % bucket_count

unfoldable pub route_for_code : ShardRouter → Bytes → ShardRoute
route_for_code r short_code =
    let bucket = bucket_of r short_code in
    route_at r (bucket / r.table_count) (bucket % r.table_count)

-- The two loops of `all_routes`: the rounds to go, and the index of the round.
unfoldable pub table_loop : ShardRouter → ℕ → ℕ → ℕ → List ShardRoute
table_loop r db zero table = []
table_loop r db (suc rounds) table = route_at r db table ∷ table_loop r db rounds (suc table)

unfoldable pub database_loop : ShardRouter → ℕ → ℕ → List ShardRoute
database_loop r zero db = []
database_loop r (suc rounds) db = table_loop r db r.table_count 0 ++ database_loop r rounds (suc db)

unfoldable pub all_routes : ShardRouter → List ShardRoute
all_routes r = database_loop r r.database_count 0
