-- ===== src/ShortUrlRepository.antt =====
-- shorturl/short_url_repository.{h,cpp}: `ShortUrlRepository`, the SQL that it sends and what it
-- makes of the answers. MySQL is a function from the text of a query to its answer, `none` for a
-- null connection; `escape` is `mysql_real_escape_string`.
pub mod Listing
mod Tests
use cpp_url_shortener.ShardRouter.{ShardRouter, ShardRoute, route_for_code, all_routes}
use cpp_url_shortener.Common.{
  ℕ, not, Option, none, some, List, [], ◌∷◌, ◌++◌, map, ◌==◌, if◌then◌else◌, get_or, Bytes, codes,
  bytes_eq, to_string,
}

pub record ShortUrlRecord : Type 0 where
  pub id : ℕ
  pub short_code : Bytes
  pub long_url : Bytes
  pub expire_at : Bytes

pub data CreateStatus : Type 0 where
  created duplicate_code : CreateStatus
  create_failed : Bytes → CreateStatus

-- With the URL and the expiry text that the call writes.
pub data FindStatus : Type 0 where
  found : Bytes → Bytes → FindStatus
  found_expired : Bytes → Bytes → FindStatus
  not_found : FindStatus
  find_failed : Bytes → FindStatus

-- A row; a cell may be NULL.
abbrev pub Row : Type 0
Row = List (Option Bytes)

-- The query fails with an error number and text, gives no result set, or gives rows.
pub data Answer : Type 0 where
  query_failed : ℕ → Bytes → Answer
  no_result : Bytes → Answer
  rows : List Row → Answer

-- `ER_DUP_ENTRY` of mysqld_error.h
abbrev pub er_dup_entry : ℕ
er_dup_entry = 1062

abbrev pub unavailable : Bytes
unavailable = codes "mysql connection unavailable"

unfoldable pub short_url_table_for_code : ShardRouter → Bytes → Bytes
short_url_table_for_code router short_code =
    if not router.enabled
    then codes "short_url"
    else (route_for_code router short_code).qualified_table

-- A cell, with NULL as the empty text.
unfoldable pub cell : Row → ℕ → Bytes
cell row i = elim (get_or row i none) [ none ↦ [] | some text ↦ text ]

module _ (escape : Bytes → Bytes) (router : ShardRouter) where
  unfoldable pub quote : Bytes → Bytes
  quote value = b'\'' ∷ (escape value ++ codes "'")

  unfoldable pub insert_sql : ShortUrlRecord → Bytes
  insert_sql record' =
      codes "INSERT INTO "
      ++ (short_url_table_for_code router record'.short_code
          ++ (codes " (id, short_code, long_url, created_at, expire_at) VALUES ("
              ++ (to_string record'.id
                  ++ (codes ", "
                      ++ (quote record'.short_code
                          ++ (codes ", "
                              ++ (quote record'.long_url
                                  ++ (codes ", NOW(), "
                                      ++ ((if bytes_eq record'.expire_at []
                                            then codes "NULL"
                                            else quote record'.expire_at)
                                          ++ codes ")")))))))))

  unfoldable pub create : Option (Bytes → Answer) → ShortUrlRecord → CreateStatus
  create none record' = create_failed unavailable
  create (some mysql) record' = elim (mysql (insert_sql record')) [
    | query_failed errno text ↦ if errno == er_dup_entry then duplicate_code else create_failed text
    | other ↦ created
  ]

  unfoldable pub find_sql : Bytes → Bytes
  find_sql code =
      codes
        "SELECT long_url, IF(expire_at IS NULL, '', DATE_FORMAT(expire_at, '%Y-%m-%d %H:%i:%s')), IF(expire_at IS NOT NULL AND expire_at <= NOW(), 1, 0) AS expired FROM "
      ++ (short_url_table_for_code router code
          ++ (codes " WHERE short_code = " ++ (quote code ++ codes " LIMIT 1")))

  -- What is made of the first row.
  unfoldable pub find_in : List Row → FindStatus
  find_in [] = not_found
  find_in (row ∷ more) =
      if bytes_eq (cell row 2) (codes "1")
      then found_expired (cell row 0) (cell row 1)
      else found (cell row 0) (cell row 1)

  unfoldable pub find_long_url : Option (Bytes → Answer) → Bytes → FindStatus
  find_long_url none code = find_failed unavailable
  find_long_url (some mysql) code = elim (mysql (find_sql code)) [
    | query_failed errno text ↦ find_failed text
    | no_result text ↦ find_failed text
    | rows found_rows ↦ find_in found_rows
  ]

  unfoldable pub tables : List Bytes
  tables =
      if router.enabled
      then map (λ (r : ShardRoute). r.qualified_table) (all_routes router)
      else codes "short_url" ∷ []

  unfoldable pub list_sql : Bytes → Bytes
  list_sql table =
      codes "SELECT short_code FROM "
      ++ (table ++ codes " WHERE expire_at IS NULL OR expire_at > NOW()")

  -- The codes of a result set, rows with NULL left out.
  unfoldable pub codes_in : List Row → List Bytes
  codes_in [] = []
  codes_in (row ∷ more) = elim (get_or row 0 none) [
    | none ↦ codes_in more
    | some code ↦ code ∷ codes_in more
  ]

  -- The codes of one table in front of those of the tables behind it; any error drops them all.
  unfoldable pub add_rows : Answer → Option (List Bytes) → Option (List Bytes)
  add_rows (query_failed errno text) rest = none
  add_rows (no_result text) rest = none
  add_rows (rows found_rows) none = none
  add_rows (rows found_rows) (some rest) = some (codes_in found_rows ++ rest)

  -- The loop over the tables.
  unfoldable pub list_tables : (Bytes → Answer) → List Bytes → Option (List Bytes)
  list_tables mysql [] = some []
  list_tables mysql (table ∷ more) = add_rows (mysql (list_sql table)) (list_tables mysql more)

  unfoldable pub list_active_codes : Option (Bytes → Answer) → Option (List Bytes)
  list_active_codes none = none
  list_active_codes (some mysql) = list_tables mysql tables
