-- ===== src/ShortUrlRepository/Tests.antt =====
-- Runs of the repository.
use cpp_url_shortener.ShardRouter.{ShardRouter}
use cpp_url_shortener.ShortUrlRepository.{
  Answer, rows, query_failed, short_url_table_for_code, create, duplicate_code, insert_sql, quote,
  tables, list_sql, codes_in, add_rows, list_tables, list_active_codes,
}
use cpp_url_shortener.ShortUrlRepository.Listing.{IsIn, list_active_codes_complete}
use cpp_url_shortener.Common.{
  ◌≡◌, refl, inl, inr, false, none, some, [], ◌∷◌, arith, Bytes, codes, to_string,
}

program : Unit {0}
unfolding short_url_table_for_code create insert_sql quote tables list_sql codes_in add_rows
    list_tables list_active_codes to_string
program = tt

abbrev single : ShardRouter
single = record {
  enabled = false;
  database_prefix = [];
  table_prefix = [];
  database_count = 1;
  table_count = 1;
}

abbrev escape : Bytes → Bytes
escape s = s

insert_text :
    insert_sql escape single
      (record { id = 7; short_code = codes "7"; long_url = codes "http://a"; expire_at = [] })
    ≡ codes
        "INSERT INTO short_url (id, short_code, long_url, created_at, expire_at) VALUES (7, '7', 'http://a', NOW(), NULL)"
unfolding program
insert_text = refl

duplicate :
    create escape single
      (some (λ sql. query_failed 1062 (codes "Duplicate entry")))
      (record { id = 7; short_code = codes "7"; long_url = codes "http://a"; expire_at = [] })
    ≡ duplicate_code
unfolding program
duplicate = refl

abbrev mysql : Bytes → Answer
mysql sql = rows ((some (codes "aa") ∷ []) ∷ (none ∷ []) ∷ (some (codes "bb") ∷ []) ∷ [])

list_active_codes_complete_example : IsIn (codes "bb") (codes "aa" ∷ codes "bb" ∷ [])
unfolding program
list_active_codes_complete_example =
    list_active_codes_complete escape single mysql (codes "bb")
      ((some (codes "aa") ∷ []) ∷ (none ∷ []) ∷ (some (codes "bb") ∷ []) ∷ [])
      (codes "aa" ∷ codes "bb" ∷ []) (record { databases = omega arith; tables = omega arith }) refl
      refl (inr (inl refl))
