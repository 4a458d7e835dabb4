-- ===== src/ShardRouter/Tests.antt =====
-- Runs of the router of tables.
use cpp_url_shortener.ShardRouter.{
  ShardRouter, init, hash_code, format_name, qualified, route_at, bucket_of, route_for_code,
  table_loop, database_loop, all_routes,
}
use cpp_url_shortener.ShardRouter.Names.{qualified_table_injective}
use cpp_url_shortener.Common.{
  ℕ, ◌≡◌, refl, true, [], ◌∷◌, map, codes, pos, negsuc, fnv1a_from, to_string,
}

program : Unit {0}
unfolding init hash_code format_name qualified route_at bucket_of route_for_code table_loop
    database_loop all_routes fnv1a_from to_string
program = tt

abbrev small : ShardRouter
small = record {
  enabled = true;
  database_prefix = codes "shorturl_";
  table_prefix = codes "short_url_";
  database_count = 2;
  table_count = 3;
}

names_run :
    map (λ r. r.qualified_table) (all_routes (record small { table_count = 1 }))
    ≡ codes "`shorturl_00`.`short_url_00`" ∷ codes "`shorturl_01`.`short_url_00`" ∷ []
unfolding program
names_run = refl

wide_run : format_name (codes "t_") 123 ≡ codes "t_123"
unfolding program
wide_run = refl

init_run : (init true [] [] (negsuc 3) (pos 4)).database_count ≡ 1
unfolding program
init_run = refl

qualified_table_injective_example : ◌≡◌ {A = ℕ} 1 1 × ◌≡◌ {A = ℕ} 2 2
qualified_table_injective_example = qualified_table_injective small 1 2 1 2 refl
