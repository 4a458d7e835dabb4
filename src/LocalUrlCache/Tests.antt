-- ===== src/LocalUrlCache/Tests.antt =====
-- Runs of the local cache, and its theorems at a small configuration.
use cpp_url_shortener.Common.{
  ◌*◌, ◌^◌, ◌≤◌, max, ◌≡◌, refl, List, [], ◌∷◌, arith, Bytes, codes, pos, find, erase, insert,
  total, fnv1a_from,
}
use cpp_url_shortener.LocalUrlCache
use cpp_url_shortener.LocalUrlCache.Eviction.{
  drop_found, drop_entry, evict_loop, evict, put_entry, store,
}
use cpp_url_shortener.LocalUrlCache.{
  hit, expired, miss, neg_hit, new_shard, configure, is_business_expired, shard_index,
  estimate_positive_bytes, estimate_negative_bytes, ttl_with_jitter, wrap_int, seconds_after,
  get_negative, get_found, shard_get, positive_entry, negative_entry, shard_put_positive,
  shard_put_negative, shard_erase, shard_at, get, put_positive, put_negative, erase_code, sum_bytes,
  positive_bytes, negative_bytes, Op, gets, puts_positive, puts_negative, erases, step, run,
}
use cpp_url_shortener.LocalUrlCache.Invariant.{new_shard-ShardInv}
use cpp_url_shortener.LocalUrlCache.Reads.{Answers, shard_get-Answers}
use cpp_url_shortener.LocalUrlCache.Budget.{
  Inv, step-Inv, configure-Inv, positive_held, negative_held, run_within_budget,
}
use cpp_url_shortener.LocalUrlCache.History.{write, last_written, nothing, IsCurrent, get-IsCurrent}
use cpp_url_shortener.LocalUrlCache.Hits.{get-erase_code}

program : Unit {0}
unfolding configure is_business_expired shard_index fnv1a_from estimate_positive_bytes
    estimate_negative_bytes ttl_with_jitter wrap_int seconds_after get_negative get_found shard_get
    positive_entry negative_entry shard_put_positive shard_put_negative shard_erase get put_positive
    put_negative erase_code sum_bytes positive_bytes negative_bytes step run drop_found drop_entry
    evict_loop evict put_entry store find erase insert total write last_written
program = tt

abbrev small : LocalUrlCache.LocalUrlCache
small = configure 2 4096 2048 (pos 60) (pos 0) (pos 5)

abbrev url : Bytes
url = codes "https://example.com/a"

abbrev wall : Bytes
wall = codes "2026-05-01 12:00:00"

abbrev ops : List Op
ops =
    puts_positive 0 0 (codes "aa") url (codes "2026-06-01 00:00:00")
    ∷ puts_negative 1 (codes "bb")
    ∷ puts_positive 2 0 (codes "cc") url (codes "2026-04-01 00:00:00")
    ∷ erases (codes "dd")
    ∷ []

answers :
    ((get 3 wall (codes "aa") (run ops small)).0
      ≡ hit (record { long_url = url; expire_at = codes "2026-06-01 00:00:00" }))
    × ((get 3 wall (codes "bb") (run ops small)).0 ≡ neg_hit)
    × ((get 3 wall (codes "cc") (run ops small)).0
        ≡ expired (record { long_url = url; expire_at = codes "2026-04-01 00:00:00" }))
    × ((get (60 * 10 ^ 9) wall (codes "aa") (run ops small)).0 ≡ miss)
    × (positive_bytes (run ops small) ≡ 212)
unfolding program
answers = (refl, refl, refl, refl, refl)

small-Inv : Inv small
small-Inv = configure-Inv 2 4096 2048 (pos 60) (pos 0) (pos 5)

shard_get-Answers_example :
    Answers small.config 0 wall (codes "aa") new_shard (shard_get 0 wall (codes "aa") new_shard)
shard_get-Answers_example =
    shard_get-Answers small.config 0 wall (codes "aa") new_shard (new_shard-ShardInv small.config)

step-Inv_example : Inv (step (erases (codes "aa")) small)
step-Inv_example = step-Inv (erases (codes "aa")) small tt small-Inv

run_within_budget_example :
    (positive_bytes (run ops small) ≡ positive_held (run ops small))
    × (positive_held (run ops small) ≤ max 4096 (1024 * max 1 2))
    × (negative_bytes (run ops small) ≡ negative_held (run ops small))
    × (negative_held (run ops small) ≤ max 2048 (1024 * max 1 2))
unfolding program
run_within_budget_example =
    run_within_budget 2 4096 2048 (pos 60) (pos 0) (pos 5) ops (omega arith) (omega arith)
      (omega arith)

get-IsCurrent_example :
    IsCurrent wall
      (last_written (codes "aa") nothing ops)
      (get 3 wall (codes "aa") (run ops small)).0
unfolding program
get-IsCurrent_example =
    get-IsCurrent 2 4096 2048 (pos 60) (pos 0) (pos 5) ops 3 wall (codes "aa") (omega arith)

get-erase_code_example : (get 7 wall (codes "aa") (erase_code (codes "aa") small)).0 ≡ miss
get-erase_code_example = get-erase_code small small-Inv (codes "aa") 7 wall
