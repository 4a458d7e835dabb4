-- ===== src/ShortUrlCache/Tests.antt =====
-- Runs of the two-level cache, and its theorems at a small configuration.
use cpp_url_shortener.LocalUrlCache
use cpp_url_shortener.LocalUrlCache.{is_business_expired}
use cpp_url_shortener.ShortUrlCache
use cpp_url_shortener.ShortUrlCache.{
  Config, init, init_fields, shutdown, Boot, ping_answered, ping_failed, Reply, failed, answered,
  get_redis, redis_snapshot, Writing, set, redis_setex, cache_key, OriginKind, origin_redirect,
  origin_create, inflight, ensure_probe_started, new_cache, send_command, add_legal_code,
  put_local_positive,
}
use cpp_url_shortener.ShortUrlCache.RedisValue.{
  hit, expired, miss, encode_redis_value, decode_redis_value, split_newline,
  interpret_redis_payload, IsLine, interpret-encode, decode_iff,
}
use cpp_url_shortener.ShortUrlCache.OriginBudget.{BudgetOp, acquires, marks, restores, Holders}
use cpp_url_shortener.ShortUrlCache.Replies.{
  Explains, get_redis-Explains, gets, erases, call, commands_of, failed_call_silences, set_stores,
}
use cpp_url_shortener.Common.{
  ℕ, ◌≤◌, ◌≡◌, refl, ◌↔◌, true, false, none, some, List, [], ◌∷◌, arith, if◌then◌else◌, Bytes,
  codes, pos,
}

program : Unit {0}
unfolding encode_redis_value split_newline decode_redis_value interpret_redis_payload
    is_business_expired set send_command redis_snapshot add_legal_code put_local_positive
program = tt

abbrev url : Bytes
url = codes "https://example.com/a"

abbrev june : Bytes
june = codes "2026-06-01 00:00:00"

abbrev wall : Bytes
wall = codes "2026-05-01 12:00:00"

payloads :
    (interpret_redis_payload wall (codes "v1\n2026-06-01 00:00:00\nhttps://example.com/a")
      ≡ hit (record { long_url = url; expire_at = june }))
    × (interpret_redis_payload wall (codes "v1\n2026-04-01 00:00:00\nx")
        ≡ expired (record { long_url = codes "x"; expire_at = codes "2026-04-01 00:00:00" }))
    × (interpret_redis_payload wall url ≡ miss)
unfolding program
payloads = (refl, refl, refl)

interpret-encode_example : interpret_redis_payload wall (encode_redis_value url june) ≡ (
    if is_business_expired wall june
    then expired (record { long_url = url; expire_at = june })
    else hit (record { long_url = url; expire_at = june }))
interpret-encode_example = interpret-encode wall url june (omega arith)

decode_iff_example :
    (decode_redis_value (codes "v1\n\nx") ≡ some (record { long_url = codes "x"; expire_at = [] }))
    ↔ ((codes "v1\n\nx" ≡ encode_redis_value (codes "x") []) × IsLine [])
decode_iff_example = decode_iff (codes "v1\n\nx") (codes "x") []

-- Redis is up, with a client.
abbrev up : ShortUrlCache.ShortUrlCache
up = record (new_cache (LocalUrlCache.configure 2 4096 2048 (pos 60) (pos 0) (pos 5))) {
  enabled = true;
  redis_available = true;
  redis = true;
}

abbrev idle : Holders
idle = record { cache = record up { origin_redirect_max = 2 }; redirects = 0; creates = 0 }

abbrev before : List BudgetOp
before = marks ∷ acquires false origin_redirect ∷ []

-- Redis comes back between the load and the loop.
abbrev between : List BudgetOp
between = acquires false origin_create ∷ restores ∷ []

get_redis-Explains_example :
    Explains wall
      (answered (some url))
      (get_redis wall (λ key. answered (some url)) (codes "aa") up).0
get_redis-Explains_example = get_redis-Explains wall (λ key. answered (some url)) (codes "aa") up

failed_call_silences_example :
    ((call (erases false (codes "aa")) up).0.probe_running ≡ true)
    × (commands_of
          (gets wall (λ key. answered none) (codes "aa") ∷ erases true (codes "aa") ∷ [])
          (call (erases false (codes "aa")) up).0
        ≡ [])
unfolding redis_snapshot
failed_call_silences_example =
    failed_call_silences (erases false (codes "aa")) up
      (gets wall (λ key. answered none) (codes "aa") ∷ erases true (codes "aa") ∷ []) refl refl refl

abbrev writing : Writing
writing = record { now = 0; local_draw = 0; redis_draw = 7; redis_answers = true }

set_stores_example :
    (ttl : ℕ) × (raw : Bytes) × ((set writing (codes "aa") url june up).2
      ≡ redis_setex (cache_key (codes "aa")) (pos ttl) raw ∷ [])
    × (3600 ≤ ttl)
    × ((w : Bytes)
        → interpret_redis_payload w raw ≡ (
            if is_business_expired w june
            then expired (record { long_url = url; expire_at = june })
            else hit (record { long_url = url; expire_at = june })))
unfolding program
set_stores_example =
    set_stores writing (codes "aa") url june up (omega arith) (omega arith) (omega arith) refl
