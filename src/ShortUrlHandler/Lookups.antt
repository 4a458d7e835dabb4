-- ===== src/ShortUrlHandler/Lookups.antt =====
-- Why a lookup of `redirect` has the result it has.
use cpp_url_shortener.ShardRouter.{ShardRouter}
use cpp_url_shortener.LocalUrlCache.{is_business_expired}
use cpp_url_shortener.SingleFlight.{
  Result, kind_hit, kind_not_found, kind_expired, kind_error, overload,
}
use cpp_url_shortener.ShortUrlCache
use cpp_url_shortener.ShortUrlCache.{
  Reply, answered, status_of, get_redis, get_local, try_acquire_origin, drop_guard, origin_redirect,
  bloom_might_contain,
}
use cpp_url_shortener.ShortUrlCache.RedisValue.{LookupValue, CacheStatus, encode_redis_value}
use cpp_url_shortener.ShortUrlCache.Replies.{Explains, get_redis-Explains}
use cpp_url_shortener.ShortUrlCache.OriginBudget.{IsRefused, IsAllowed, try_acquire_origin_cases}
use cpp_url_shortener.ShortUrlRepository.{
  FindStatus, Answer, found, found_expired, find_failed, find_long_url,
}
use cpp_url_shortener.ShortUrlHandler.{
  Meets, mysql_result, mysql_lookup, redis_result, origin_lookup,
}
use cpp_url_shortener.Common.{
  ◌≡◌, refl, ap, ◌⊎◌, inl, inr, true, false, Option, none, some, List, ◌++◌, Bytes, codes,
}

module _ (escape : Bytes → Bytes) (router : ShardRouter) where
  -- What Redis is found to say, behind the budget.
  abbrev pub redis_status : Meets → Bytes → ShortUrlCache.ShortUrlCache → CacheStatus
  redis_status m code c =
      (get_redis m.redis_wall m.redis code
        (try_acquire_origin c.redis_available origin_redirect c).1).0

  -- Where MySQL is asked: Redis is down, or has no mapping for the code.
  abbrev pub IsMissed : Meets → Bytes → ShortUrlCache.ShortUrlCache → Type 0
  IsMissed m code c =
      redis_status m code c ≡ CacheStatus.miss ⊎ (redis_status m code c ≡ CacheStatus.unavailable)

  abbrev value_of : Result → LookupValue
  value_of result = record { long_url = result.long_url; expire_at = result.expire_at }

  -- What Redis holds under the key of the code.
  abbrev pub Holds : Meets → Bytes → Bytes → Bytes → Type 0
  Holds m code url expire_at =
      m.redis (codes "shorturl:" ++ code) ≡ answered (some (encode_redis_value url expire_at))

  -- What stands behind the result of a lookup: the mapping in Redis, alive or over, or the answer
  -- of MySQL.
  pub data Origin (m : Meets) (code : Bytes) (c : ShortUrlCache.ShortUrlCache) (result : Result)
      : Type 0 where
    redis_alive :
        result.kind ≡ kind_hit
        → redis_status m code c ≡ CacheStatus.hit (value_of result)
        → Holds m code result.long_url result.expire_at
        → is_business_expired m.redis_wall result.expire_at ≡ false
        → Origin m code c result
    redis_over :
        result.kind ≡ kind_expired
        → redis_status m code c ≡ CacheStatus.expired (value_of result)
        → Holds m code result.long_url result.expire_at
        → is_business_expired m.redis_wall result.expire_at ≡ true
        → Origin m code c result
    mysql_alive :
        result.kind ≡ kind_hit
        → IsMissed m code c
        → find_long_url escape router m.mysql code ≡ found result.long_url result.expire_at
        → Origin m code c result
    mysql_over :
        result.kind ≡ kind_expired
        → IsMissed m code c
        → find_long_url escape router m.mysql code ≡ found_expired result.long_url result.expire_at
        → Origin m code c result
    mysql_absent :
        result.kind ≡ kind_not_found
        → IsMissed m code c
        → find_long_url escape router m.mysql code ≡ FindStatus.not_found
        → Origin m code c result
    mysql_failed :
        result.kind ≡ kind_error
        → IsMissed m code c
        → find_long_url escape router m.mysql code ≡ find_failed result.error
        → Origin m code c result

  -- The result of a lookup with its reason: it is refused exactly where Redis is down and the
  -- slots of redirects are taken.
  pub data Lookup (m : Meets) (code : Bytes) (c : ShortUrlCache.ShortUrlCache) (result : Result)
      : Type 0 where
    refused :
        result ≡ overload (codes "redirect origin budget exhausted")
        → IsRefused origin_redirect c
        → Lookup m code c result
    allowed : IsAllowed origin_redirect c → Origin m code c result → Lookup m code c result

  mysql_result-Origin :
      (m : Meets) (code : Bytes) (c c' : ShortUrlCache.ShortUrlCache) (s : FindStatus)
      → IsMissed m code c
      → find_long_url escape router m.mysql code ≡ s
      → Origin m code c (mysql_result escape router m code c' s).0
  unfolding mysql_result
  mysql_result-Origin m code c c' (found long_url expire_at) h e = mysql_alive refl h e
  mysql_result-Origin m code c c' (found_expired long_url expire_at) h e = mysql_over refl h e
  mysql_result-Origin m code c c' FindStatus.not_found h e = mysql_absent refl h e
  mysql_result-Origin m code c c' (find_failed text) h e = mysql_failed refl h e

  mysql_lookup-Origin :
      (m : Meets) (code : Bytes) (c c' : ShortUrlCache.ShortUrlCache) (q : Option (Bytes → Answer))
      → IsMissed m code c
      → m.mysql ≡ q
      → Origin m code c (mysql_lookup escape router m code c' q).0
  unfolding mysql_lookup find_long_url
  mysql_lookup-Origin m code c c' none h e =
      mysql_failed refl h (ap (λ q. find_long_url escape router q code) e)
  mysql_lookup-Origin m code c c' (some mysql) h e =
      mysql_result-Origin m code c c' (find_long_url escape router (some mysql) code) h
        (ap (λ q. find_long_url escape router q code) e)

  redis_result-Origin :
      (m : Meets) (code : Bytes) (status : CacheStatus) (c c' : ShortUrlCache.ShortUrlCache)
      (asked : List ShortUrlCache.Command)
      → redis_status m code c ≡ status
      → Explains m.redis_wall (m.redis (codes "shorturl:" ++ code)) status
      → Origin m code c (redis_result escape router m code (status, c', asked)).0
  unfolding redis_result
  redis_result-Origin m code (CacheStatus.hit v) c c' asked e (there, runs) =
      redis_alive refl e there runs
  redis_result-Origin m code (CacheStatus.expired v) c c' asked e (there, over) =
      redis_over refl e there over
  redis_result-Origin m code CacheStatus.miss c c' asked e h =
      mysql_lookup-Origin m code c c' m.mysql (inl e) refl
  redis_result-Origin m code CacheStatus.unavailable c c' asked e h =
      mysql_lookup-Origin m code c c' m.mysql (inr e) refl
  redis_result-Origin m code CacheStatus.not_found c c' asked e h = absurd h
  redis_result-Origin m code CacheStatus.filtered c c' asked e h = absurd h
  redis_result-Origin m code CacheStatus.overload c c' asked e h = absurd h

  pub origin_lookup-Lookup :
      (m : Meets) (code : Bytes) (c : ShortUrlCache.ShortUrlCache)
      → Lookup m code c (origin_lookup escape router m code c).0
  unfolding origin_lookup
  origin_lookup-Lookup m code c =
      let (budget, taken) = try_acquire_origin c.redis_available origin_redirect c in
      elim (try_acquire_origin_cases origin_redirect c) [
        | inl (stops, full) ↦ rw stops (refused refl full)
        | inr (runs, free) ↦ rw runs (
            allowed free (
              redis_result-Origin m code _ c _ _ refl
                (get_redis-Explains m.redis_wall m.redis code taken)))
      ]
