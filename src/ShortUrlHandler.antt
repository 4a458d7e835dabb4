-- ===== src/ShortUrlHandler.antt =====
-- handler/short_url_handler.{h,cpp}: the two handlers. What a request meets outside is an
-- argument: the clocks, the draws, Redis's and MySQL's answers, and whether another request leads
-- the lookup of the code. `parse` and `dump` are those of nlohmann::json; `dump` is given the
-- members of an object. Metrics are left out; a published click is the code it names.
-- A handler runs through without steps of other requests in between; what these can do to the
-- budgets meanwhile is in ShortUrlCache.OriginBudget.
pub mod Lookups
pub mod Redirects
pub mod Locations
pub mod Shorten
pub mod Creates
pub mod RoundTrip
pub mod Follow
mod Tests
use cpp_url_shortener.Base62.{base62_encode}
use cpp_url_shortener.Snowflake.{Generator, Outcome, issued, overflow, waiting, next_id}
use cpp_url_shortener.Protocol.{is_http_url_safe_for_location, join_public_base_url}
use cpp_url_shortener.Response.{HttpResponse, set_status, set_header, set_body, set_json}
use cpp_url_shortener.Router.{HttpRequest}
use cpp_url_shortener.ShardRouter.{ShardRouter}
use cpp_url_shortener.SingleFlight.{
  Result, Kind, new_result, kind_hit, kind_not_found, kind_expired, kind_error, kind_overload,
  loaded, overload,
}
use cpp_url_shortener.ShortUrlCache
use cpp_url_shortener.ShortUrlCache.{
  Reply, Command, Writing, OriginKind, origin_redirect, origin_create, get_local, get_redis,
  put_local_positive, put_local_negative, erase_local, try_acquire_origin, drop_guard,
  bloom_might_contain,
}
use cpp_url_shortener.ShortUrlCache.RedisValue.{LookupValue, CacheStatus}
use cpp_url_shortener.ShortUrlRepository
use cpp_url_shortener.ShortUrlRepository.{
  ShortUrlRecord, CreateStatus, created, duplicate_code, create_failed, FindStatus, found,
  found_expired, find_failed, Answer,
}
use cpp_url_shortener.Common.{
  ℕ, suc, Bool, true, false, not, ◌&&◌, ◌||◌, Option, none, some, List, [], ◌∷◌, ◌++◌, leb, ◌==◌,
  if◌then◌else◌, length, set, Bytes, codes, bytes_eq, find,
}

-- The loop of `valid_expire_at` at index `i`.
unfoldable pub expire_char : ℕ → ℕ → Bool
expire_char i c =
    if i == 4 || i == 7
    then c == b'-'
    else if i == 10
    then c == b' '
    else if i == 13 || i == 16
    then c == b':'
    else leb b'0' c && leb c b'9'

unfoldable pub expire_chars : ℕ → Bytes → Bool
expire_chars i [] = true
expire_chars i (c ∷ s) = elim (expire_char i c) [ true ↦ expire_chars (suc i) s | false ↦ false ]

unfoldable pub valid_expire_at : Bytes → Bool
valid_expire_at expire_at = if not (length expire_at == 19) then false else expire_chars 0 expire_at

-- The JSON values that the handlers tell apart, and what `parse` gives.
pub data JsonValue : Type 0 where
  json_string : Bytes → JsonValue
  json_null json_other : JsonValue

abbrev pub Members : Type 0
Members = List (Bytes × JsonValue)

pub data Payload : Type 0 where
  parse_error not_object : Payload
  object : Members → Payload

abbrev pub error_member : Bytes → Bytes × JsonValue
error_member text = (codes "error", json_string text)

abbrev pub detail_member : Bytes → Bytes × JsonValue
detail_member text = (codes "detail", json_string text)

-- The process: the caches, the id generator, the Redis commands sent and the clicks published.
pub record World : Type 0 where
  pub cache : ShortUrlCache.ShortUrlCache
  pub generator : Generator
  pub commands : List Command
  pub clicks : List Bytes

-- What a lookup meets: the clocks at its steps, the draws, and the answers.
pub record Meets : Type 0 where
  pub local_now : ℕ
  pub local_wall : Bytes
  pub redis : Bytes → Reply (Option Bytes)
  pub redis_wall : Bytes
  pub writing : Writing
  pub mysql : Option (Bytes → Answer)

module _ (dump : Members → Bytes) where
  unfoldable pub respond_error : ℕ → Members → HttpResponse → HttpResponse
  respond_error code members resp = set_json (dump members) (set_status code resp)

  unfoldable pub set_safe_location : Bytes → HttpResponse → HttpResponse
  set_safe_location long_url resp =
      if not (is_http_url_safe_for_location long_url)
      then respond_error 500 (error_member (codes "stored long_url is unsafe for Location") ∷ [])
          resp
      else set_body [] (set_header (codes "Location") long_url (set_status 302 resp))

  unfoldable pub respond_expired : HttpResponse → HttpResponse
  respond_expired resp = respond_error 410 (error_member (codes "short url expired") ∷ []) resp

  unfoldable pub respond_not_found : HttpResponse → HttpResponse
  respond_not_found resp = respond_error 404 (error_member (codes "short url not found") ∷ []) resp

  unfoldable pub respond_unavailable : Bytes → HttpResponse → HttpResponse
  respond_unavailable detail resp =
      respond_error 503
        (error_member (codes "short url storage unavailable") ∷ detail_member detail ∷ []) resp

module _ (escape : Bytes → Bytes) (router : ShardRouter) where
  -- What `origin_lookup` makes of MySQL's answer.
  unfoldable pub mysql_result :
      Meets
      → Bytes
      → ShortUrlCache.ShortUrlCache
      → FindStatus
      → Result × ShortUrlCache.ShortUrlCache × List Command
  mysql_result m code c (found long_url expire_at) =
      let (_, c', sent) = ShortUrlCache.set m.writing code long_url expire_at c in
      (record new_result { kind = kind_hit; long_url = long_url; expire_at = expire_at }, c', sent)
  mysql_result m code c (found_expired long_url expire_at) =
      let (_, c', sent) = ShortUrlCache.erase_code m.writing.redis_answers code c in
      (
        record new_result { kind = kind_expired; long_url = long_url; expire_at = expire_at },
        c',
        sent,
      )
  mysql_result m code c FindStatus.not_found =
      (record new_result { kind = kind_not_found }, put_local_negative m.writing.now code c, [])
  mysql_result m code c (find_failed text) = (record new_result { error = text }, c, [])

  -- The part behind Redis, with the connection that was taken.
  unfoldable pub mysql_lookup :
      Meets
      → Bytes
      → ShortUrlCache.ShortUrlCache
      → Option (Bytes → Answer)
      → Result × ShortUrlCache.ShortUrlCache × List Command
  mysql_lookup m code c none =
      (record new_result { error = codes "mysql connection unavailable" }, c, [])
  mysql_lookup m code c (some mysql) =
      mysql_result m code c (ShortUrlRepository.find_long_url escape router (some mysql) code)

  -- What is made of Redis's status.
  unfoldable pub redis_result :
      Meets
      → Bytes
      → CacheStatus × ShortUrlCache.ShortUrlCache × List Command
      → Result × ShortUrlCache.ShortUrlCache × List Command
  redis_result m code (CacheStatus.hit v, c, asked) = (
    record new_result { kind = kind_hit; long_url = v.long_url; expire_at = v.expire_at },
    put_local_positive m.writing.now m.writing.local_draw code v.long_url v.expire_at c,
    asked,
  )
  redis_result m code (CacheStatus.expired v, c, asked) = (
    record new_result { kind = kind_expired; long_url = v.long_url; expire_at = v.expire_at },
    erase_local code c,
    asked,
  )
  redis_result m code (other, c, asked) =
      let (result, c', sent) = mysql_lookup m code c m.mysql in (result, c', asked ++ sent)

  -- The guard is dropped on every return.
  unfoldable pub origin_lookup :
      Meets
      → Bytes
      → ShortUrlCache.ShortUrlCache
      → Result × ShortUrlCache.ShortUrlCache × List Command
  origin_lookup m code c =
      let (budget, c) = try_acquire_origin c.redis_available origin_redirect c in
      if not c.redis_available && not budget.held
      then (
        record new_result {
          kind = kind_overload;
          error = codes "redirect origin budget exhausted";
        },
        drop_guard budget c,
        [],
      )
      else let (result, c, sent) = redis_result m code (get_redis m.redis_wall m.redis code c) in
        (result, drop_guard budget c, sent)

-- How `do_flight` serves this request: it leads and looks up; it shares the result of the lookup
-- of the same code by another request, with what that one meets and the cache it has; it shares
-- the error where that lookup throws; or it is refused with the text of an overload.
pub data Flight : Type 0 where
  leading : Flight
  following : Meets → ShortUrlCache.ShortUrlCache → Flight
  leader_threw : Flight
  overloaded : Bytes → Flight

module _ (dump : Members → Bytes) (escape : Bytes → Bytes) (router : ShardRouter) where
  unfoldable pub flight_result : Flight → Meets → Bytes → World → Result × World
  flight_result leading m code w =
      let (result, c, sent) = origin_lookup escape router m code w.cache in
      (result, record w { cache = c; commands = w.commands ++ sent })
  flight_result (following leader c) m code w = ((origin_lookup escape router leader code c).0, w)
  flight_result leader_threw m code w = (loaded none, w)
  flight_result (overloaded text) m code w = (overload text, w)

  unfoldable pub publish_click : Bytes → World → World
  publish_click code w = record w { clicks = w.clicks ++ code ∷ [] }

  unfoldable pub respond_flight : Bytes → Result → HttpResponse → World → HttpResponse × World
  respond_flight code result resp w = elim result.kind [
    | kind_hit ↦ (set_safe_location dump result.long_url resp, publish_click code w)
    | kind_expired ↦ (respond_expired dump resp, w)
    | kind_not_found ↦ (respond_not_found dump resp, w)
    | kind_overload ↦ (
      respond_unavailable dump
          (if bytes_eq result.error [] then codes "singleflight overload" else result.error) resp,
      w,
    )
    | kind_error ↦ (respond_unavailable dump result.error resp, w)
  ]

  -- What is made of the status of the local cache.
  unfoldable pub respond_local :
      Flight → Meets → Bytes → HttpResponse → CacheStatus → World → HttpResponse × World
  respond_local flight m code resp (CacheStatus.hit v) w =
      (set_safe_location dump v.long_url resp, publish_click code w)
  respond_local flight m code resp (CacheStatus.expired v) w =
      let (_, c, sent) = ShortUrlCache.erase_code m.writing.redis_answers code w.cache in
      (respond_expired dump resp, record w { cache = c; commands = w.commands ++ sent })
  respond_local flight m code resp CacheStatus.not_found w = (respond_not_found dump resp, w)
  respond_local flight m code resp other w =
      let (result, w') = flight_result flight m code w in respond_flight code result resp w'

  -- `redirect` behind the checks of the code.
  unfoldable pub redirect_code :
      Flight → Meets → Bytes → HttpResponse → World → HttpResponse × World
  redirect_code flight m code resp w =
      let (status, c) = get_local m.local_now m.local_wall code w.cache in
      respond_local flight m code resp status (record w { cache = c })

  abbrev pub filtered_out : Bytes → ShortUrlCache.ShortUrlCache → Bool
  filtered_out code c = c.bloom_hard_filter && (c.bloom_ready && not (bloom_might_contain code c))

  unfoldable pub redirect :
      Flight → Meets → HttpRequest → HttpResponse → World → HttpResponse × World
  redirect flight m req resp w = elim (find (codes "code") req.params) [
    | none ↦ (respond_not_found dump resp, w)
    | some code ↦
        if bytes_eq code []
        then (respond_not_found dump resp, w)
        else if filtered_out code w.cache
        then (respond_not_found dump resp, w)
        else redirect_code flight m code resp w
  ]
