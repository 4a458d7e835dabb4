-- ===== src/ShortUrlHandler/Shorten.antt =====
-- handler/short_url_handler.cpp: `shorten`. The static generator is the one of the `World`.
use cpp_url_shortener.Base62.{base62_encode}
use cpp_url_shortener.Snowflake.{issued, overflow, waiting, next_id}
use cpp_url_shortener.Protocol.{is_http_url_safe_for_location, join_public_base_url}
use cpp_url_shortener.Response.{HttpResponse, set_status, set_json}
use cpp_url_shortener.Router.{HttpRequest}
use cpp_url_shortener.ShardRouter.{ShardRouter}
use cpp_url_shortener.ShortUrlCache
use cpp_url_shortener.ShortUrlCache.{
  Writing, OriginBudgetGuard, origin_create, try_acquire_origin, drop_guard,
}
use cpp_url_shortener.ShortUrlRepository
use cpp_url_shortener.ShortUrlRepository.{
  ShortUrlRecord, CreateStatus, created, duplicate_code, create_failed, Answer,
}
use cpp_url_shortener.ShortUrlHandler.{
  JsonValue, json_string, json_null, json_other, Members, Payload, parse_error, not_object, object,
  World, valid_expire_at, error_member, respond_error, respond_unavailable,
}
use cpp_url_shortener.Common.{
  ℕ, zero, suc, not, ◌&&◌, Option, none, some, List, [], ◌∷◌, ◌++◌, if◌then◌else◌, Bytes, codes,
  bytes_eq, find,
}

-- The checks of the body: the text of the error 400, or the URL and the expiry text.
pub data Checked : Type 0 where
  rejected : Bytes → Checked
  accepted : Bytes → Bytes → Checked

unfoldable pub check_expire : Bytes → Option JsonValue → Checked
check_expire long_url none = accepted long_url []
check_expire long_url (some json_null) = accepted long_url []
check_expire long_url (some json_other) = rejected (codes "expire_at must be a datetime string")
check_expire long_url (some (json_string expire_at)) =
    if valid_expire_at expire_at
    then accepted long_url expire_at
    else rejected (codes "expire_at format must be YYYY-MM-DD HH:MM:SS")

unfoldable pub check_url : Members → Option JsonValue → Checked
check_url members none = rejected (codes "long_url is required")
check_url members (some json_null) = rejected (codes "long_url is required")
check_url members (some json_other) = rejected (codes "long_url is required")
check_url members (some (json_string long_url)) =
    if is_http_url_safe_for_location long_url
    then check_expire long_url (find (codes "expire_at") members)
    else rejected (codes "long_url must be http(s) without control characters")

unfoldable pub check_payload : Payload → Checked
check_payload parse_error = rejected (codes "invalid json")
check_payload not_object = rejected (codes "long_url is required")
check_payload (object members) = check_url members (find (codes "long_url") members)

-- What a creation meets: the worker id, the connection with its answers at each try, the clock
-- readings of each `next_id`, and the write to the caches.
pub record Minting : Type 0 where
  pub worker : ℕ
  pub mysql : Option (ℕ → Bytes → Answer)
  pub readings : ℕ → ℕ × List ℕ
  pub writing : Writing
  pub public_base_url : Bytes

-- The handler responds, lets the exception of `next_id` out, or still waits in it.
pub data Served : Type 0 where
  responded : HttpResponse → World → Served
  threw : World → Served
  stuck : Served

abbrev pub record_of : ℕ → Bytes → Bytes → ShortUrlRecord
record_of id long_url expire_at = record {
  id = id;
  short_code = base62_encode id;
  long_url = long_url;
  expire_at = expire_at;
}

-- The base of short URLs, from the configuration and the one before.
unfoldable pub init_short_url_handler : Bytes → Bytes → Bytes
init_short_url_handler public_base_url before =
    if bytes_eq public_base_url [] then before else public_base_url

module _ (dump : Members → Bytes) (escape : Bytes → Bytes) (router : ShardRouter)
    (m : Minting) where
  -- The members of the response 201.
  unfoldable pub created_members : Bytes → Bytes → Bytes → Members
  created_members code long_url expire_at =
      (codes "short_code", json_string code)
      ∷ (codes "short_url", json_string (join_public_base_url m.public_base_url code))
      ∷ (codes "long_url", json_string long_url)
      ∷ (codes "expire_at", if bytes_eq expire_at [] then json_null else json_string expire_at)
      ∷ []

  -- The row is there: both caches are written, then the response.
  unfoldable pub respond_created : Bytes → Bytes → Bytes → HttpResponse → World → Served
  respond_created code long_url expire_at resp w =
      let (_, c, sent) = ShortUrlCache.set m.writing code long_url expire_at w.cache in
      responded (set_json (dump (created_members code long_url expire_at)) (set_status 201 resp))
        (record w { cache = c; commands = w.commands ++ sent })

  -- The loop of tries: the tries to go, and the number of the try. An error text of MySQL ends it.
  unfoldable pub create_loop :
      ℕ → ℕ → (ℕ → Bytes → Answer) → Bytes → Bytes → HttpResponse → World → Served
  create_loop zero i mysql long_url expire_at resp w =
      responded (respond_unavailable dump [] resp) w
  create_loop (suc tries) i mysql long_url expire_at resp w =
      let (unix_seconds, later) = m.readings i in
      elim (next_id m.worker w.generator unix_seconds later) [
        | waiting ↦ stuck
        | overflow g ↦ threw (record w { generator = g })
        | issued id g ↦
            let w : World = record w { generator = g } in
            elim (ShortUrlRepository.create escape router (some (mysql i))
              (record_of id long_url expire_at)) [
                | created ↦ respond_created (base62_encode id) long_url expire_at resp w
                | duplicate_code ↦ create_loop tries (suc i) mysql long_url expire_at resp w
                | create_failed text ↦ responded (respond_unavailable dump text resp) w
              ]
      ]

  -- The destructor of the guard.
  unfoldable pub drop_after : OriginBudgetGuard → Served → Served
  drop_after budget (responded resp w) =
      responded resp (record w { cache = drop_guard budget w.cache })
  drop_after budget (threw w) = threw (record w { cache = drop_guard budget w.cache })
  drop_after budget stuck = stuck

  -- The connection that was taken, `none` for a null one.
  unfoldable pub with_connection :
      Option (ℕ → Bytes → Answer) → Bytes → Bytes → HttpResponse → World → Served
  with_connection none long_url expire_at resp w =
      responded (respond_unavailable dump (codes "mysql connection unavailable") resp) w
  with_connection (some mysql) long_url expire_at resp w =
      create_loop 3 0 mysql long_url expire_at resp w

  unfoldable pub shorten_checked : Checked → HttpResponse → World → Served
  shorten_checked (rejected text) resp w =
      responded (respond_error dump 400 (error_member text ∷ []) resp) w
  shorten_checked (accepted long_url expire_at) resp w =
      let (budget, c) = try_acquire_origin w.cache.redis_available origin_create w.cache in
      let w : World = record w { cache = c } in
      drop_after budget (
        if not c.redis_available && not budget.held
        then responded (respond_unavailable dump (codes "create origin budget exhausted") resp) w
        else with_connection m.mysql long_url expire_at resp w)

  unfoldable pub shorten : (Bytes → Payload) → HttpRequest → HttpResponse → World → Served
  shorten parse req resp w = shorten_checked (check_payload (parse req.body)) resp w
