-- ===== src/ShortUrlHandler/Tests.antt =====
-- Runs of the handlers, and their theorems at concrete requests.
use cpp_url_shortener.Protocol.{is_http_url_safe_for_location, contains_ctl_or_separator}
use cpp_url_shortener.Response.{new_response}
use cpp_url_shortener.Router.{HttpRequest}
use cpp_url_shortener.ShardRouter.{ShardRouter}
use cpp_url_shortener.Snowflake.{new_generator}
use cpp_url_shortener.LocalUrlCache.{
  is_business_expired, configure, shard_index, estimate_positive_bytes, ttl_with_jitter, wrap_int,
  seconds_after,
}
use cpp_url_shortener.LocalUrlCache.Budget.{configure-Inv}
use cpp_url_shortener.BloomFilter.{reset}
use cpp_url_shortener.BloomFilter.Membership.{reset-IsValid}
use cpp_url_shortener.ShortUrlCache
use cpp_url_shortener.ShortUrlCache.{Writing, answered, failed, new_cache}
use cpp_url_shortener.ShortUrlRepository.{Answer, rows}
use cpp_url_shortener.ShortUrlHandler.{
  expire_char, expire_chars, valid_expire_at, Members, Payload, object, json_string, World, Meets,
  Flight, leading, redirect, redirect_code, set_safe_location,
}
use cpp_url_shortener.ShortUrlHandler.RoundTrip.{redirect-set}
use cpp_url_shortener.ShortUrlHandler.Shorten.{Minting}
use cpp_url_shortener.Common.{
  ◌≡◌, refl, true, false, some, [], ◌∷◌, arith, Bytes, codes, pos, find, fnv1a_from,
}

dates :
    (valid_expire_at (codes "2026-06-01 00:00:00") ≡ true)
    × (valid_expire_at (codes "2026-06-01T00:00:00") ≡ false)
    × (valid_expire_at (codes "2026-06-01") ≡ false)
unfolding valid_expire_at expire_chars expire_char
dates = (refl, refl, refl)

abbrev code : Bytes
code = codes "8m0Kx"

abbrev url : Bytes
url = codes "https://example.com/a"

-- MySQL holds the code, with no end of its validity.
abbrev mysql : Bytes → Answer
mysql sql = rows ((some url ∷ some [] ∷ some (codes "0") ∷ []) ∷ [])

abbrev dump : Members → Bytes
dump members = codes "{}"

abbrev escape : Bytes → Bytes
escape s = s

abbrev tables : ShardRouter
tables = record {
  enabled = false;
  database_prefix = [];
  table_prefix = [];
  database_count = 1;
  table_count = 1;
}

abbrev world : World
world = record {
  cache = record (new_cache (configure 2 4096 2048 (pos 60) (pos 0) (pos 5))) {
    bloom = reset 64 2;
  };
  generator = new_generator;
  commands = [];
  clicks = [];
}

abbrev writing : Writing
writing = record { now = 0; local_draw = 0; redis_draw = 0; redis_answers = true }

abbrev meets : Meets
meets = record {
  local_now = 5;
  local_wall = codes "2026-05-01 12:00:00";
  redis = λ key. failed;
  redis_wall = codes "2026-05-01 12:00:00";
  writing = writing;
  mysql = some mysql;
}

abbrev request : HttpRequest
request = record {
  method = codes "GET";
  path = codes "/8m0Kx";
  query = [];
  route_pattern = codes "/{code}";
  headers = [];
  body = [];
  params = (codes "code", code) ∷ [];
}

redirect-set_example :
    let after : World = record world {
      cache = (ShortUrlCache.set writing code url [] world.cache).1;
    } in
    let (r, end) = redirect dump escape tables leading meets request new_response after in
    (r.status_code ≡ 302)
    × (find (codes "Location") r.headers ≡ some url)
    × (end.clicks ≡ code ∷ [])
unfolding is_business_expired configure shard_index fnv1a_from estimate_positive_bytes
    ttl_with_jitter wrap_int seconds_after find is_http_url_safe_for_location
    contains_ctl_or_separator
redirect-set_example =
    redirect-set dump escape tables writing code url [] world leading meets request new_response
      (configure-Inv 2 4096 2048 (pos 60) (pos 0) (pos 5)) (reset-IsValid 64 2 (omega arith))
      (omega arith) (omega arith) (omega arith) refl refl (λ e. cc) refl

abbrev followed_world : World
followed_world = record world { cache = (ShortUrlCache.set writing code url [] world.cache).1 }

abbrev minting : Minting
minting = record {
  worker = 1;
  mysql = some (λ i. mysql);
  readings = λ i. (1800000000, []);
  writing = writing;
  public_base_url = codes "http://localhost:9006";
}

abbrev parse : Bytes → Payload
parse body = object ((codes "long_url", json_string url) ∷ [])
