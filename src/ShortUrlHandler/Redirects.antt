-- ===== src/ShortUrlHandler/Redirects.antt =====
-- Why `redirect` answers what it answers, on every branch.
use cpp_url_shortener.Response.{HttpResponse}
use cpp_url_shortener.Router.{HttpRequest}
use cpp_url_shortener.ShardRouter.{ShardRouter}
use cpp_url_shortener.LocalUrlCache
use cpp_url_shortener.LocalUrlCache.{is_business_expired, Status}
use cpp_url_shortener.SingleFlight.{
  Result, Kind, kind_hit, kind_not_found, kind_expired, kind_error, kind_overload, new_result,
  overload,
}
use cpp_url_shortener.ShortUrlCache
use cpp_url_shortener.ShortUrlCache.{
  Reply, answered, get_redis, try_acquire_origin, drop_guard, origin_redirect, bloom_might_contain,
}
use cpp_url_shortener.ShortUrlHandler.{
  Members, World, Meets, Flight, leading, following, leader_threw, overloaded, filtered_out,
}
use cpp_url_shortener.ShortUrlHandler.Lookups.{Lookup}
use cpp_url_shortener.ShortUrlHandler.Locations.{Moves}
use cpp_url_shortener.Common.{◌≡◌, ◌≢◌, true, false, none, some, [], Bytes, codes, find}

-- What the local cache says of the code, with its business time.
abbrev pub local_status : Meets → Bytes → World → Status
local_status m code w = (LocalUrlCache.get m.local_now m.local_wall code w.cache.local_cache).0

-- The response that a result calls for.
abbrev pub Answers : Kind → Bytes → HttpResponse → Type 0
Answers kind_hit url r = Moves url r
Answers kind_expired url r = r.status_code ≡ 410
Answers kind_not_found url r = r.status_code ≡ 404
Answers kind_overload url r = r.status_code ≡ 503
Answers kind_error url r = r.status_code ≡ 503

module _ (dump : Members → Bytes) (escape : Bytes → Bytes) (router : ShardRouter) where
  -- Where the result of a lookup came from: its own, that of the request that leads, or none.
  abbrev pub Flown : Flight → Meets → Bytes → ShortUrlCache.ShortUrlCache → Result → Type 0
  Flown leading m code c result = Lookup escape router m code c result
  Flown (following leader c') m code c result = Lookup escape router leader code c' result
  Flown leader_threw m code c result =
      result ≡ record new_result { error = codes "singleflight loader exception" }
  Flown (overloaded text) m code c result = result ≡ overload text

  -- Why the response to a code is what it is.
  pub data Because (flight : Flight) (m : Meets) (code : Bytes) (w : World) (r : HttpResponse)
      : Type 0 where
    local_hit :
        (view : LocalUrlCache.EntryView)
        → local_status m code w ≡ Status.hit view
        → Moves view.long_url r
        → Because flight m code w r
    local_over :
        (view : LocalUrlCache.EntryView)
        → local_status m code w ≡ Status.expired view
        → r.status_code ≡ 410
        → Because flight m code w r
    local_absent :
        local_status m code w ≡ Status.neg_hit → r.status_code ≡ 404 → Because flight m code w r
    looked_up :
        (result : Result)
        → local_status m code w ≡ Status.miss
        → Flown flight m code
            (record w.cache {
              local_cache = (LocalUrlCache.get m.local_now m.local_wall code w.cache.local_cache).1;
            })
            result
        → Answers result.kind result.long_url r
        → Because flight m code w r

  abbrev local_read : Meets → Bytes → World → ShortUrlCache.ShortUrlCache
  local_read m code w = record w.cache {
    local_cache = (LocalUrlCache.get m.local_now m.local_wall code w.cache.local_cache).1;
  }

  -- Why the response to a request is what it is.
  pub data Reason (flight : Flight) (m : Meets) (req : HttpRequest) (w : World) (r : HttpResponse)
      : Type 0 where
    unnamed : find (codes "code") req.params ≡ none → r.status_code ≡ 404 → Reason flight m req w r
    empty_name :
        find (codes "code") req.params ≡ some [] → r.status_code ≡ 404 → Reason flight m req w r
    no_legal_code :
        (code : Bytes)
        → find (codes "code") req.params ≡ some code
        → filtered_out dump escape router code w.cache ≡ true
        → r.status_code ≡ 404
        → Reason flight m req w r
    by_code :
        (code : Bytes)
        → find (codes "code") req.params ≡ some code
        → code ≢ []
        → filtered_out dump escape router code w.cache ≡ false
        → Because flight m code w r
        → Reason flight m req w r
