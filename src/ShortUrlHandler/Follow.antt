-- ===== src/ShortUrlHandler/Follow.antt =====
-- Where a redirect leads to.
use cpp_url_shortener.Protocol.Location.{IsSafeUrl}
use cpp_url_shortener.Response.{HttpResponse}
use cpp_url_shortener.ShardRouter.{ShardRouter}
use cpp_url_shortener.LocalUrlCache
use cpp_url_shortener.LocalUrlCache.{is_business_expired, Status, EntryView}
use cpp_url_shortener.ShortUrlCache
use cpp_url_shortener.ShortUrlRepository.{found, find_long_url}
use cpp_url_shortener.ShortUrlHandler.{Members, World, Meets, Flight, leading, following}
use cpp_url_shortener.ShortUrlHandler.Lookups.{Holds}
use cpp_url_shortener.ShortUrlHandler.Redirects.{local_status}
use cpp_url_shortener.Common.{◌≡◌, false, some, [], Bytes, codes, find}

module _ (dump : Members → Bytes) (escape : Bytes → Bytes) (router : ShardRouter) where
  -- What a lookup meets says that the code leads to the URL, by a business time that is not over:
  -- Redis under the code's key, or MySQL by its own clock.
  pub data Told (m : Meets) (code : Bytes) (url : Bytes) : Type 0 where
    in_redis :
        (expire_at : Bytes)
        → Holds escape router m code url expire_at
        → is_business_expired m.redis_wall expire_at ≡ false
        → Told m code url
    in_mysql :
        (expire_at : Bytes)
        → find_long_url escape router m.mysql code ≡ found url expire_at
        → Told m code url

  -- Who says so: the local cache, the request's own lookup, or that of the same code by the
  -- request that leads.
  pub data Alive (flight : Flight) (m : Meets) (code : Bytes) (w : World) (url : Bytes)
      : Type 0 where
    in_local :
        (view : EntryView)
        → local_status m code w ≡ Status.hit view
        → view.long_url ≡ url
        → is_business_expired m.local_wall view.expire_at ≡ false
        → Alive flight m code w url
    own : flight ≡ leading → Told m code url → Alive flight m code w url
    shared :
        (leader : Meets) (c : ShortUrlCache.ShortUrlCache)
        → flight ≡ following leader c
        → Told leader code url
        → Alive flight m code w url

  abbrev Redirected : Flight → Meets → Bytes → World → HttpResponse → Type 0
  Redirected flight m code w r =
      (url : Bytes) × (find (codes "Location") r.headers ≡ some url)
      × IsSafeUrl url
      × (r.body ≡ [])
      × Alive flight m code w url
