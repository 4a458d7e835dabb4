-- ===== src/ShortUrlHandler/RoundTrip.antt =====
-- A mapping that was just written to the caches is followed from the local one.
use mathlib.Core.Path.{subst}
use cpp_url_shortener.Protocol.{is_http_url_safe_for_location}
use cpp_url_shortener.Response.{HttpResponse, set_status, set_header, set_body}
use cpp_url_shortener.Router.{HttpRequest}
use cpp_url_shortener.ShardRouter.{ShardRouter}
use cpp_url_shortener.LocalUrlCache
use cpp_url_shortener.LocalUrlCache.{
  is_business_expired, Status, shard_at, estimate_positive_bytes, second, ttl_with_jitter,
  seconds_after,
}
use cpp_url_shortener.LocalUrlCache.Budget.{Inv}
use cpp_url_shortener.LocalUrlCache.Hits.{get-put_positive}
use cpp_url_shortener.BloomFilter
use cpp_url_shortener.BloomFilter.Membership
use cpp_url_shortener.BloomFilter.Membership.{might_contain-add_self}
use cpp_url_shortener.ShortUrlCache
use cpp_url_shortener.ShortUrlCache.{
  Writing, send_command, add_legal_code, put_local_positive, get_local, status_of, redis_setex,
  cache_key, Command, mark_redis_unavailable, ensure_probe_started, bloom_might_contain,
}
use cpp_url_shortener.ShortUrlHandler.{
  Members, World, Meets, Flight, set_safe_location, publish_click, respond_local, redirect_code,
  redirect, filtered_out,
}
use cpp_url_shortener.Common.{
  ◌+◌, ◌^◌, ◌≤◌, ◌<◌, ◌≡◌, refl, sym, ap, ◌∙◌, ◌≢◌, Bool, true, false, some, [], ◌∷◌, ◌++◌, arith,
  leb, Bytes, codes, bytes_eq, find, find-insert,
}

-- A command leaves the local cache and the filter alone.
sent_keeps :
    (answers : Bool) (command : Command) (c : ShortUrlCache.ShortUrlCache)
    → ((send_command answers command c).1.local_cache ≡ c.local_cache)
      × ((send_command answers command c).1.bloom ≡ c.bloom)
unfolding send_command mark_redis_unavailable ensure_probe_started
sent_keeps answers command c = ground arith

set_caches :
    (w : Writing) (code url expire_at : Bytes) (c : ShortUrlCache.ShortUrlCache)
    → ((ShortUrlCache.set w code url expire_at c).1.local_cache
        ≡ LocalUrlCache.put_positive w.now w.local_draw code url expire_at c.local_cache)
      × ((ShortUrlCache.set w code url expire_at c).1.bloom ≡ BloomFilter.add code c.bloom)
unfolding ShortUrlCache.set add_legal_code put_local_positive
set_caches w code url expire_at c = sent_keeps w.redis_answers _ _

named_code : (code : Bytes) → code ≢ [] → bytes_eq code [] ≡ false
named_code [] ne = absurd (ne refl)
named_code (c ∷ code) ne = refl

module _ (dump : Members → Bytes) (escape : Bytes → Bytes) (router : ShardRouter) where
  contained_passes :
      (code : Bytes) (c : ShortUrlCache.ShortUrlCache)
      → BloomFilter.might_contain code c.bloom ≡ true
      → filtered_out dump escape router code c ≡ false
  unfolding bloom_might_contain
  contained_passes code c h = ground arith

  redirect_to_code :
      (code : Bytes) (w : World) (flight : Flight) (m : Meets) (req : HttpRequest)
      (resp : HttpResponse)
      → find (codes "code") req.params ≡ some code
      → bytes_eq code [] ≡ false
      → filtered_out dump escape router code w.cache ≡ false
      → redirect dump escape router flight m req resp w
        ≡ redirect_code dump escape router flight m code resp w
  unfolding redirect
  redirect_to_code code w flight m req resp there named passes =
      simp (there, redirect, named, passes)

  redirect_code_hit :
      (code url expire_at : Bytes) (w : World) (flight : Flight) (m : Meets) (resp : HttpResponse)
      → (LocalUrlCache.get m.local_now m.local_wall code w.cache.local_cache).0
        ≡ Status.hit (record { long_url = url; expire_at = expire_at })
      → redirect_code dump escape router flight m code resp w ≡ (
        set_safe_location dump url resp,
        publish_click dump escape router code
            (record w { cache = (get_local m.local_now m.local_wall code w.cache).1 }),
      )
  unfolding redirect_code get_local status_of respond_local
  redirect_code_hit code url expire_at w flight m resp found =
      ap
        (λ (s : Status).
          respond_local dump escape router flight m code resp (status_of s)
            (record w { cache = (get_local m.local_now m.local_wall code w.cache).1 }))
        found

  located :
      (url : Bytes) (resp : HttpResponse)
      → is_http_url_safe_for_location url ≡ true
      → ((set_safe_location dump url resp).status_code ≡ 302)
        × (find (codes "Location") (set_safe_location dump url resp).headers ≡ some url)
  unfolding set_safe_location set_status set_header set_body
  located url resp safe =
      rw safe (refl, find-insert (codes "Location") (codes "Location") url resp.headers)

  -- A request for a code that the local cache has, and that the filter lets pass.
  redirect_local :
      (code url expire_at : Bytes) (w : World) (flight : Flight) (m : Meets) (req : HttpRequest)
      (resp : HttpResponse)
      → find (codes "code") req.params ≡ some code
      → bytes_eq code [] ≡ false
      → filtered_out dump escape router code w.cache ≡ false
      → (LocalUrlCache.get m.local_now m.local_wall code w.cache.local_cache).0
        ≡ Status.hit (record { long_url = url; expire_at = expire_at })
      → is_http_url_safe_for_location url ≡ true
      → let (r, end) = redirect dump escape router flight m req resp w in
        (r.status_code ≡ 302)
        × (find (codes "Location") r.headers ≡ some url)
        × (end.clicks ≡ w.clicks ++ code ∷ [])
  redirect_local code url expire_at w flight m req resp there named passes found safe =
      let whole =
        redirect_to_code code w flight m req resp there named passes
        ∙ redirect_code_hit code url expire_at w flight m resp found in
      subst
        (λ (p : HttpResponse × World).
          (p.0.status_code ≡ 302)
          × (find (codes "Location") p.0.headers ≡ some url)
          × (p.1.clicks ≡ w.clicks ++ code ∷ []))
        (sym whole)
        ((located url resp safe).0, (located url resp safe).1, (unfold publish_click in refl))

  -- After `set`, as `shorten` and a lookup in MySQL call it, a request for the code is sent to
  -- the URL and published as a click, whatever Redis, MySQL and other requests say: where the
  -- shard has room for the mapping, its cache time and its business time still run, and the URL
  -- is safe. The Bloom filter lets the code pass, also as a hard filter.
  pub redirect-set :
      (writing : Writing) (code url expire_at : Bytes) (w : World) (flight : Flight) (m : Meets)
      (req : HttpRequest) (resp : HttpResponse)
      → Inv w.cache.local_cache
      → Membership.IsValid w.cache.bloom
      → w.cache.local_cache.positive_byte_budget < 2 ^ 64
      → (shard_at w.cache.local_cache code).positive.bytes
          + estimate_positive_bytes code url expire_at
        ≤ w.cache.local_cache.positive_byte_budget
      → m.local_now
        < seconds_after writing.now (ttl_with_jitter w.cache.local_cache.config writing.local_draw)
      → is_business_expired m.local_wall expire_at ≡ false
      → is_http_url_safe_for_location url ≡ true
      → code ≢ []
      → find (codes "code") req.params ≡ some code
      → let after : World = record w {
        cache = (ShortUrlCache.set writing code url expire_at w.cache).1;
      } in
        let (r, end) = redirect dump escape router flight m req resp after in
        (r.status_code ≡ 302)
        × (find (codes "Location") r.headers ≡ some url)
        × (end.clicks ≡ w.clicks ++ code ∷ [])
  redirect-set writing code url expire_at w flight m req resp inv valid big room fresh runs safe ne
        there =
      let (local, bloom) = set_caches writing code url expire_at w.cache in
      let contained =
        ap (BloomFilter.might_contain code) bloom
        ∙ might_contain-add_self w.cache.bloom valid code in
      let end_of_cache : leb
            (seconds_after writing.now
              (ttl_with_jitter w.cache.local_cache.config writing.local_draw))
            m.local_now
          ≡ false =
        ground arith in
      let found =
        ap
          (λ (c : LocalUrlCache.LocalUrlCache).
            (LocalUrlCache.get m.local_now m.local_wall code c).0)
          local
        ∙ get-put_positive w.cache.local_cache inv code writing.now writing.local_draw m.local_now
            m.local_wall url expire_at big room
        ∙ rw (end_of_cache, runs) in
      let named : bytes_eq code [] ≡ false = named_code code ne in
      redirect_local code url expire_at _ flight m req resp there named
        (contained_passes code _ contained) found safe
