-- ===== src/ShortUrlHandler/Creates.antt =====
-- What `shorten` does on every branch.
use cpp_url_shortener.Base62.{base62_encode}
use cpp_url_shortener.Snowflake.{Generator, Outcome, issued, overflow, waiting, next_id}
use cpp_url_shortener.Response.{HttpResponse}
use cpp_url_shortener.ShardRouter.{ShardRouter}
use cpp_url_shortener.ShortUrlCache.{origin_create, try_acquire_origin}
use cpp_url_shortener.ShortUrlCache.OriginBudget.{IsRefused, IsAllowed}
use cpp_url_shortener.ShortUrlRepository
use cpp_url_shortener.ShortUrlRepository.{
  CreateStatus, created, duplicate_code, create_failed, Answer,
}
use cpp_url_shortener.ShortUrlHandler.{Members, World, respond_unavailable}
use cpp_url_shortener.ShortUrlHandler.Shorten.{
  Minting, Served, responded, threw, stuck, record_of, respond_created, drop_after,
}
use cpp_url_shortener.Common.{ℕ, zero, suc, ◌<◌, ◌≡◌, none, some, [], Bytes, codes}

module _ (dump : Members → Bytes) (escape : Bytes → Bytes) (router : ShardRouter)
    (m : Minting) where
  module _ (mysql : ℕ → Bytes → Answer) (url expire_at : Bytes) where
    -- What the generator returns at a try, and what MySQL says of a row with an id.
    abbrev pub minting : ℕ → Generator → Outcome
    minting i g = let (unix_seconds, later) = m.readings i in next_id m.worker g unix_seconds later

    abbrev pub stored : ℕ → ℕ → CreateStatus
    stored i id =
        ShortUrlRepository.create escape router (some (mysql i)) (record_of id url expire_at)

    -- The generator, `start` before the first try, after tries whose ids MySQL all had already.
    pub data Tried (start : Generator) : ℕ → Generator → Type 0 where
      first : Tried start zero start
      again :
          {i : ℕ} {before : Generator} (id : ℕ) (g : Generator)
          → Tried start i before
          → minting i before ≡ issued id g
          → stored i id ≡ duplicate_code
          → Tried start (suc i) g

    -- The end of the tries in the world `w`.
    pub data Ends (resp : HttpResponse) (w : World) (result : Served) : Type 0 where
      -- MySQL took the row of the id that the generator gave at this try.
      minted :
          (i id : ℕ) (before g : Generator)
          → i < 3
          → Tried w.generator i before
          → minting i before ≡ issued id g
          → stored i id ≡ created
          → result
            ≡ respond_created dump escape router m
                (base62_encode id)
                url
                expire_at
                resp
                (record w { generator = g })
          → Ends resp w result
      -- An error of MySQL, with its text.
      failed :
          (i id : ℕ) (before g : Generator) (text : Bytes)
          → i < 3
          → Tried w.generator i before
          → minting i before ≡ issued id g
          → stored i id ≡ create_failed text
          → result ≡ responded (respond_unavailable dump text resp) (record w { generator = g })
          → Ends resp w result
      -- The ids of all three tries were there already.
      all_duplicates :
          (g : Generator)
          → Tried w.generator 3 g
          → result ≡ responded (respond_unavailable dump [] resp) (record w { generator = g })
          → Ends resp w result
      threw_out :
          (i : ℕ) (before g : Generator)
          → i < 3
          → Tried w.generator i before
          → minting i before ≡ overflow g
          → result ≡ threw (record w { generator = g })
          → Ends resp w result
      still_waits :
          (i : ℕ) (before : Generator)
          → i < 3
          → Tried w.generator i before
          → minting i before ≡ waiting
          → result ≡ stuck
          → Ends resp w result

  -- How a request to create ends, when its body was accepted.
  pub data IsShort (url expire_at : Bytes) (resp : HttpResponse) (w : World) (result : Served)
      : Type 0 where
    refused :
        IsRefused origin_create w.cache
        → result
          ≡ responded (respond_unavailable dump (codes "create origin budget exhausted") resp) w
        → IsShort url expire_at resp w result
    not_connected :
        IsAllowed origin_create w.cache
        → m.mysql ≡ none
        → (let (budget, c) = try_acquire_origin w.cache.redis_available origin_create w.cache in
            result
            ≡ drop_after dump escape router m budget (
                responded
                  (respond_unavailable dump (codes "mysql connection unavailable") resp)
                  (record w { cache = c })))
        → IsShort url expire_at resp w result
    tried :
        (mysql : ℕ → Bytes → Answer) (end : Served)
        → IsAllowed origin_create w.cache
        → m.mysql ≡ some mysql
        → (let (budget, c) = try_acquire_origin w.cache.redis_available origin_create w.cache in
            Ends mysql url expire_at resp (record w { cache = c }) end
            × (result ≡ drop_after dump escape router m budget end))
        → IsShort url expire_at resp w result
