-- ===== src/ShortUrlCache/RedisValue.antt =====
-- shorturl/short_url_cache.cpp: the text of a mapping in Redis, and how a reply is read.
use mathlib.Core.Path.{subst}
use cpp_url_shortener.LocalUrlCache.{is_business_expired}
use cpp_url_shortener.Common.{
  ◌≡◌, refl, sym, ap, ◌∙◌, ◌≢◌, ◌↔◌, ◌⊎◌, inl, inr, true, false, Option, none, some, [], ◌∷◌, ◌++◌,
  arith, ◌==◌, if◌then◌else◌, ==_iff, Bool-cases, length, drop, All, Bytes, codes, starts_with,
}

pub record LookupValue : Type 0 where
  pub long_url : Bytes
  pub expire_at : Bytes

-- `CacheStatus`, with the value that is written beside it.
pub data CacheStatus : Type 0 where
  hit : LookupValue → CacheStatus
  expired : LookupValue → CacheStatus
  miss not_found filtered unavailable overload : CacheStatus

abbrev pub magic : Bytes
magic = codes "v1\n"

unfoldable pub encode_redis_value : Bytes → Bytes → Bytes
encode_redis_value long_url expire_at = magic ++ (expire_at ++ (codes "\n" ++ long_url))

-- The text before the first newline, and the text behind it.
unfoldable pub split_newline : Bytes → Option (Bytes × Bytes)
split_newline [] = none
split_newline (c ∷ s) = elim (c == 10) [
  | true ↦ some ([], s)
  | false ↦ elim (split_newline s) [ none ↦ none | some (line, rest) ↦ some (c ∷ line, rest) ]
]

-- `none` is the result false.
unfoldable pub decode_redis_value : Bytes → Option LookupValue
decode_redis_value raw =
    if starts_with magic raw
    then elim (split_newline (drop 3 raw)) [
      | none ↦ none
      | some (expire_at, long_url) ↦ some (record { long_url = long_url; expire_at = expire_at })
    ]
    else none

-- `wall` is the text of `now_datetime()`.
unfoldable pub interpret_redis_payload : Bytes → Bytes → CacheStatus
interpret_redis_payload wall raw = elim (decode_redis_value raw) [
  | none ↦ miss
  | some value ↦ if is_business_expired wall value.expire_at then expired value else hit value
]

abbrev pub IsLine : Bytes → Type 0
IsLine = All (λ c. c ≢ 10)

split_newline_lem :
    (line rest : Bytes) → IsLine line → split_newline (line ++ 10 ∷ rest) ≡ some (line, rest)
unfolding split_newline
split_newline_lem [] rest h = refl
split_newline_lem (c ∷ line) rest h =
    let other : (c == 10) ≡ false = ground arith in
    rw (other, split_newline, split_newline_lem line rest h.1)

-- Every text has no newline or splits at one.
split_newline_cases :
    (s : Bytes)
    → (split_newline s ≡ none)
      ⊎ ((line : Bytes) × (rest : Bytes) × (split_newline s ≡ some (line, rest))
          × (s ≡ line ++ 10 ∷ rest)
          × IsLine line)
unfolding split_newline
split_newline_cases [] = inl refl
split_newline_cases (c ∷ s) = elim (Bool-cases (c == 10)) [
  | inl newline ↦
      inr ([], s, rw (newline, split_newline), ap (λ d. d ∷ s) ((==_iff c 10).0 newline), tt)
  | inr other ↦ elim (split_newline_cases s) [
    | inl e ↦ inl (rw (other, split_newline, e))
    | inr (line, rest, e, whole, is_line) ↦
        inr
          (c ∷ line, rest, rw (other, split_newline, e), ap (◌∷◌ c) whole, (ground arith, is_line))
  ]
]

starts_with_lem : (p s : Bytes) → starts_with p s ≡ true → s ≡ p ++ drop (length p) s
starts_with_lem [] s h = refl
starts_with_lem (c ∷ p) [] h = absurd (ground arith)
starts_with_lem (c ∷ p) (d ∷ s) h = ground (arith, starts_with_lem p s)

decode-encode :
    (long_url expire_at : Bytes)
    → IsLine expire_at
    → decode_redis_value (encode_redis_value long_url expire_at)
      ≡ some (record { long_url = long_url; expire_at = expire_at })
unfolding decode_redis_value encode_redis_value
decode-encode long_url expire_at h = rw (split_newline_lem expire_at long_url h)

-- A stored mapping is read back whole, as a hit until its business time is over and as expired
-- from then on, where its expiry text has no newline.
pub interpret-encode :
    (wall long_url expire_at : Bytes)
    → IsLine expire_at
    → let value : LookupValue = record { long_url = long_url; expire_at = expire_at } in
      interpret_redis_payload wall (encode_redis_value long_url expire_at)
      ≡ (if is_business_expired wall expire_at then expired value else hit value)
unfolding interpret_redis_payload
interpret-encode wall long_url expire_at h =
    rw (decode-encode long_url expire_at h, interpret_redis_payload)

pub decode_cases :
    (raw : Bytes)
    → (decode_redis_value raw ≡ none)
      ⊎ ((v : LookupValue) × (decode_redis_value raw ≡ some v)
          × (raw ≡ encode_redis_value v.long_url v.expire_at)
          × IsLine v.expire_at)
unfolding decode_redis_value encode_redis_value
decode_cases raw = elim (Bool-cases (starts_with magic raw)) [
  | inr other ↦ inl (rw other)
  | inl tagged ↦ elim (split_newline_cases (drop 3 raw)) [
    | inl e ↦ inl (rw (tagged, e))
    | inr (line, rest, e, whole, is_line) ↦ inr (
      record { long_url = rest; expire_at = line },
      rw (tagged, e),
      starts_with_lem magic raw tagged ∙ ap (◌++◌ magic) whole,
      is_line,
    )
  ]
]

from_some : Option LookupValue → LookupValue
from_some none = record { long_url = []; expire_at = [] }
from_some (some v) = v

-- What is decoded was encoded: any other payload is a miss.
pub decode_iff :
    (raw long_url expire_at : Bytes)
    → (decode_redis_value raw ≡ some (record { long_url = long_url; expire_at = expire_at }))
      ↔ ((raw ≡ encode_redis_value long_url expire_at) × IsLine expire_at)
unfolding from_some
decode_iff raw long_url expire_at = (
  (λ e. elim (decode_cases raw) [
    | inl none_read ↦ absurd (ground (arith, e, none_read))
    | inr (v, read, whole, is_line) ↦
        let same : v ≡ record { long_url = long_url; expire_at = expire_at } =
          ap from_some (sym read ∙ e) in
        subst
          (λ (w : LookupValue).
            (raw ≡ encode_redis_value w.long_url w.expire_at) × IsLine w.expire_at)
          same (whole, is_line)
  ]),
  (λ h. ap decode_redis_value h.0 ∙ decode-encode long_url expire_at h.1),
)
