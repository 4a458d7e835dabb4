-- ===== src/Protocol/Location.antt =====
-- What `is_http_url_safe_for_location` lets through, and the join of a base URL with a code.
use mathlib.Core.Path.{ap₂}
use mathlib.Core.List.{reverse-cons, reverse-append, reverse-reverse}
use cpp_url_shortener.Common.{
  ℕ, zero, suc, ◌≤◌, ◌≡◌, refl, sym, ap, ◌∙◌, ◌≢◌, ◌↔◌, ◌⊎◌, inl, inr, Bool, true, false, ◌||◌, [],
  ◌∷◌, ◌++◌, reverse, arith, ltb, ◌==◌, if◌then◌else◌, ==_iff, Bool-cases, length, replicate, All,
  Bytes, codes, starts_with,
}
use cpp_url_shortener.Protocol.{
  contains_ctl_or_separator, is_http_url_safe_for_location, skip_slashes, join_public_base_url,
}

-- No control byte: neither CR nor LF, among others.
abbrev pub IsPrintable : ℕ → Type 0
IsPrintable c = (0x20 ≤ c) × (c ≢ 0x7f)

pub contains_ctl_or_separator_iff :
    (s : Bytes) → (contains_ctl_or_separator s ≡ false) ↔ All IsPrintable s
unfolding contains_ctl_or_separator
contains_ctl_or_separator_iff [] = ((λ h. tt), (λ h. refl))
contains_ctl_or_separator_iff (c ∷ s) = ground (arith, contains_ctl_or_separator_iff s)

-- The URLs that may stand in a Location header: 8 to 2048 bytes, no control byte, and one of the
-- two schemes in front.
abbrev pub IsSafeUrl : Bytes → Type 0
IsSafeUrl url =
    (8 ≤ length url)
    × (length url ≤ 2048)
    × All IsPrintable url
    × ((starts_with (codes "http://") url ≡ true) ⊎ (starts_with (codes "https://") url ≡ true))

-- The check passes exactly the safe URLs.
pub is_http_url_safe_for_location_iff :
    (url : Bytes) → (is_http_url_safe_for_location url ≡ true) ↔ IsSafeUrl url
unfolding is_http_url_safe_for_location
is_http_url_safe_for_location_iff url =
    with_scheme url (starts_with (codes "http://") url) (starts_with (codes "https://") url)
  where
    with_scheme :
        (u : Bytes) (http https : Bool)
        → ((if ltb (length u) 8 || ltb 2048 (length u)
              then false
              else if contains_ctl_or_separator u
              then false
              else http || https)
            ≡ true)
          ↔ ((8 ≤ length u)
              × (length u ≤ 2048)
              × All IsPrintable u
              × ((http ≡ true) ⊎ (https ≡ true)))
    with_scheme u http https = ground (arith, contains_ctl_or_separator_iff u)

reversed_slashes : (s : Bytes) → (n : ℕ) × (s ≡ replicate n b'/' ++ skip_slashes s)
unfolding skip_slashes
reversed_slashes [] = (0, refl)
reversed_slashes (c ∷ s) = elim (Bool-cases (c == b'/')) [
  | inl slash ↦
      let (n, e) = reversed_slashes s in
      (suc n, rw (slash, skip_slashes) (ap₂ ◌∷◌ ((==_iff c b'/').0 slash) e))
  | inr other ↦ (0, rw (other, skip_slashes))
]

abbrev pub ends_in_slash : Bytes → Bool
ends_in_slash s = starts_with (b'/' ∷ []) (reverse s)

skip_slashes_done : (s : Bytes) → starts_with (b'/' ∷ []) (skip_slashes s) ≡ false
unfolding skip_slashes
skip_slashes_done [] = refl
skip_slashes_done (c ∷ s) = elim (Bool-cases (c == b'/')) [
  | inl slash ↦ rw (slash, skip_slashes) (skip_slashes_done s)
  | inr other ↦ rw (other, skip_slashes) (ground arith)
]

reverse-replicate : (n c : ℕ) → reverse (replicate n c) ≡ replicate n c
reverse-replicate zero c = refl
reverse-replicate (suc n) c =
    reverse-cons c (replicate n c)
    ∙ ap (λ (s : Bytes). s ++ c ∷ []) (reverse-replicate n c)
    ∙ replicate_comm n c
  where
    replicate_comm : (m d : ℕ) → replicate m d ++ d ∷ [] ≡ d ∷ replicate m d
    replicate_comm zero d = refl
    replicate_comm (suc m) d = ap (◌∷◌ d) (replicate_comm m d)

-- A short URL is the base without its trailing slashes, one slash, and the code.
pub join_public_base_url_lem :
    (base code : Bytes)
    → (front : Bytes) × (n : ℕ) × (base ≡ front ++ replicate n b'/')
      × (ends_in_slash front ≡ false)
      × (join_public_base_url base code ≡ front ++ b'/' ∷ code)
unfolding join_public_base_url
join_public_base_url_lem [] code = ([], 0, refl, refl, refl)
join_public_base_url_lem (c ∷ base) code =
    let r = reverse (c ∷ base) in
    let (n, e) = reversed_slashes r in
    (
      reverse (skip_slashes r),
      n,
      sym (reverse-reverse (c ∷ base))
          ∙ ap reverse e
          ∙ reverse-append (replicate n b'/') (skip_slashes r)
          ∙ ap (λ (t : Bytes). reverse (skip_slashes r) ++ t) (reverse-replicate n b'/'),
      ap (starts_with (b'/' ∷ [])) (reverse-reverse (skip_slashes r)) ∙ skip_slashes_done r,
      refl,
    )
