-- ===== src/ShortUrlHandler/Locations.antt =====
-- The responses that the handlers build.
use cpp_url_shortener.Protocol.Location.{IsSafeUrl, is_http_url_safe_for_location_iff}
use cpp_url_shortener.Protocol.{is_http_url_safe_for_location}
use cpp_url_shortener.Response.{HttpResponse, set_status, set_header, set_body, set_json}
use cpp_url_shortener.ShortUrlHandler.{Members, respond_error, set_safe_location}
use cpp_url_shortener.Common.{
  ℕ, ◌≡◌, refl, ◌⊎◌, inl, inr, false, some, [], Bool-cases, Bytes, codes, find, find-insert,
}

-- The response sends the reader to a safe URL, or reports that the stored one is unsafe.
abbrev pub Moves : Bytes → HttpResponse → Type 0
Moves url r =
    IsSafeUrl url
      × (r.status_code ≡ 302)
      × (find (codes "Location") r.headers ≡ some url)
      × (r.body ≡ [])
    ⊎ (is_http_url_safe_for_location url ≡ false) × (r.status_code ≡ 500)

module _ (dump : Members → Bytes) where
  pub set_safe_location-Moves :
      (url : Bytes) (resp : HttpResponse) → Moves url (set_safe_location dump url resp)
  unfolding set_safe_location respond_error set_json set_status set_header set_body
  set_safe_location-Moves url resp = elim (Bool-cases (is_http_url_safe_for_location url)) [
    | inl safe ↦ rw safe (
        inl (
          (is_http_url_safe_for_location_iff url).0 safe,
          refl,
          find-insert (codes "Location") (codes "Location") url resp.headers,
          refl,
        ))
    | inr unsafe ↦ rw unsafe (inr (refl, refl))
  ]

  pub status_of_error :
      (code : ℕ) (members : Members) (resp : HttpResponse)
      → (respond_error dump code members resp).status_code ≡ code
  unfolding respond_error set_json set_status
  status_of_error code members resp = refl
