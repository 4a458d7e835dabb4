-- ===== src/Router/Codes.antt =====
-- Where `GET /<code>` goes: to the redirect handler, unless the code is the name of a fixed route.
use cpp_url_shortener.Common.{
  ℕ, ◌^◌, ◌<◌, ◌≡◌, refl, sym, ap, ◌∙◌, ◌≢◌, ◌⊎◌, inl, inr, true, none, some, List, [], ◌∷◌,
  append-nil, arith, if◌then◌else◌, Bool-cases, length, All, Bytes, codes, bytes_eq, bytes_eq_iff,
  find, insert,
}
use cpp_url_shortener.Router.{
  HttpRequest, split_path, add_route, parameter_name, match_segments, match_route, dispatch,
  Handler, health, metrics, shorten, redirect, routes, Route,
}
use cpp_url_shortener.Router.Segments.{
  LacksSlash, IsSegment, join_segments, split_path-join_segments,
}
use cpp_url_shortener.Base62.{base62_encode}
use cpp_url_shortener.Base62.RoundTrip.{
  IsAlphanumeric, base62_value, base62_value-base62_encode, base62_encode_shape,
}

split_path_code : (code : Bytes) → IsSegment code → split_path (b'/' ∷ code) ≡ code ∷ []
unfolding join_segments
split_path_code code h =
    ap (λ (s : Bytes). split_path (b'/' ∷ s)) (sym (append-nil code))
    ∙ split_path-join_segments (code ∷ []) (h, tt)

-- The four registered routes, with their patterns split.
routes_lem :
    routes
    ≡ record {
      method = codes "GET";
      pattern = codes "/health";
      segments = codes "health" ∷ [];
      handler = health;
    }
      ∷ record {
        method = codes "GET";
        pattern = codes "/metrics";
        segments = codes "metrics" ∷ [];
        handler = metrics;
      }
      ∷ record {
        method = codes "POST";
        pattern = codes "/api/shorten";
        segments = codes "api" ∷ codes "shorten" ∷ [];
        handler = shorten;
      }
      ∷ record {
        method = codes "GET";
        pattern = codes "/{code}";
        segments = codes "{code}" ∷ [];
        handler = redirect;
      }
      ∷ []
unfolding routes add_route split_path cpp_url_shortener.Router.split_from
routes_lem = refl

module _ (code : Bytes) (req : HttpRequest) (method : req.method ≡ codes "GET")
    (path : req.path ≡ b'/' ∷ code) (segment : IsSegment code) where
  segments : split_path req.path ≡ code ∷ []
  segments = ap split_path path ∙ split_path_code code segment

  -- A literal route of one segment fits its own name alone.
  match_literal :
      (name pattern : Bytes) (h : Handler)
      → parameter_name name ≡ none
      → match_route
          (record { method = codes "GET"; pattern = pattern; segments = name ∷ []; handler = h })
          req
        ≡ (if bytes_eq name code then some [] else none)
  unfolding match_route match_segments
  match_literal name pattern h plain =
      rw (segments, method) (rw (plain, match_segments) (ground arith))

  match_code :
      (pattern : Bytes) (h : Handler)
      → match_route
          (record {
            method = codes "GET";
            pattern = pattern;
            segments = codes "{code}" ∷ [];
            handler = h;
          })
          req
        ≡ some ((codes "code", code) ∷ [])
  unfolding match_route match_segments parameter_name insert
  match_code pattern h = rw (segments, method)

  match_post :
      (pattern : Bytes) (segs : List Bytes) (h : Handler)
      → match_route
          (record { method = codes "POST"; pattern = pattern; segments = segs; handler = h })
          req
        ≡ none
  unfolding match_route
  match_post pattern segs h = rw method

-- Where the code goes: the two literal routes of one segment come first.
unfoldable pub code_handler : Bytes → Handler
code_handler code =
    if bytes_eq (codes "health") code
    then health
    else if bytes_eq (codes "metrics") code
    then metrics
    else redirect

-- `GET /<code>`, for a code that is one path segment, calls one handler: the redirect handler
-- with the code as its parameter `code`, unless the code is the name of a fixed route.
pub dispatch_code :
    (code : Bytes) (req : HttpRequest)
    → req.method ≡ codes "GET"
    → req.path ≡ b'/' ∷ code
    → IsSegment code
    → (req' : HttpRequest) × (dispatch routes req ≡ some (code_handler code, req'))
      × ((code_handler code ≡ redirect) → find (codes "code") req'.params ≡ some code)
unfolding dispatch code_handler find
dispatch_code code req method path segment =
    let h =
      match_literal code req method path segment (codes "health") (codes "/health") health
        (unfold parameter_name in refl) in
    let m =
      match_literal code req method path segment (codes "metrics") (codes "/metrics") metrics
        (unfold parameter_name in refl) in
    let p =
      match_post code req method path segment (codes "/api/shorten")
        (codes "api" ∷ codes "shorten" ∷ []) shorten in
    let r = match_code code req method path segment (codes "/{code}") redirect in
    elim (Bool-cases (bytes_eq (codes "health") code)) [
      | inl is_health ↦ (
        record req { params = []; route_pattern = codes "/health" },
        rw (routes_lem, dispatch, h, is_health),
        (λ e. absurd (ground arith)),
      )
      | inr not_health ↦ elim (Bool-cases (bytes_eq (codes "metrics") code)) [
        | inl is_metrics ↦ (
          record req { params = []; route_pattern = codes "/metrics" },
          rw (routes_lem, dispatch, h, not_health, dispatch, m, is_metrics),
          (λ e. absurd (ground arith)),
        )
        | inr not_metrics ↦ (
          record req { params = (codes "code", code) ∷ []; route_pattern = codes "/{code}" },
          rw (
            routes_lem, dispatch, h, not_health, dispatch, m, not_metrics, dispatch, p, dispatch, r,
          ),
          (λ e. refl),
        )
      ]
    ]

alphanumeric-LacksSlash : (s : Bytes) → All IsAlphanumeric s → LacksSlash s
alphanumeric-LacksSlash [] h = tt
alphanumeric-LacksSlash (c ∷ s) h = (not_slash c h.0, alphanumeric-LacksSlash s h.1)
  where
    not_slash : (c : ℕ) → IsAlphanumeric c → c ≢ b'/'
    not_slash c (inl (lo, hi)) e = omega arith
    not_slash c (inr (inl (lo, hi))) e = omega arith
    not_slash c (inr (inr (lo, hi))) e = omega arith

base62_encode-IsSegment : (id : ℕ) → id < 2 ^ 64 → IsSegment (base62_encode id)
base62_encode-IsSegment id h =
    let (some_byte, _, all) = base62_encode_shape id h in
    ((λ e. absurd (let none_left = ap length e in omega arith)), alphanumeric-LacksSlash _ all)

-- The two ids whose codes spell the names of fixed routes.
abbrev pub health_id : ℕ
health_id = 15783592667

abbrev pub metrics_id : ℕ
metrics_id = 1262866061060

shadowed_ids :
    (base62_value 0 (codes "health") ≡ health_id) × (base62_value 0 (codes "metrics") ≡ metrics_id)
unfolding base62_value cpp_url_shortener.Base62.RoundTrip.digit_value
shadowed_ids = (refl, refl)

id_of_code :
    (name : Bytes) (n id : ℕ)
    → base62_value 0 name ≡ n
    → bytes_eq name (base62_encode id) ≡ true
    → id ≡ n
id_of_code name n id value same =
    sym (base62_value-base62_encode id)
    ∙ ap (base62_value 0) (sym ((bytes_eq_iff name _).0 same))
    ∙ value

-- `GET` of the code of a 64-bit id reaches the redirect handler with that code, but for two ids:
-- their codes spell `health` and `metrics`, and reach those handlers instead.
pub dispatch-base62_encode :
    (id : ℕ) (req : HttpRequest)
    → id < 2 ^ 64
    → req.method ≡ codes "GET"
    → req.path ≡ b'/' ∷ base62_encode id
    → (req' : HttpRequest) × (h : Handler) × (dispatch routes req ≡ some (h, req'))
      × ((h ≡ redirect) × (find (codes "code") req'.params ≡ some (base62_encode id))
          ⊎ ((h ≡ health) × (id ≡ health_id) ⊎ (h ≡ metrics) × (id ≡ metrics_id)))
unfolding code_handler
dispatch-base62_encode id req fits method path =
    let code = base62_encode id in
    let (req', called, found) =
      dispatch_code code req method path (base62_encode-IsSegment id fits) in
    (
      req',
      code_handler code,
      called,
      elim (Bool-cases (bytes_eq (codes "health") code)) [
        | inl is_health ↦
            inr (
              inl (rw is_health, id_of_code (codes "health") health_id id shadowed_ids.0 is_health))
        | inr not_health ↦ elim (Bool-cases (bytes_eq (codes "metrics") code)) [
          | inl is_metrics ↦ inr (
              inr (
                rw (not_health, is_metrics),
                id_of_code (codes "metrics") metrics_id id shadowed_ids.1 is_metrics,
              ))
          | inr not_metrics ↦
              let to_redirect : code_handler code ≡ redirect = rw (not_health, not_metrics) in
              inl (to_redirect, found to_redirect)
        ]
      ],
    )
