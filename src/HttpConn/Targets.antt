-- ===== src/HttpConn/Targets.antt =====
-- The request line that a client writes, and the searches in it.
use mathlib.Core.Path.{subst, ap₂}
use cpp_url_shortener.Router.{HttpRequest}
use cpp_url_shortener.Protocol.{strcasecmp_eq, strncasecmp_eq, to_lower}
use cpp_url_shortener.HttpConn.RequestLine.{
  with_name, check_version, check_method, check_parts, set_parts, request_line_parts, is_blank,
  skip_blanks, break_at, method_name, skip_authority, request_target, set_target,
}
use cpp_url_shortener.Common.{
  ℕ, ◌≡◌, refl, sym, ap, ◌∙◌, Bool, true, false, not, Option, none, some, [], ◌∷◌, ◌++◌, append-nil,
  arith, ◌==◌, All, Bytes, codes,
}

pub break_at-front :
    (stop : ℕ → Bool) (front back : Bytes) (d : ℕ)
    → All (λ c. stop c ≡ false) front
    → stop d ≡ true
    → break_at stop (front ++ d ∷ back) ≡ some (front, back)
unfolding break_at
break_at-front stop [] back d h hit = rw (hit, break_at) refl
break_at-front stop (c ∷ front) back d h hit =
    rw (h.0, break_at, break_at-front stop front back d h.1 hit) refl

break_at_absent :
    (stop : ℕ → Bool) (text : Bytes) → All (λ c. stop c ≡ false) text → break_at stop text ≡ none
unfolding break_at
break_at_absent stop [] h = refl
break_at_absent stop (c ∷ text) h = rw (h.0, break_at, break_at_absent stop text h.1) refl

-- A text that starts with no blank.
abbrev pub starts_plain : Bytes → Bool
starts_plain [] = true
starts_plain (c ∷ text) = not (is_blank c)

pub skip_blanks-plain : (text : Bytes) → starts_plain text ≡ true → skip_blanks text ≡ text
unfolding skip_blanks
skip_blanks-plain [] h = refl
skip_blanks-plain (c ∷ text) h =
    let e : is_blank c ≡ false = ground arith in rw (e, skip_blanks) refl

abbrev pub query_part : Option Bytes → Bytes
query_part none = []
query_part (some query) = b'?' ∷ query

abbrev pub query_text : Option Bytes → Bytes
query_text none = []
query_text (some query) = query

-- A path starts with a slash, and neither part has a blank; the path has no question mark.
abbrev pub IsTarget : Bytes → Option Bytes → Type 0
IsTarget path query =
    All (λ c. is_blank c ≡ false) (b'/' ∷ (path ++ query_part query))
    × All (λ c. (c == b'?') ≡ false) (b'/' ∷ path)

abbrev pub target_text : Bytes → Option Bytes → Bytes
target_text path query = b'/' ∷ (path ++ query_part query)

abbrev pub request_line_text : Bytes → Bytes → Option Bytes → Bytes
request_line_text method path query =
    method ++ b' ' ∷ (target_text path query ++ b' ' ∷ codes "HTTP/1.1")

pub request_line_parts-text :
    (method name path : Bytes) (query : Option Bytes)
    → method_name method ≡ some name
    → All (λ c. is_blank c ≡ false) method
    → IsTarget path query
    → request_line_parts (request_line_text method path query) ≡ some (name, target_text path query)
unfolding request_line_parts check_parts check_method check_version with_name skip_blanks
    strcasecmp_eq request_target skip_authority strncasecmp_eq to_lower
request_line_parts-text method name path query named m t =
    let first =
      break_at-front is_blank method (target_text path query ++ b' ' ∷ codes "HTTP/1.1") b' ' m
        refl in
    let second =
      break_at-front is_blank (target_text path query) (codes "HTTP/1.1") b' ' t.0 refl in
    ap check_parts first
    ∙ (ap (λ (o : Option Bytes). check_method o (target_text path query ++ b' ' ∷ codes "HTTP/1.1"))
          named
        ∙ ap (check_version name) second)

pub set_target-text :
    (name path : Bytes) (query : Option Bytes) (req : HttpRequest)
    → IsTarget path query
    → req.query ≡ []
    → set_target name (target_text path query) req
      ≡ record req { method = name; path = b'/' ∷ path; query = query_text query }
unfolding set_target set_parts
set_target-text name path none req t e =
    let absent : break_at (λ c. c == b'?') (target_text path none) ≡ none =
      subst (λ (text : Bytes). break_at (λ c. c == b'?') (b'/' ∷ text) ≡ none)
        (sym (append-nil path)) (break_at_absent (λ c. c == b'?') (b'/' ∷ path) t.1) in
    ap (λ (o : Option (Bytes × Bytes)). set_parts name (target_text path none) o req) absent
    ∙ ap₂ (λ (p : Bytes) (q : Bytes). record req { method = name; path = b'/' ∷ p; query = q })
        (append-nil path) e
set_target-text name path (some query) req t e =
    let found = break_at-front (λ c. c == b'?') (b'/' ∷ path) query b'?' t.1 refl in
    ap (λ (o : Option (Bytes × Bytes)). set_parts name (target_text path (some query)) o req) found
