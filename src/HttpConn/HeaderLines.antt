-- ===== src/HttpConn/HeaderLines.antt =====
-- The header lines that a client writes.
use mathlib.Core.Path.{ap₂}
use cpp_url_shortener.Response.{header_lines}
use cpp_url_shortener.Response.Lines.{header_line, header_lines_cons}
use cpp_url_shortener.HttpConn.Lines.{at, eol, mark, IsLineByte, next_turn-line}
use cpp_url_shortener.HttpConn.Targets.{break_at-front, starts_plain, skip_blanks-plain}
use cpp_url_shortener.Protocol.{strncasecmp_eq, is_unsupported_body_encoding_header}
use cpp_url_shortener.HttpConn.State.{HttpConn, no_request, line_ok, check_state_header}
use cpp_url_shortener.HttpConn.RequestLine.{skip_blanks, break_at}
use cpp_url_shortener.HttpConn.Headers.{
  parse_headers, set_request_header, colon_header, other_header,
}
use cpp_url_shortener.HttpConn.Reading.{again, after_headers, process_read_loop}
use cpp_url_shortener.Common.{
  ℕ, suc, ◌+◌, ◌≤◌, ◌≡◌, refl, sym, ap, ◌∙◌, Bool, true, false, ◌||◌, Option, List, [], ◌∷◌, ◌++◌,
  append-nil, arith, ◌==◌, length, All, length-append, Bytes, codes, insert,
}

-- The headers that the parser gives a meaning.
unfoldable pub is_special : Bytes → Bool
is_special text =
    strncasecmp_eq text (codes "Connection:")
    || (strncasecmp_eq text (codes "Content-length:")
        || (is_unsupported_body_encoding_header text || strncasecmp_eq text (codes "Host:")))

-- A header without a meaning to the parser, written without line ends and stray blanks.
pub record IsHeader (h : Bytes × Bytes) : Type 0 where
  pub bytes : All IsLineByte (header_line h)
  pub key : All (λ c. (c == b':') ≡ false) h.0
  pub value : starts_plain h.1 ≡ true
  pub other : is_special (header_line h) ≡ false

parse_headers-ordinary :
    (d : ℕ) (line : Bytes) (c : HttpConn)
    → is_special (d ∷ line) ≡ false
    → parse_headers (d ∷ line) c ≡ other_header (d ∷ line) c
unfolding parse_headers is_special
parse_headers-ordinary d line c h =
    let t1 : strncasecmp_eq (d ∷ line) (codes "Connection:") ≡ false = ground arith in
    let t2 : strncasecmp_eq (d ∷ line) (codes "Content-length:") ≡ false = ground arith in
    let t3 : is_unsupported_body_encoding_header (d ∷ line) ≡ false = ground arith in
    let t4 : strncasecmp_eq (d ∷ line) (codes "Host:") ≡ false = ground arith in
    rw (t1, t2, t3, t4) refl

parse_headers-header :
    (key value : Bytes) (c : HttpConn)
    → IsHeader (key, value)
    → parse_headers (header_line (key, value)) c ≡ (no_request, set_request_header key value c)
unfolding other_header colon_header skip_blanks break_at
parse_headers-header [] value c h =
    parse_headers-ordinary b':' (b' ' ∷ value) c h.other
    ∙ ap (λ (v : Bytes). (no_request, set_request_header [] v c)) (skip_blanks-plain value h.value)
parse_headers-header (d ∷ key) value c h =
    parse_headers-ordinary d (key ++ (codes ": " ++ value)) c h.other
    ∙ (ap (λ (o : Option (Bytes × Bytes)). colon_header o c)
          (break_at-front (λ d. d == b':') (d ∷ key) (b' ' ∷ value) b':' h.key refl)
        ∙ ap (λ (v : Bytes). (no_request, set_request_header (d ∷ key) v c))
            (skip_blanks-plain value h.value))

-- The map with the headers entered in their order.
unfoldable pub enter : List (Bytes × Bytes) → List (Bytes × Bytes) → List (Bytes × Bytes)
enter [] m = m
enter ((key, value) ∷ headers) m = enter headers (insert key value m)

unfoldable pub add_headers : List (Bytes × Bytes) → HttpConn → HttpConn
add_headers headers c = record c {
  request = record c.request { headers = enter headers c.request.headers };
}

-- The consumed text behind header lines.
unfoldable pub mark_headers : Bytes → List (Bytes × Bytes) → Bytes
mark_headers before [] = before
mark_headers before (h ∷ headers) = mark_headers (mark before (header_line h)) headers

-- A turn of the loop at a header line that the parser accepts.
pub process_read_loop-header :
    (line : Bytes) (fuel : ℕ) (before s : Bytes) (c after : HttpConn)
    → c.check_state ≡ check_state_header
    → All IsLineByte line
    → parse_headers line (at (mark before line) s c) ≡ (no_request, after)
    → process_read_loop (suc fuel) (again line_ok (at before (line ++ (eol ++ s)) c))
      ≡ process_read_loop fuel (again line_ok after)
unfolding process_read_loop after_headers
process_read_loop-header line fuel before s c after e h parsed =
    ap (process_read_loop fuel)
      (next_turn-line check_state_header before line s c e (λ same. cc) h ∙ ap after_headers parsed)

-- Each header takes one turn.
pub process_read_loop-headers :
    (headers : List (Bytes × Bytes)) (fuel : ℕ) (before s : Bytes) (c : HttpConn)
    → c.check_state ≡ check_state_header
    → All IsHeader headers
    → process_read_loop
        (length headers + fuel)
        (again line_ok (at before (header_lines headers ++ s) c))
      ≡ process_read_loop fuel
          (again line_ok (at (mark_headers before headers) s (add_headers headers c)))
unfolding add_headers mark_headers enter set_request_header
process_read_loop-headers [] fuel before s c e h =
    let z : 0 + fuel ≡ fuel = omega arith in
    unfold header_lines in ap (λ (n : ℕ). process_read_loop n (again line_ok (at before s c))) z
process_read_loop-headers ((key, value) ∷ headers) fuel before s c e h =
    let line = header_line (key, value) in
    let rest = header_lines headers ++ s in
    let n : suc (length headers) + fuel ≡ suc (length headers + fuel) = omega arith in
    ap₂ (λ (k : ℕ) (text : Bytes). process_read_loop k (again line_ok (at before text c))) n
      (header_lines_cons key value headers s)
    ∙ (process_read_loop-header line (length headers + fuel) before rest c
          (at (mark before line) rest (set_request_header key value c)) e h.0.bytes
          (parse_headers-header key value (at (mark before line) rest c) h.0)
        ∙ process_read_loop-headers headers fuel (mark before line) s
            (set_request_header key value c) e h.1)

pub length-mark :
    (before line : Bytes) → length (mark before line) ≡ length before + length line + 2
length-mark before line =
    omega (arith, length-append (before ++ line) (0 ∷ 0 ∷ []), length-append before line)

pub length-mark_headers :
    (headers : List (Bytes × Bytes)) (before : Bytes)
    → length (mark_headers before headers) ≡ length before + length (header_lines headers)
unfolding mark_headers
length-mark_headers [] before = unfold header_lines in omega arith
length-mark_headers ((key, value) ∷ headers) before =
    let line = header_line (key, value) in
    omega (
      arith,
      length-mark_headers headers (mark before line),
      length-mark before line,
      ap length (
          sym (append-nil (header_lines ((key, value) ∷ headers)))
          ∙ header_lines_cons key value headers []),
      length-append line (eol ++ (header_lines headers ++ [])),
      ap length (append-nil (header_lines headers)),
    )

-- A header line takes at least one byte.
pub length_headers_le :
    (headers : List (Bytes × Bytes)) → length headers ≤ length (header_lines headers)
length_headers_le [] = omega arith
length_headers_le ((key, value) ∷ headers) = omega (
  arith,
  length_headers_le headers,
  ap length (
      sym (append-nil (header_lines ((key, value) ∷ headers)))
      ∙ header_lines_cons key value headers []),
  length-append (header_line (key, value)) (eol ++ (header_lines headers ++ [])),
  ap length (append-nil (header_lines headers)),
)
