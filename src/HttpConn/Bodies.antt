-- ===== src/HttpConn/Bodies.antt =====
-- The length header, the empty line and the body that a client writes.
use cpp_url_shortener.Protocol.ContentLength.{parse_content_length-to_string}
use cpp_url_shortener.Response.Lines.{length_line}
use cpp_url_shortener.HttpConn.Lines.{at, eol, mark, IsLineByte, next_turn-line}
use cpp_url_shortener.HttpConn.Targets.{skip_blanks-plain, starts_plain}
use cpp_url_shortener.HttpConn.HeaderLines.{process_read_loop-header}
use cpp_url_shortener.Protocol.{strncasecmp_eq, parse_content_length, to_lower}
use cpp_url_shortener.HttpConn.State.{
  HttpConn, no_request, get_request, line_ok, CheckState, check_state_header, check_state_content,
  read_buffer_size,
}
use cpp_url_shortener.HttpConn.RequestLine.{skip_blanks}
use cpp_url_shortener.HttpConn.Headers.{
  parse_headers, set_request_header, end_headers, set_length, length_header,
}
use cpp_url_shortener.HttpConn.Reading.{
  parse_content, done, again, after_headers, after_content, read_turn_in, read_turn, next_turn_in,
  next_turn, process_read_loop,
}
use cpp_url_shortener.Common.{
  ℕ, suc, ◌+◌, ◌<◌, ◌≡◌, refl, ap, ◌∙◌, true, false, Option, some, [], ◌∷◌, ◌++◌, arith, leb, ◌==◌,
  length, take, All, length-append, take-length-append, drop-length-append, All-append, Bytes,
  codes, to_string, IsDigit, decimal_value-to_string,
}

digit-IsLineByte : (s : Bytes) → All IsDigit s → All IsLineByte s
digit-IsLineByte [] h = tt
digit-IsLineByte (c ∷ s) h = (omega arith, digit-IsLineByte s h.1)

pub length_line-IsLineByte : (body : Bytes) → All IsLineByte (length_line body)
unfolding length_line
length_line-IsLineByte body =
    All-append IsLineByte (codes "Content-Length: ") (to_string (length body)) (omega arith)
      (digit-IsLineByte (to_string (length body)) (decimal_value-to_string (length body)).1)

digits-plain : (s : Bytes) → All IsDigit s → starts_plain s ≡ true
digits-plain [] h = refl
digits-plain (c ∷ s) h = let lo = h.0.0 in ground arith

-- The slot behind the `Content-Length` header.
unfoldable pub with_length : ℕ → HttpConn → HttpConn
with_length n c =
    set_request_header (codes "Content-Length") (to_string n) (record c { content_length = n })

pub parse_headers-length_line :
    (body : Bytes) (c : HttpConn)
    → length body < read_buffer_size
    → parse_headers (length_line body) c ≡ (no_request, with_length (length body) c)
unfolding parse_headers length_line strncasecmp_eq to_lower length_header set_length with_length
    skip_blanks
parse_headers-length_line body c fits =
    let n = length body in
    let val = to_string n in
    let plain = skip_blanks-plain val (digits-plain val (decimal_value-to_string n).1) in
    let parsed = parse_content_length-to_string n (omega arith) in
    let room : leb read_buffer_size n ≡ false = ground arith in
    let behind : length_header (skip_blanks (b' ' ∷ val)) c
        ≡ set_length val (parse_content_length val) c =
      ap (λ (v : Bytes). set_length v (parse_content_length v) c) plain in
    behind ∙ (ap (λ (o : Option ℕ). set_length val o c) parsed ∙ rw room refl)

-- The empty line before a body.
parse_headers-body :
    (c : HttpConn)
    → 0 < c.content_length
    → c.checked_idx + c.content_length < read_buffer_size
    → parse_headers [] c ≡ (no_request, record c { check_state = check_state_content })
unfolding parse_headers end_headers
parse_headers-body c some_body fits =
    let t1 : (c.content_length == 0) ≡ false = ground arith in
    let t2 : leb read_buffer_size (c.checked_idx + c.content_length) ≡ false = ground arith in
    rw (t1, t2) refl

-- The turns at the empty line, without a body and with one.
pub empty_line_end :
    (fuel : ℕ) (before rest : Bytes) (d : HttpConn)
    → d.check_state ≡ check_state_header
    → d.content_length ≡ 0
    → process_read_loop (suc fuel) (again line_ok (at before (eol ++ rest) d))
      ≡ some (get_request, at (mark before []) rest d)
unfolding process_read_loop parse_headers end_headers after_headers
empty_line_end fuel before rest d e none_sent =
    let t : (d.content_length == 0) ≡ true = ground arith in
    let p : parse_headers [] (at (mark before []) rest d)
        ≡ (get_request, at (mark before []) rest d) =
      rw t refl in
    ap (process_read_loop fuel)
      (next_turn-line check_state_header before [] rest d e (λ same. cc) tt ∙ ap after_headers p)

content_turn :
    (fuel : ℕ) (before body rest : Bytes) (d : HttpConn)
    → d.check_state ≡ check_state_content
    → d.content_length ≡ length body
    → process_read_loop (suc fuel) (again line_ok (at before (body ++ rest) d))
      ≡ some (
        get_request,
        record (at before (body ++ rest) d) {
          request = record d.request { body = body };
          checked_idx = length before + length body;
        },
      )
unfolding process_read_loop next_turn next_turn_in read_turn read_turn_in parse_content
    after_content
content_turn fuel before body rest d e n =
    let text = drop-length-append before (body ++ rest) in
    let all : leb (d.content_length + length before) (length (before ++ (body ++ rest))) ≡ true =
      (let l1 = length-append before (body ++ rest) in
        let l2 = length-append body rest in ground arith) in
    let slot = at before (body ++ rest) d in
    let ended : ℕ → Bytes → HttpConn = λ m b. record slot {
      request = record d.request { body = b };
      checked_idx = length before + m;
    } in
    let parsed : parse_content (body ++ rest) slot
        ≡ (get_request, ended d.content_length (take d.content_length (body ++ rest))) =
      rw all refl in
    ap (process_read_loop fuel) (
      ap (λ (k : CheckState). next_turn_in k line_ok slot) e
      ∙ (ap (λ (k : CheckState). read_turn_in k slot) e
          ∙ (ap (λ (t : Bytes). after_content (parse_content t slot)) text
              ∙ (ap after_content parsed
                  ∙ (ap (λ (m : ℕ). done get_request (ended m (take m (body ++ rest)))) n
                      ∙ ap (λ (b : Bytes). done get_request (ended (length body) b))
                          (take-length-append body rest))))))

pub empty_line_body :
    (fuel : ℕ) (before body rest : Bytes) (d : HttpConn)
    → d.check_state ≡ check_state_header
    → d.content_length ≡ length body
    → 0 < length body
    → length (mark before []) + length body < read_buffer_size
    → process_read_loop (suc (suc fuel)) (again line_ok (at before (eol ++ (body ++ rest)) d))
      ≡ some (
        get_request,
        record (at (mark before []) (body ++ rest) d) {
          request = record d.request { body = body };
          checked_idx = length (mark before []) + length body;
          check_state = check_state_content;
        },
      )
unfolding after_headers
empty_line_body fuel before body rest d e n some_body fits =
    process_read_loop-header [] (suc fuel) before (body ++ rest) d
      (at (mark before []) (body ++ rest) (record d { check_state = check_state_content })) e tt
      (parse_headers-body (at (mark before []) (body ++ rest) d) (omega arith) (omega arith))
    ∙ content_turn fuel (mark before []) body rest (record d { check_state = check_state_content })
        refl n
