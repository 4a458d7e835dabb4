-- ===== src/HttpConn/Cursor.antt =====
-- What the turns of `process_read` do to the cursor.
use cpp_url_shortener.HttpConn.State.{
  HttpConn, HttpCode, no_request, get_request, bad_request, request_entity_too_large, LineStatus,
  line_ok, line_bad, line_open, CheckState, check_state_requestline, check_state_header,
  check_state_content, read_idx,
}
use cpp_url_shortener.HttpConn.RequestLine.{accept_line, parse_request_line, request_line_parts}
use cpp_url_shortener.HttpConn.Headers.{
  parse_headers, set_request_header, end_headers, connection_header, set_length, colon_header,
  length_header, other_header,
}
use cpp_url_shortener.HttpConn.Reading.{
  parse_line_from, parse_content, Turn, done, again, after_request_line, after_headers,
  after_content, read_turn_in,
}
use cpp_url_shortener.Common.{
  ℕ, suc, ◌+◌, ◌-◌, ◌≤◌, ◌<◌, ◌≡◌, refl, ap, ◌∙◌, ◌≢◌, ◌&&◌, Option, none, some, [], ◌∷◌, arith,
  ltb, leb, ◌==◌, length, get_or, set, length-set, Bytes, if-cases,
}

-- The cursor and the buffer after `parse_line`, from the cursor before.
pub record Line (i : ℕ) (buf : Bytes) (r : LineStatus × ℕ × Bytes) : Type 0 where
  pub len : length (r.2) ≡ length buf
  pub from : i ≤ r.1
  pub upto : r.1 ≤ length buf
  pub moves : r.0 ≡ line_ok → i < r.1

stays :
    (status : LineStatus) (i : ℕ) (buf : Bytes)
    → (status ≢ line_ok)
    → i ≤ length buf
    → Line i buf (status, i, buf)
stays status i buf other le = record {
  len = refl;
  from = omega arith;
  upto = le;
  moves = λ e. absurd (other e);
}

pub parse_line_from-Line :
    (rest : Bytes) (i : ℕ) (buf : Bytes)
    → i + length rest ≡ length buf
    → Line i buf (parse_line_from rest i buf)
unfolding parse_line_from
parse_line_from-Line [] i buf h = stays line_open i buf (λ e. cc) (omega arith)
parse_line_from-Line (c ∷ rest) i buf h =
    let le : i + 1 ≤ length buf = omega arith in
    let next = parse_line_from-Line rest (suc i) buf (omega arith) in
    if-cases (Line i buf) (c == 13) _ _
      (λ cr.
        if-cases (Line i buf) (i + 1 == length buf) _ _
          (λ e. stays line_open i buf (λ e. cc) (omega arith))
          (λ more.
            if-cases (Line i buf) (get_or buf (i + 1) 0 == 10) _ _
              (λ lf. record {
                len = length-set (set buf i 0) (i + 1) 0 ∙ length-set buf i 0;
                from = omega arith;
                upto = ground arith;
                moves = λ e. omega arith;
              })
              (λ other. stays line_bad i buf (λ e. cc) (omega arith))))
      (λ ncr.
        if-cases (Line i buf) (c == 10) _ _
          (λ lf.
            if-cases (Line i buf) (ltb 1 i && get_or buf (i - 1) 0 == 13) _ _
              (λ ok. record {
                len = length-set (set buf (i - 1) 0) i 0 ∙ length-set buf (i - 1) 0;
                from = omega arith;
                upto = le;
                moves = λ e. omega arith;
              })
              (λ bad. stays line_bad i buf (λ e. cc) (omega arith)))
          (λ other. record {
            len = next.len;
            from = (let f = next.from in omega arith);
            upto = next.upto;
            moves = λ e. (let m = next.moves e in omega arith);
          }))

-- What `parse_request_line` and `parse_headers` do not change.
abbrev pub cursor : HttpConn → Bytes × ℕ × ℕ × ℕ
cursor c = (c.read_buf, c.checked_idx, c.start_line, c.generation)

accept_line-cursor :
    (o : Option (Bytes × Bytes)) (c : HttpConn) → cursor (accept_line o c).1 ≡ cursor c
unfolding accept_line
accept_line-cursor none c = refl
accept_line-cursor (some (name, target)) c = refl

parse_request_line-cursor :
    (text : Bytes) (c : HttpConn) → cursor (parse_request_line text c).1 ≡ cursor c
unfolding parse_request_line
parse_request_line-cursor text c = accept_line-cursor (request_line_parts text) c

parse_headers-cursor : (text : Bytes) (c : HttpConn) → cursor (parse_headers text c).1 ≡ cursor c
unfolding parse_headers end_headers connection_header length_header set_length other_header
    colon_header set_request_header
parse_headers-cursor [] c = ground arith
parse_headers-cursor (d ∷ line) c = ground arith

-- What a turn leaves, when the cursor was within the buffer: the buffer's length, and the cursor
-- and the line's start within it.
pub record Within (c after : HttpConn) : Type 0 where
  pub len : read_idx after ≡ read_idx c
  pub line : after.start_line ≤ after.checked_idx
  pub from : c.checked_idx ≤ after.checked_idx
  pub upto : after.checked_idx ≤ read_idx c
  pub same : after.generation ≡ c.generation

unfoldable pub TurnWithin : HttpConn → Turn → Type 0
TurnWithin c (done code after) = Within c after
TurnWithin c (again status after) = Within c after

pub same_cursor-Within :
    (c after : HttpConn)
    → cursor after ≡ (c.read_buf, c.checked_idx, c.checked_idx, c.generation)
    → c.checked_idx ≤ read_idx c
    → Within c after
same_cursor-Within c after e le =
    let buf = ap (λ (t : Bytes × ℕ × ℕ × ℕ). t.0) e in
    let checked = ap (λ (t : Bytes × ℕ × ℕ × ℕ). t.1) e in
    let start = ap (λ (t : Bytes × ℕ × ℕ × ℕ). t.2) e in
    record {
      len = ap length buf;
      line = omega (arith, checked, start);
      from = omega (arith, checked);
      upto = omega (arith, checked);
      same = ap (λ (t : Bytes × ℕ × ℕ × ℕ). t.3) e;
    }

unfoldable pub at_line : HttpConn → HttpConn
at_line c = record c { start_line = c.checked_idx }

after_request_line-Within :
    (c : HttpConn) (r : HttpCode × HttpConn) → Within c r.1 → TurnWithin c (after_request_line r)
unfolding after_request_line TurnWithin
after_request_line-Within c (bad_request, after) w = w
after_request_line-Within c (no_request, after) w = w
after_request_line-Within c (get_request, after) w = w
after_request_line-Within c (request_entity_too_large, after) w = w

after_headers-Within :
    (c : HttpConn) (r : HttpCode × HttpConn) → Within c r.1 → TurnWithin c (after_headers r)
unfolding after_headers TurnWithin
after_headers-Within c (bad_request, after) w = w
after_headers-Within c (no_request, after) w = w
after_headers-Within c (get_request, after) w = w
after_headers-Within c (request_entity_too_large, after) w = w

pub after_content-Within :
    (c : HttpConn) (r : HttpCode × HttpConn) → Within c r.1 → TurnWithin c (after_content r)
unfolding after_content TurnWithin
after_content-Within c (bad_request, after) w = w
after_content-Within c (no_request, after) w = w
after_content-Within c (get_request, after) w = w
after_content-Within c (request_entity_too_large, after) w = w

pub parse_content-Within :
    (text : Bytes) (c : HttpConn)
    → c.checked_idx ≤ read_idx c
    → Within c (parse_content text (at_line c)).1
unfolding parse_content at_line
parse_content-Within text c le =
    if-cases (λ (r : HttpCode × HttpConn). Within c r.1)
      (leb (c.content_length + c.checked_idx) (read_idx c)) _ _
      (λ all. record {
        len = refl;
        line = omega arith;
        from = omega arith;
        upto = ground arith;
        same = refl;
      })
      (λ part. record {
        len = refl;
        line = omega arith;
        from = omega arith;
        upto = le;
        same = refl;
      })

pub read_turn_in-Within :
    (state : CheckState) (c : HttpConn)
    → c.checked_idx ≤ read_idx c
    → TurnWithin c (read_turn_in state c)
unfolding read_turn_in at_line
read_turn_in-Within check_state_requestline c le =
    after_request_line-Within c _
      (same_cursor-Within c _ (parse_request_line-cursor _ (at_line c)) le)
read_turn_in-Within check_state_header c le =
    after_headers-Within c _ (same_cursor-Within c _ (parse_headers-cursor _ (at_line c)) le)
read_turn_in-Within check_state_content c le =
    after_content-Within c _ (parse_content-Within _ c le)

pub Within-trans : (a b c : HttpConn) → Within a b → Within b c → Within a c
Within-trans a b c u v =
    let ul = u.len in
    let uf = u.from in
    let vl = v.len in
    let vf = v.from in
    let vu = v.upto in
    record {
      len = vl ∙ ul;
      line = v.line;
      from = omega arith;
      upto = omega arith;
      same = v.same ∙ u.same;
    }

pub TurnWithin-trans : (a b : HttpConn) (t : Turn) → Within a b → TurnWithin b t → TurnWithin a t
unfolding TurnWithin
TurnWithin-trans a b (done code after) u v = Within-trans a b after u v
TurnWithin-trans a b (again status after) u v = Within-trans a b after u v
