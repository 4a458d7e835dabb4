-- ===== src/HttpConn/Lines.antt =====
-- A turn of `process_read` on a line that has come whole.
use mathlib.Core.Path.{ap₂}
use cpp_url_shortener.HttpConn.State.{
  HttpConn, LineStatus, line_ok, CheckState, check_state_requestline, check_state_header,
  check_state_content,
}
use cpp_url_shortener.HttpConn.RequestLine.{parse_request_line}
use cpp_url_shortener.HttpConn.Headers.{parse_headers}
use cpp_url_shortener.HttpConn.Reading.{
  parse_line_from, parse_line, parse_content, c_string, Turn, after_request_line, after_headers,
  after_content, read_turn_in, read_turn, after_line, next_turn_in, next_turn,
}
use cpp_url_shortener.Common.{
  ℕ, suc, ◌+◌, ◌<◌, ◌≡◌, refl, sym, ap, ◌∙◌, ◌≢◌, true, false, [], ◌∷◌, ◌++◌, append_assoc, arith,
  ◌==◌, length, get_or, set, drop, All, length-append, drop-length-append, Bytes,
}

-- The slot with `done` consumed, the cursor and the line's start behind it, and `s` to be read.
abbrev pub at : Bytes → Bytes → HttpConn → HttpConn
at before s c = record c {
  read_buf = before ++ s;
  checked_idx = length before;
  start_line = length before;
}

abbrev pub eol : Bytes
eol = 13 ∷ 10 ∷ []

-- Neither an end of line nor the end of a C string.
abbrev pub IsLineByte : ℕ → Type 0
IsLineByte c = (c ≢ 13) × (c ≢ 10) × (c ≢ 0)

parse_line_from-line :
    (line s : Bytes) (i j : ℕ) (buf : Bytes)
    → All IsLineByte line
    → j ≡ i + length line
    → j + 1 < length buf
    → get_or buf (j + 1) 0 ≡ 10
    → parse_line_from (line ++ (eol ++ s)) i buf ≡ (line_ok, j + 2, set (set buf j 0) (j + 1) 0)
unfolding parse_line_from
parse_line_from-line [] s i j buf h e room lf =
    let same : i ≡ j = omega arith in
    let more : (j + 1 == length buf) ≡ false = ground arith in
    let found : (get_or buf (j + 1) 0 == 10) ≡ true = ground arith in rw (same, more, found) refl
parse_line_from-line (c ∷ line) s i j buf h e room lf =
    let ncr : (c == 13) ≡ false = (let n = h.0.0 in ground arith) in
    let nlf : (c == 10) ≡ false = (let n = h.0.1 in ground arith) in
    rw (ncr, nlf) (parse_line_from-line line s (suc i) j buf h.1 (omega arith) room lf)

get_or-behind : (p : Bytes) (a b : ℕ) (s : Bytes) → get_or (p ++ a ∷ b ∷ s) (length p + 1) 0 ≡ b
get_or-behind [] a b s = refl
get_or-behind (x ∷ p) a b s =
    let e : suc (length p) + 1 ≡ suc (length p + 1) = omega arith in rw e (get_or-behind p a b s)

set-ends :
    (p : Bytes) (a b : ℕ) (s : Bytes)
    → set (set (p ++ a ∷ b ∷ s) (length p) 0) (length p + 1) 0 ≡ p ++ 0 ∷ 0 ∷ s
set-ends [] a b s = refl
set-ends (x ∷ p) a b s =
    let e : suc (length p) + 1 ≡ suc (length p + 1) = omega arith in
    rw e (ap (◌∷◌ x) (set-ends p a b s))

c_string-line : (line s : Bytes) → All IsLineByte line → c_string (line ++ 0 ∷ s) ≡ line
unfolding c_string
c_string-line [] s h = refl
c_string-line (c ∷ line) s h =
    let other : (c == 0) ≡ false = (let n = h.0.2 in ground arith) in
    rw (other, c_string) (ap (◌∷◌ c) (c_string-line line s h.1))

abbrev scanned : Bytes → Bytes → Bytes → HttpConn → HttpConn
scanned before line s c = record c {
  read_buf = (before ++ line) ++ 0 ∷ 0 ∷ s;
  checked_idx = length (before ++ line) + 2;
  start_line = length before;
}

-- The cursor is moved over the line, and its end becomes zeros.
parse_line-line :
    (before line s : Bytes) (c : HttpConn)
    → All IsLineByte line
    → parse_line (at before (line ++ (eol ++ s)) c) ≡ (line_ok, scanned before line s c)
unfolding parse_line
parse_line-line before line s c h =
    let p = before ++ line in
    let whole : before ++ (line ++ (eol ++ s)) ≡ p ++ (eol ++ s) =
      sym (append_assoc before line (eol ++ s)) in
    let len = length-append p (eol ++ s) in
    let split = length-append before line in
    let scan =
      parse_line_from-line line s (length before) (length p) (p ++ (eol ++ s)) h split
        (omega (arith, len)) (get_or-behind p 13 10 s) in
    let start = length before in
    let tail = line ++ (eol ++ s) in
    let zeros =
      ap (λ (d : Bytes). parse_line_from d start (before ++ tail)) (drop-length-append before tail)
      ∙ (ap (λ (b : Bytes). parse_line_from tail start b) whole
          ∙ (scan ∙ ap (λ (b : Bytes). (line_ok, length p + 2, b)) (set-ends p 13 10 s))) in
    ap
      (λ (r : LineStatus × ℕ × Bytes).
        (r.0, record c { read_buf = r.2; checked_idx = r.1; start_line = start }))
      zeros

-- The text up to the end of the line, as `parse_line` leaves it.
abbrev pub mark : Bytes → Bytes → Bytes
mark before line = (before ++ line) ++ (0 ∷ 0 ∷ [])

-- The body of the loop at the line.
abbrev pub parse_text : CheckState → Bytes → HttpConn → Turn
parse_text check_state_requestline text c = after_request_line (parse_request_line text c)
parse_text check_state_header text c = after_headers (parse_headers text c)
parse_text check_state_content text c = after_content (parse_content text c)

mark-at :
    (before line s : Bytes) (c : HttpConn)
    → record c {
      read_buf = (before ++ line) ++ 0 ∷ 0 ∷ s;
      checked_idx = length (before ++ line) + 2;
      start_line = length (before ++ line) + 2;
    }
      ≡ at (mark before line) s c
mark-at before line s c =
    let p = before ++ line in
    let len : length p + 2 ≡ length (mark before line) = sym (length-append p (0 ∷ 0 ∷ [])) in
    let buf : p ++ 0 ∷ 0 ∷ s ≡ mark before line ++ s = sym (append_assoc p (0 ∷ 0 ∷ []) s) in
    ap₂ (λ (n : ℕ) (b : Bytes). record c { read_buf = b; checked_idx = n; start_line = n }) len buf

text-at :
    (before line s : Bytes)
    → All IsLineByte line
    → c_string (drop (length before) ((before ++ line) ++ 0 ∷ 0 ∷ s)) ≡ line
text-at before line s h =
    rw (append_assoc before line (0 ∷ 0 ∷ s), drop-length-append before (line ++ 0 ∷ 0 ∷ s))
      (c_string-line line (0 ∷ s) h)

line_turn_in :
    (state : CheckState) (before line s : Bytes) (c : HttpConn)
    → state ≢ check_state_content
    → All IsLineByte line
    → read_turn_in state (scanned before line s c)
      ≡ parse_text state line (at (mark before line) s c)
unfolding read_turn_in
line_turn_in check_state_requestline before line s c ne h =
    ap₂ (λ (t : Bytes) (d : HttpConn). after_request_line (parse_request_line t d))
      (text-at before line s h) (mark-at before line s c)
line_turn_in check_state_header before line s c ne h =
    ap₂ (λ (t : Bytes) (d : HttpConn). after_headers (parse_headers t d)) (text-at before line s h)
      (mark-at before line s c)
line_turn_in check_state_content before line s c ne h = absurd (ne refl)

next_turn_in-line :
    (state : CheckState) (before line s : Bytes) (c : HttpConn)
    → c.check_state ≡ state
    → state ≢ check_state_content
    → All IsLineByte line
    → next_turn_in state line_ok (at before (line ++ (eol ++ s)) c)
      ≡ parse_text state line (at (mark before line) s c)
unfolding next_turn_in after_line read_turn
next_turn_in-line check_state_requestline before line s c e ne h =
    ap after_line (parse_line-line before line s c h)
    ∙ (ap (λ state. read_turn_in state (scanned before line s c)) e
        ∙ line_turn_in check_state_requestline before line s c ne h)
next_turn_in-line check_state_header before line s c e ne h =
    ap after_line (parse_line-line before line s c h)
    ∙ (ap (λ state. read_turn_in state (scanned before line s c)) e
        ∙ line_turn_in check_state_header before line s c ne h)
next_turn_in-line check_state_content before line s c e ne h = absurd (ne refl)

-- A whole line is parsed as the check state has it, whatever stands before it and behind it.
pub next_turn-line :
    (state : CheckState) (before line s : Bytes) (c : HttpConn)
    → c.check_state ≡ state
    → state ≢ check_state_content
    → All IsLineByte line
    → next_turn line_ok (at before (line ++ (eol ++ s)) c)
      ≡ parse_text state line (at (mark before line) s c)
unfolding next_turn
next_turn-line state before line s c e ne h =
    ap (λ (k : CheckState). next_turn_in k line_ok (at before (line ++ (eol ++ s)) c)) e
    ∙ next_turn_in-line state before line s c e ne h
