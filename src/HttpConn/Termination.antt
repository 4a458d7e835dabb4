-- ===== src/HttpConn/Termination.antt =====
-- The loop of `process_read` comes to an end.
use mathlib.Core.Path.{subst}
use cpp_url_shortener.HttpConn.Cursor.{
  Line, Within, TurnWithin, at_line, parse_content-Within, read_turn_in-Within,
  after_content-Within, TurnWithin-trans, parse_line_from-Line,
}
use cpp_url_shortener.HttpConn.State.{
  HttpConn, HttpCode, no_request, get_request, bad_request, request_entity_too_large, LineStatus,
  line_ok, line_bad, line_open, CheckState, check_state_requestline, check_state_header,
  check_state_content, read_idx,
}
use cpp_url_shortener.HttpConn.Reading.{
  parse_line, Turn, done, again, after_content, read_turn_in, read_turn, after_line, next_turn_in,
  next_turn, process_read_loop, process_read,
}
use cpp_url_shortener.Common.{
  ℕ, zero, suc, ◌+◌, ◌-◌, ◌*◌, ◌≤◌, ◌<◌, ◌≡◌, refl, sym, Option, some, arith, drop, Bytes,
  length-drop,
}

-- The turns that the loop still has before it.
weight : LineStatus → HttpConn → ℕ
weight line_ok c = 2 * (read_idx c - c.checked_idx) + 2
weight status c = 2 * (read_idx c - c.checked_idx) + 1

Shrinks : ℕ → Turn → Type 0
Shrinks n (done code after) = Unit {0}
Shrinks n (again status after) = weight status after < n

weight_le :
    (status : LineStatus) (c : HttpConn) → weight status c ≤ 2 * (read_idx c - c.checked_idx) + 2
unfolding weight
weight_le line_ok c = omega arith
weight_le line_bad c = omega arith
weight_le line_open c = omega arith

weight_ge :
    (status : LineStatus) (c : HttpConn) → 2 * (read_idx c - c.checked_idx) + 1 ≤ weight status c
unfolding weight
weight_ge line_ok c = omega arith
weight_ge line_bad c = omega arith
weight_ge line_open c = omega arith

Shrinks-mono : (m n : ℕ) (t : Turn) → m ≤ n → Shrinks m t → Shrinks n t
unfolding Shrinks
Shrinks-mono m n (done code after) le s = tt
Shrinks-mono m n (again status after) le s = omega arith

-- A turn behind a line that was read.
TurnWithin-Shrinks :
    (c : HttpConn) (n : ℕ) (t : Turn)
    → 2 * (read_idx c - c.checked_idx) + 2 < n
    → TurnWithin c t
    → Shrinks n t
unfolding TurnWithin Shrinks
TurnWithin-Shrinks c n (done code after) lt w = tt
TurnWithin-Shrinks c n (again status after) lt w =
    let le = weight_le status after in let wl = w.len in let wf = w.from in omega arith

-- What holds of a turn of the loop.
TurnHolds : LineStatus → HttpConn → Turn → Type 0
TurnHolds status c t = TurnWithin c t × Shrinks (weight status c) t

after_content-Shrinks :
    (c : HttpConn) (r : HttpCode × HttpConn)
    → Within c r.1
    → Shrinks (weight line_ok c) (after_content r)
unfolding after_content Shrinks weight
after_content-Shrinks c (get_request, after) w = tt
after_content-Shrinks c (no_request, after) w = let wl = w.len in let wf = w.from in omega arith
after_content-Shrinks c (bad_request, after) w = let wl = w.len in let wf = w.from in omega arith
after_content-Shrinks c (request_entity_too_large, after) w =
    let wl = w.len in let wf = w.from in omega arith

-- `parse_line`'s result, in its parts.
after_line-holds :
    (s : LineStatus) (c : HttpConn) (r : LineStatus × ℕ × Bytes)
    → Line c.checked_idx c.read_buf r
    → c.start_line ≤ c.checked_idx
    → TurnHolds s c (after_line (r.0, record c { checked_idx = r.1; read_buf = r.2 }))
unfolding after_line TurnHolds TurnWithin Shrinks read_turn
after_line-holds s c (line_ok, i, buf) l start =
    let next : HttpConn = record c { checked_idx = i; read_buf = buf } in
    let ll = l.len in
    let lf = l.from in
    let lu = l.upto in
    let lm = l.moves refl in
    let ge = weight_ge s c in
    let moved : Within c next = record {
      len = l.len;
      line = omega arith;
      from = l.from;
      upto = l.upto;
      same = refl;
    } in
    let w = read_turn_in-Within next.check_state next (omega arith) in
    (TurnWithin-trans c next _ moved w, TurnWithin-Shrinks next _ _ (omega arith) w)
after_line-holds s c (line_bad, i, buf) l start = (
  record {
    len = l.len;
    line = (let f = l.from in omega arith);
    from = l.from;
    upto = l.upto;
    same = refl;
  },
  tt,
)
after_line-holds s c (line_open, i, buf) l start = (
  record {
    len = l.len;
    line = (let f = l.from in omega arith);
    from = l.from;
    upto = l.upto;
    same = refl;
  },
  tt,
)

parse_line-holds :
    (s : LineStatus) (c : HttpConn)
    → c.start_line ≤ c.checked_idx
    → c.checked_idx ≤ read_idx c
    → TurnHolds s c (after_line (parse_line c))
unfolding parse_line
parse_line-holds s c start le =
    after_line-holds s c _
      (parse_line_from-Line (drop c.checked_idx c.read_buf) c.checked_idx c.read_buf
        (let d = length-drop c.checked_idx c.read_buf in omega arith))
      start

content_turn-holds :
    (c : HttpConn)
    → c.checked_idx ≤ read_idx c
    → TurnHolds line_ok c (read_turn_in check_state_content c)
unfolding TurnHolds read_turn_in at_line
content_turn-holds c le =
    let w = parse_content-Within (drop c.start_line c.read_buf) c le in
    (after_content-Within c _ w, after_content-Shrinks c _ w)

next_turn_in-holds :
    (state : CheckState) (s : LineStatus) (c : HttpConn)
    → c.check_state ≡ state
    → c.start_line ≤ c.checked_idx
    → c.checked_idx ≤ read_idx c
    → TurnHolds s c (next_turn_in state s c)
unfolding next_turn_in read_turn
next_turn_in-holds check_state_content line_ok c e start le =
    subst (λ (state : CheckState). TurnHolds line_ok c (read_turn_in state c)) (sym e)
      (content_turn-holds c le)
next_turn_in-holds check_state_content line_bad c e start le = parse_line-holds line_bad c start le
next_turn_in-holds check_state_content line_open c e start le =
    parse_line-holds line_open c start le
next_turn_in-holds check_state_requestline s c e start le = parse_line-holds s c start le
next_turn_in-holds check_state_header s c e start le = parse_line-holds s c start le

next_turn-holds :
    (s : LineStatus) (c : HttpConn)
    → c.start_line ≤ c.checked_idx
    → c.checked_idx ≤ read_idx c
    → TurnHolds s c (next_turn s c)
unfolding next_turn
next_turn-holds s c start le = next_turn_in-holds c.check_state s c refl start le

Returned : HttpConn → Option (HttpCode × HttpConn) → Type 0
Returned c o = (code : HttpCode) × (after : HttpConn) × (o ≡ some (code, after)) × Within c after

process_read_loop-returns :
    (fuel : ℕ) (c : HttpConn) (t : Turn)
    → TurnWithin c t
    → Shrinks (suc fuel) t
    → c.checked_idx ≤ read_idx c
    → Returned c (process_read_loop fuel t)
unfolding process_read_loop Returned TurnWithin Shrinks TurnHolds
process_read_loop-returns fuel c (done code after) w shrinks le = (code, after, refl, w)
process_read_loop-returns zero c (again s after) w shrinks le =
    absurd (let positive = weight_ge s after in omega arith)
process_read_loop-returns (suc fuel) c (again s after) w shrinks le =
    let wl = w.len in
    let wu = w.upto in
    let (inside, less) = next_turn-holds s after w.line (omega arith) in
    process_read_loop-returns fuel c (next_turn s after) (TurnWithin-trans c after _ w inside)
      (Shrinks-mono _ _ (next_turn s after) (omega arith) less) le

-- On a buffer with the line's start and the cursor in bounds, the parser comes to a result; the
-- buffer keeps its length, the cursor does not go back, and both stay in bounds.
pub process_read-returns :
    (c : HttpConn)
    → c.start_line ≤ c.checked_idx
    → c.checked_idx ≤ read_idx c
    → (code : HttpCode) × (after : HttpConn) × (process_read c ≡ some (code, after))
      × Within c after
unfolding process_read Returned weight TurnWithin Shrinks
process_read-returns c start le =
    process_read_loop-returns (2 * read_idx c + 2) c (again line_ok c)
      (record { len = refl; line = start; from = omega arith; upto = le; same = refl })
      (omega arith) le
