-- ===== src/HttpConn/SplitBody.antt =====
-- A body that does not arrive in one piece.
use mathlib.Core.Path.{subst, ap₂}
use cpp_url_shortener.HttpConn.State.{
  HttpConn, HttpCode, no_request, LineStatus, line_ok, line_open, CheckState, check_state_content,
  read_buffer_size, read_idx,
}
use cpp_url_shortener.HttpConn.Reading.{
  parse_line_from, parse_line, parse_content, done, again, after_content, read_turn_in, read_turn,
  incomplete, after_line, next_turn_in, next_turn, process_read_loop, process_read, append_received,
}
use cpp_url_shortener.Common.{
  ℕ, suc, ◌+◌, ◌-◌, ◌*◌, ◌≤◌, ◌<◌, ◌≡◌, refl, sym, ap, ◌∙◌, ◌≢◌, false, some, [], ◌∷◌, ◌++◌, arith,
  leb, ◌==◌, length, take, drop, All, length-append, drop-length-append, Bytes, length-drop,
  take-all,
}

-- No end of line.
abbrev pub IsPlain : ℕ → Type 0
IsPlain c = (c ≢ 13) × (c ≢ 10)

parse_line_from-plain :
    (rest : Bytes) (i : ℕ) (buf : Bytes)
    → All IsPlain rest
    → parse_line_from rest i buf ≡ (line_open, i + length rest, buf)
unfolding parse_line_from
parse_line_from-plain [] i buf h =
    let e : i ≡ i + 0 = omega arith in ap (λ (j : ℕ). (line_open, j, buf)) e
parse_line_from-plain (c ∷ rest) i buf h =
    let ncr : (c == 13) ≡ false = (let n = h.0.0 in ground arith) in
    let nlf : (c == 10) ≡ false = (let n = h.0.1 in ground arith) in
    let e : suc i + length rest ≡ i + suc (length rest) = omega arith in
    rw (ncr, nlf)
      (parse_line_from-plain rest (suc i) buf h.1 ∙ ap (λ (j : ℕ). (line_open, j, buf)) e)

-- The slot after a part of a body was read.
abbrev pub skipped : HttpConn → HttpConn
skipped c = record c { start_line = c.checked_idx; checked_idx = read_idx c }

waiting_turn :
    (c : HttpConn)
    → c.check_state ≡ check_state_content
    → read_idx c < c.content_length + c.checked_idx
    → next_turn line_ok c ≡ again line_open (record c { start_line = c.checked_idx })
unfolding next_turn next_turn_in read_turn read_turn_in parse_content after_content
waiting_turn c e part =
    let short : leb (c.content_length + c.checked_idx) (read_idx c) ≡ false = ground arith in
    ap (λ (k : CheckState). next_turn_in k line_ok c) e
    ∙ (ap (λ (k : CheckState). read_turn_in k c) e ∙ rw short refl)

scanning_turn :
    (c : HttpConn)
    → c.check_state ≡ check_state_content
    → c.checked_idx ≤ read_idx c
    → read_idx c < read_buffer_size
    → All IsPlain (drop c.checked_idx c.read_buf)
    → next_turn line_open c ≡ done no_request (record c { checked_idx = read_idx c })
unfolding next_turn next_turn_in after_line parse_line incomplete
scanning_turn c e le room plain =
    let rest = drop c.checked_idx c.read_buf in
    let end : c.checked_idx + length rest ≡ read_idx c =
      omega (arith, length-drop c.checked_idx c.read_buf) in
    let scan =
      parse_line_from-plain rest c.checked_idx c.read_buf plain
      ∙ ap (λ (j : ℕ). (line_open, j, c.read_buf)) end in
    let open_end : leb read_buffer_size (read_idx c) ≡ false = ground arith in
    let outcome : incomplete line_open (record c { checked_idx = read_idx c }) ≡ no_request =
      rw open_end refl in
    ap (λ (k : CheckState). next_turn_in k line_open c) e
    ∙ (ap
          (λ (r : LineStatus × ℕ × Bytes).
            after_line (r.0, record c { checked_idx = r.1; read_buf = r.2 }))
          scan
        ∙ ap (λ (code : HttpCode). done code (record c { checked_idx = read_idx c })) outcome)

process_read_skips :
    (c : HttpConn)
    → c.check_state ≡ check_state_content
    → c.checked_idx ≤ read_idx c
    → read_idx c < c.content_length + c.checked_idx
    → read_idx c < read_buffer_size
    → All IsPlain (drop c.checked_idx c.read_buf)
    → process_read c ≡ some (no_request, skipped c)
unfolding process_read process_read_loop
process_read_skips c e le part room plain =
    let turns : 2 * read_idx c + 2 ≡ suc (suc (2 * read_idx c)) = omega arith in
    let waiting = record c { start_line = c.checked_idx } in
    ap (λ (n : ℕ). process_read_loop n (again line_ok c)) turns
    ∙ (ap (process_read_loop (suc (2 * read_idx c))) (waiting_turn c e part)
        ∙ ap (process_read_loop (2 * read_idx c)) (scanning_turn waiting e le room plain))

-- When a front part of a body has come, not empty, the parser moves its cursor over it while it
-- looks for the end of a line; and when all the rest has come, it still waits for as many bytes as
-- the whole body has, from that cursor on. (For a body without line ends, with room in the buffer.)
pub process_read-split_body :
    (before front rest : Bytes) (c : HttpConn)
    → c.check_state ≡ check_state_content
    → c.read_buf ≡ before ++ front
    → c.checked_idx ≡ length before
    → c.content_length ≡ length front + length rest
    → 0 < length front
    → 0 < length rest
    → length before + c.content_length < read_buffer_size
    → All IsPlain front
    → All IsPlain rest
    → (process_read c ≡ some (no_request, skipped c))
      × (process_read (append_received rest (skipped c))
          ≡ some (no_request, skipped (append_received rest (skipped c))))
unfolding append_received
process_read-split_body before front rest c e buf checked n h1 h2 room plain_front plain_rest =
    let len : read_idx c ≡ length before + length front =
      omega (arith, ap length buf, length-append before front) in
    let left : drop c.checked_idx c.read_buf ≡ front =
      ap₂ (λ (k : ℕ) (b : Bytes). drop k b) checked buf ∙ drop-length-append before front in
    let grown : c.read_buf ++ take (read_buffer_size - read_idx c) rest ≡ c.read_buf ++ rest =
      ap (◌++◌ c.read_buf) (take-all (read_buffer_size - read_idx c) rest (omega arith)) in
    let longer : length (c.read_buf ++ take (read_buffer_size - read_idx c) rest)
        ≡ read_idx c + length rest =
      ap length grown ∙ length-append c.read_buf rest in
    let behind : drop (read_idx c) (c.read_buf ++ take (read_buffer_size - read_idx c) rest)
        ≡ rest =
      ap (drop (read_idx c)) grown ∙ drop-length-append c.read_buf rest in
    (
      process_read_skips c e (omega arith) (omega arith) (omega arith)
          (subst (All IsPlain) (sym left) plain_front),
      process_read_skips (append_received rest (skipped c)) e (omega arith) (omega arith)
          (omega arith) (subst (All IsPlain) (sym behind) plain_rest),
    )
