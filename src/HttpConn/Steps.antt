-- ===== src/HttpConn/Steps.antt =====
-- The operations of a slot as one step, and what it takes for a predicate to be kept by those that
-- read and write.
use cpp_url_shortener.Response.{serialize}
use cpp_url_shortener.HttpConn.Writing.{
  process_write, fill_buffer, Writev, Written, write, write_loop, advance, finish_write, unsent,
  wrote, interrupted,
}
use cpp_url_shortener.HttpConn.Writing
use cpp_url_shortener.HttpConn.Reading
use cpp_url_shortener.HttpConn.Process
use cpp_url_shortener.HttpConn.Process.{
  Stage, checks, fills, checks_again, arms, modifies, ended, answer_step, after_process_write,
}
use cpp_url_shortener.HttpConn.State.{
  HttpConn, HttpCode, read_buffer_size, read_idx, write_buffer_size, init, invalidate,
  retain_pipelined_bytes,
}
use cpp_url_shortener.HttpConn.Reading.{
  parse_line_from, parse_line, parse_content, c_string, Turn, done, again, after_request_line,
  after_headers, after_content, read_turn_in, read_turn, incomplete, after_line, next_turn_in,
  next_turn, process_read_loop, process_read, Recv, received, append_received, read_edge,
  read_level, read_once,
}
use cpp_url_shortener.Common.{
  ℕ, Bool, true, false, Option, none, some, List, [], ◌∷◌, ◌++◌, leb, ◌==◌, length, take, Bytes,
  if-cases,
}

pub data SlotOp : Type 0 where
  inits : ℕ → ℕ → SlotOp
  invalidates parses : SlotOp
  reads : List Recv → SlotOp
  works : ℕ → Stage → SlotOp
  writes : List Writev → SlotOp

-- A call that does not return leaves the slot.
unfoldable pub after_read : HttpConn → Option (Bool × HttpConn) → HttpConn
after_read c none = c
after_read c (some (result, after)) = after

unfoldable pub after_parse : HttpConn → Option (HttpCode × HttpConn) → HttpConn
after_parse c none = c
after_parse c (some (code, after)) = after

unfoldable pub after_write : HttpConn → Option Written → HttpConn
after_write c none = c
after_write c (some w) = w.conn

unfoldable pub slot_step : SlotOp → HttpConn → HttpConn
slot_step (inits fd mode) c = init fd mode c
slot_step invalidates c = invalidate c
slot_step parses c = after_parse c (process_read c)
slot_step (reads rs) c = after_read c (read_once rs c)
slot_step (works expected stage) c = (answer_step expected stage c).1
slot_step (writes rs) c = after_write c (write rs c)

unfoldable pub slot_run : List SlotOp → HttpConn → HttpConn
slot_run [] c = c
slot_run (op ∷ ops) c = slot_run ops (slot_step op c)

module _ (P : HttpConn → Type 0)
    (append : (bytes : Bytes) (c : HttpConn) → P c → P (append_received bytes c))
    (adv : (n : ℕ) (c : HttpConn) → P c → P (advance n c))
    (retain : (c : HttpConn) → P c → P (retain_pipelined_bytes c))
    (closes : (b : Bool) (c : HttpConn) → P c → P (record c { pending_close = b }))
    (buffers : (raw : Bytes) (c : HttpConn) → P c → P (fill_buffer raw c)) where
  unfoldable pub AfterRead : HttpConn → Option (Bool × HttpConn) → Type 0
  AfterRead c o = P (after_read c o)

  AfterRead-some :
      (c d : HttpConn) (o : Option (Bool × HttpConn)) → P c → AfterRead d o → AfterRead c o
  unfolding AfterRead after_read
  AfterRead-some c d none v w = v
  AfterRead-some c d (some r) v w = w

  read_edge-keeps :
      (rs : List Recv) (got : Bool) (c : HttpConn) → P c → AfterRead c (read_edge rs got c)
  unfolding read_edge AfterRead after_read
  read_edge-keeps [] got c v =
      if-cases (AfterRead c) (leb read_buffer_size (read_idx c)) _ _ (λ full. v) (λ room. v)
  read_edge-keeps (received bytes ∷ rs) got c v =
      if-cases (AfterRead c) (leb read_buffer_size (read_idx c)) _ _ (λ full. v)
        (λ room.
          AfterRead-some c (append_received bytes c) (read_edge rs true (append_received bytes c)) v
            (read_edge-keeps rs true (append_received bytes c) (append bytes c v)))
  read_edge-keeps (Reading.closed ∷ rs) got c v =
      if-cases (AfterRead c) (leb read_buffer_size (read_idx c)) _ _ (λ full. v) (λ room. v)
  read_edge-keeps (Reading.would_block ∷ rs) got c v =
      if-cases (AfterRead c) (leb read_buffer_size (read_idx c)) _ _ (λ full. v) (λ room. v)
  read_edge-keeps (Reading.failed ∷ rs) got c v =
      if-cases (AfterRead c) (leb read_buffer_size (read_idx c)) _ _ (λ full. v) (λ room. v)

  read_level-keeps : (r : Recv) (c : HttpConn) → P c → P (read_level r c).1
  unfolding read_level
  read_level-keeps (received bytes) c v = append bytes c v
  read_level-keeps Reading.closed c v = v
  read_level-keeps Reading.would_block c v = v
  read_level-keeps Reading.failed c v = v

  pub read_once-keeps : (rs : List Recv) (c : HttpConn) → P c → AfterRead c (read_once rs c)
  unfolding read_once AfterRead after_read
  read_once-keeps [] c v =
      if-cases (AfterRead c) (leb read_buffer_size (read_idx c)) _ _ (λ full. v)
        (λ room.
          if-cases (AfterRead c) (c.trig_mode == 0) _ _ (λ level. v)
            (λ edge. read_edge-keeps [] false c v))
  read_once-keeps (r ∷ rs) c v =
      if-cases (AfterRead c) (leb read_buffer_size (read_idx c)) _ _ (λ full. v)
        (λ room.
          if-cases (AfterRead c) (c.trig_mode == 0) _ _ (λ level. read_level-keeps r c v)
            (λ edge. read_edge-keeps (r ∷ rs) false c v))

  unfoldable pub AfterWrite : HttpConn → Option Written → Type 0
  AfterWrite c o = P (after_write c o)

  AfterWrite-some : (c d : HttpConn) (o : Option Written) → P c → AfterWrite d o → AfterWrite c o
  unfolding AfterWrite after_write
  AfterWrite-some c d none v w = v
  AfterWrite-some c d (some r) v w = w

  finish_write-keeps : (sent : Bytes) (c : HttpConn) → P c → P (finish_write sent c).conn
  unfolding finish_write
  finish_write-keeps sent c v =
      if-cases (λ (w : Written). P w.conn) c.linger _ _ (λ keep. retain c v) (λ close. v)

  write_loop-keeps :
      (rs : List Writev) (sent : Bytes) (c : HttpConn) → P c → AfterWrite c (write_loop rs sent c)
  unfolding write_loop AfterWrite after_write
  write_loop-keeps [] sent c v = v
  write_loop-keeps (interrupted ∷ rs) sent c v = write_loop-keeps rs sent c v
  write_loop-keeps (Writing.would_block ∷ rs) sent c v = v
  write_loop-keeps (Writing.failed ∷ rs) sent c v = v
  write_loop-keeps (wrote n ∷ rs) sent c v =
      let moved = adv n c v in
      if-cases (AfterWrite c) (leb (advance n c).bytes_to_send 0) _ _
        (λ all. finish_write-keeps _ (advance n c) moved)
        (λ more.
          let taken = sent ++ take n (unsent c) in
          AfterWrite-some c (advance n c) (write_loop rs taken (advance n c)) v
            (write_loop-keeps rs taken (advance n c) moved))

  pub write-keeps : (rs : List Writev) (c : HttpConn) → P c → AfterWrite c (write rs c)
  unfolding write AfterWrite after_write
  write-keeps rs c v =
      if-cases (AfterWrite c) c.pending_close _ _ (λ closing. closes false c v)
        (λ open_.
          if-cases (AfterWrite c) (c.bytes_to_send == 0) _ _ (λ none_left. retain c v)
            (λ some_left. write_loop-keeps rs [] c v))

  pub answer_step-keeps :
      (expected : ℕ) (stage : Stage) (c : HttpConn) → P c → P (answer_step expected stage c).1
  unfolding answer_step process_write after_process_write
  answer_step-keeps expected (checks resp) c v = v
  answer_step-keeps expected (fills resp) c v =
      if-cases (λ (o : Option HttpConn). P (after_process_write o c).1)
        (leb write_buffer_size (length (serialize resp))) _ _ (λ large. v)
        (λ fits. buffers (serialize resp) c v)
  answer_step-keeps expected checks_again c v = v
  answer_step-keeps expected Process.closes c v = closes true c v
  answer_step-keeps expected (arms ev) c v = v
  answer_step-keeps expected (modifies ev) c v = v
  answer_step-keeps expected (ended ev) c v = v
