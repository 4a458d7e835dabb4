-- ===== src/HttpConn/Slots.antt =====
-- The read buffer of a slot through every sequence of its operations.
use cpp_url_shortener.HttpConn.Termination.{process_read-returns}
use cpp_url_shortener.HttpConn.Writing.{advance, fill_buffer}
use cpp_url_shortener.HttpConn.State.{
  HttpConn, read_buffer_size, read_idx, reset, init, invalidate, retain_pipelined_bytes,
}
use cpp_url_shortener.HttpConn.Reading.{process_read, append_received}
use cpp_url_shortener.Common.{
  ℕ, ◌-◌, ◌≤◌, Bool, List, [], ◌∷◌, arith, take, length-append, Bytes, length-drop, length-take,
}
use cpp_url_shortener.HttpConn.Steps.{
  SlotOp, inits, invalidates, parses, reads, works, writes, after_parse, slot_step, slot_run,
  AfterRead, AfterWrite, read_once-keeps, write-keeps, answer_step-keeps,
}

-- The line's start and the cursor stand in the text received, which fits the buffer.
pub record InBounds (c : HttpConn) : Type 0 where
  pub line : c.start_line ≤ c.checked_idx
  pub upto : c.checked_idx ≤ read_idx c
  pub fits : read_idx c ≤ read_buffer_size

append_received-InBounds :
    (bytes : Bytes) (c : HttpConn) → InBounds c → InBounds (append_received bytes c)
unfolding append_received
append_received-InBounds bytes c v =
    let room = length-take (read_buffer_size - read_idx c) bytes in
    let grown = length-append c.read_buf (take (read_buffer_size - read_idx c) bytes) in
    let u = v.upto in
    let f = v.fits in record { line = v.line; upto = omega arith; fits = omega arith }

retain-InBounds : (c : HttpConn) → InBounds c → InBounds (retain_pipelined_bytes c)
unfolding retain_pipelined_bytes reset
retain-InBounds c v =
    let left = length-drop c.checked_idx c.read_buf in
    let f = v.fits in record { line = omega arith; upto = omega arith; fits = omega arith }

advance-InBounds : (n : ℕ) (c : HttpConn) → InBounds c → InBounds (advance n c)
unfolding advance
advance-InBounds n c v = record { line = v.line; upto = v.upto; fits = v.fits }

closes-InBounds : (b : Bool) (c : HttpConn) → InBounds c → InBounds (record c { pending_close = b })
closes-InBounds b c v = record { line = v.line; upto = v.upto; fits = v.fits }

buffers-InBounds : (raw : Bytes) (c : HttpConn) → InBounds c → InBounds (fill_buffer raw c)
unfolding fill_buffer
buffers-InBounds raw c v = record { line = v.line; upto = v.upto; fits = v.fits }

process_read-InBounds : (c : HttpConn) → InBounds c → InBounds (after_parse c (process_read c))
unfolding after_parse
process_read-InBounds c v =
    let (code, after, e, w) = process_read-returns c v.line v.upto in
    let wl = w.len in
    let wu = w.upto in
    let f = v.fits in
    rw (e, after_parse) (record { line = w.line; upto = omega arith; fits = omega arith })

pub slot_step-InBounds : (op : SlotOp) (c : HttpConn) → InBounds c → InBounds (slot_step op c)
unfolding slot_step init invalidate reset
slot_step-InBounds (inits fd mode) c v = record {
  line = omega arith;
  upto = omega arith;
  fits = omega arith;
}
slot_step-InBounds invalidates c v = record { line = v.line; upto = v.upto; fits = v.fits }
slot_step-InBounds parses c v = process_read-InBounds c v
slot_step-InBounds (reads rs) c v =
    unfold AfterRead in
    read_once-keeps InBounds append_received-InBounds advance-InBounds retain-InBounds
      closes-InBounds buffers-InBounds rs c v
slot_step-InBounds (works expected stage) c v =
    answer_step-keeps InBounds append_received-InBounds advance-InBounds retain-InBounds
      closes-InBounds buffers-InBounds expected stage c v
slot_step-InBounds (writes rs) c v =
    unfold AfterWrite in
    write-keeps InBounds append_received-InBounds advance-InBounds retain-InBounds closes-InBounds
      buffers-InBounds rs c v

-- From a slot in bounds, such as a fresh one, every sequence of accepts, reads, parses, stages
-- of answers, writes and closes keeps the line's start and the cursor within the bytes received, and these
-- within the buffer.
pub slot_run-InBounds : (ops : List SlotOp) (c : HttpConn) → InBounds c → InBounds (slot_run ops c)
unfolding slot_run
slot_run-InBounds [] c v = v
slot_run-InBounds (op ∷ ops) c v =
    slot_run-InBounds ops (slot_step op c) (slot_step-InBounds op c v)
