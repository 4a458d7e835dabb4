-- ===== src/HttpConn/Tests.antt =====
-- Runs of a connection's slot, and its theorems at concrete requests.
use cpp_url_shortener.Response.{new_response, status_text, serialize, header_lines}
use cpp_url_shortener.Response.Lines.{length_line}
use cpp_url_shortener.HttpConn.Writing
use cpp_url_shortener.HttpConn.Writing.{
  process_write, fill_buffer, write, unsent, write_loop, advance, wrote, interrupted, Written,
  finish_write, Writev,
}
use cpp_url_shortener.HttpConn.Steps.{
  SlotOp, inits, invalidates, parses, reads, slot_run, slot_step, after_parse, after_read,
  after_write,
}
use cpp_url_shortener.HttpConn.Slots.{InBounds, slot_run-InBounds}
use cpp_url_shortener.HttpConn.Cursor.{Within}
use cpp_url_shortener.HttpConn.Termination.{process_read-returns}
use cpp_url_shortener.HttpConn.Generations.{turnover, turnovers}
use cpp_url_shortener.HttpConn.Sending.{write_calls-process_write, write_calls}
use cpp_url_shortener.HttpConn.Finishing.{write-Finishes, taken_by, Finishes}
use cpp_url_shortener.HttpConn.Lines.{eol}
use cpp_url_shortener.HttpConn.HeaderLines.{is_special, enter}
use cpp_url_shortener.HttpConn.Requests.{request_text, parsed_request}
use cpp_url_shortener.HttpConn.SplitBody.{skipped, process_read-split_body}
use cpp_url_shortener.Protocol.{
  strcasecmp_eq, strncasecmp_eq, parse_content_length, is_unsupported_body_encoding_header,
  to_lower, scan_digits,
}
use cpp_url_shortener.HttpConn.State.{
  HttpConn, HttpCode, no_request, get_request, check_state_content, epollout, reset, new_conn, init,
  invalidate, generation_matches, has_pipelined_input, arm_epoll_if_current, retain_pipelined_bytes,
  reject_overload,
}
use cpp_url_shortener.HttpConn.RequestLine.{
  accept_line, parse_request_line, request_line_parts, skip_blanks, break_at, method_name,
  from_slash, with_name, check_version, check_method, check_parts, set_parts, skip_authority,
  request_target, set_target,
}
use cpp_url_shortener.HttpConn.Headers.{
  parse_headers, set_request_header, end_headers, connection_header, set_length, colon_header,
  length_header, other_header,
}
use cpp_url_shortener.HttpConn.Reading.{
  parse_line_from, parse_line, parse_content, c_string, after_request_line, after_headers,
  after_content, read_turn_in, read_turn, incomplete, after_line, next_turn_in, next_turn,
  process_read_loop, process_read, received, append_received, read_edge, read_level, read_once,
}
use cpp_url_shortener.Common.{
  ◌≡◌, refl, true, Option, none, some, List, [], ◌∷◌, ◌++◌, arith, Bytes, codes, insert, to_string,
}

program : Unit {0}
unfolding reset init invalidate generation_matches has_pipelined_input arm_epoll_if_current
    retain_pipelined_bytes reject_overload skip_blanks break_at method_name from_slash
    skip_authority request_target with_name check_version check_method check_parts
    request_line_parts set_parts set_target accept_line parse_request_line set_request_header
    end_headers connection_header set_length length_header colon_header other_header parse_headers
    append_received read_edge read_level read_once parse_line_from parse_line c_string parse_content
    after_request_line after_headers after_content read_turn_in read_turn incomplete after_line
    next_turn_in next_turn process_read_loop process_read strcasecmp_eq strncasecmp_eq to_lower
    parse_content_length scan_digits is_unsupported_body_encoding_header to_string insert
    header_lines length_line request_text parsed_request enter is_special turnovers turnover unsent
    taken_by advance slot_run slot_step after_parse after_read after_write
program = tt

abbrev received_text : Bytes → HttpConn
received_text text = record (reset new_conn) { read_buf = text }

abbrev code_of : Option (HttpCode × HttpConn) → Option HttpCode
code_of none = none
code_of (some (code, c)) = some code

get_text : Bytes
get_text =
    codes "get /a?b HTTP/1.1"
    ++ (eol ++ (codes "Connection: close" ++ (eol ++ (eol ++ codes "GET"))))

parses_get : code_of (process_read (received_text get_text)) ≡ some get_request
unfolding program get_text
parses_get = refl

absolute : request_target (codes "http://h/x") ≡ some (codes "/x")
unfolding program
absolute = refl

no_path : request_target (codes "http://h") ≡ none
unfolding program
no_path = refl

abbrev fields : List (Bytes × Bytes)
fields = (codes "A", codes "b") ∷ []

process_read-returns_example :
    (code : HttpCode) × (after : HttpConn) × (process_read (received_text get_text)
      ≡ some (code, after))
    × Within (received_text get_text) after
unfolding reset
process_read-returns_example =
    process_read-returns (received_text get_text) (omega arith) (omega arith)

fresh-InBounds : InBounds new_conn
fresh-InBounds = record { line = omega arith; upto = omega arith; fits = omega arith }

abbrev ops : List SlotOp
ops = inits 7 1 ∷ reads (received (codes "GET / HTTP/1.1") ∷ []) ∷ parses ∷ invalidates ∷ []

slot_run-InBounds_example : InBounds (slot_run ops new_conn)
slot_run-InBounds_example = slot_run-InBounds ops new_conn fresh-InBounds

abbrev sending : HttpConn
sending = record new_conn { write_buf = codes "HTTP"; iov_len = 4; bytes_to_send = 4 }

abbrev after_two : HttpConn
after_two = record sending { iov_base = 2; iov_len = 2; bytes_have_send = 2; bytes_to_send = 2 }

abbrev halfway : Written
halfway = record { result = true; conn = after_two; sent = codes "HT"; armed = some epollout }

stopped : write (wrote 2 ∷ Writing.would_block ∷ []) sending ≡ some halfway
unfolding write write_loop advance unsent
stopped = refl

abbrev filled : HttpConn
filled = fill_buffer (serialize new_response) new_conn

abbrev two_sent : HttpConn
two_sent = advance 2 filled

write_calls-process_write_example : codes "HT" ++ unsent two_sent ≡ serialize new_response
unfolding write_calls write write_loop advance unsent process_write fill_buffer serialize
    header_lines to_string status_text
write_calls-process_write_example =
    write_calls-process_write ((wrote 2 ∷ Writing.would_block ∷ []) ∷ []) new_response new_conn
      filled two_sent (codes "HT") refl refl refl

write-Finishes_example :
    (w : Written) × (write (wrote 2 ∷ interrupted ∷ wrote 2 ∷ []) sending ≡ some w)
    × Finishes sending [] w
unfolding taken_by
write-Finishes_example =
    write-Finishes (wrote 2 ∷ interrupted ∷ wrote 2 ∷ []) sending refl (omega arith)
      (refl, (refl, (refl, tt))) (omega arith) (record { base = refl; len = refl })

abbrev body_slot : HttpConn
body_slot = record new_conn {
  read_buf = codes "..{";
  checked_idx = 2;
  start_line = 2;
  check_state = check_state_content;
  content_length = 2;
}

process_read-split_body_example :
    (process_read body_slot ≡ some (no_request, skipped body_slot))
    × (process_read (append_received (codes "}") (skipped body_slot))
        ≡ some (no_request, skipped (append_received (codes "}") (skipped body_slot))))
process_read-split_body_example =
    process_read-split_body (codes "..") (codes "{") (codes "}") body_slot refl refl refl refl
      (omega arith) (omega arith) (omega arith) (omega arith) (omega arith)
