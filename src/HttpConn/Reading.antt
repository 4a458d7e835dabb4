-- ===== src/HttpConn/Reading.antt =====
-- `http_conn::read_once`, `parse_line`, `parse_content` and the loop of `process_read`. Log output
-- is left out.
use cpp_url_shortener.HttpConn.State.{
  HttpConn, HttpCode, no_request, get_request, bad_request, request_entity_too_large, LineStatus,
  line_ok, line_bad, line_open, CheckState, check_state_requestline, check_state_header,
  check_state_content, read_buffer_size, read_idx,
}
use cpp_url_shortener.HttpConn.RequestLine.{parse_request_line}
use cpp_url_shortener.HttpConn.Headers.{parse_headers}
use cpp_url_shortener.Common.{
  ℕ, zero, suc, ◌+◌, ◌-◌, ◌*◌, Bool, true, false, ◌&&◌, Option, none, some, List, [], ◌∷◌, ◌++◌,
  ltb, leb, ◌==◌, if◌then◌else◌, length, get_or, set, take, drop, Bytes,
}

-- The results of one `recv`: bytes (at least one), a peer that has closed, nothing to read now, or
-- an error.
pub data Recv : Type 0 where
  received : Bytes → Recv
  closed would_block failed : Recv

-- `recv` is asked for the room that is left, and gives no more.
unfoldable pub append_received : Bytes → HttpConn → HttpConn
append_received bytes c = record c {
  read_buf = c.read_buf ++ take (read_buffer_size - read_idx c) bytes;
}

-- The loop of the edge-triggered mode; it is left when the buffer is full. `got` is `got_data`. Where
-- the list ends the call has not returned.
unfoldable pub read_edge : List Recv → Bool → HttpConn → Option (Bool × HttpConn)
read_edge [] got c = if leb read_buffer_size (read_idx c) then some (true, c) else none
read_edge (r ∷ rs) got c = if leb read_buffer_size (read_idx c) then some (true, c) else elim r [
  | received bytes ↦ read_edge rs true (append_received bytes c)
  | closed ↦ some (got, c)
  | would_block ↦ some (got, c)
  | failed ↦ some (false, c)
]

unfoldable pub read_level : Recv → HttpConn → Bool × HttpConn
read_level (received bytes) c = (true, append_received bytes c)
read_level closed c = (false, c)
read_level would_block c = (false, c)
read_level failed c = (false, c)

unfoldable pub read_once : List Recv → HttpConn → Option (Bool × HttpConn)
read_once rs c =
    if leb read_buffer_size (read_idx c)
    then some (true, c)
    else if c.trig_mode == 0
    then elim rs [ [] ↦ none | r ∷ rest ↦ some (read_level r c) ]
    else read_edge rs false c

-- The loop of `parse_line`: the bytes from the cursor on, the cursor and the buffer.
unfoldable pub parse_line_from : Bytes → ℕ → Bytes → LineStatus × ℕ × Bytes
parse_line_from [] i buf = (line_open, i, buf)
parse_line_from (c ∷ rest) i buf =
    let next = parse_line_from rest (suc i) buf in
    if c == 13
    then if i + 1 == length buf
      then (line_open, i, buf)
      else if get_or buf (i + 1) 0 == 10
      then (line_ok, i + 2, set (set buf i 0) (i + 1) 0)
      else (line_bad, i, buf)
    else if c == 10
    then if ltb 1 i && get_or buf (i - 1) 0 == 13
      then (line_ok, i + 1, set (set buf (i - 1) 0) i 0)
      else (line_bad, i, buf)
    else next

unfoldable pub parse_line : HttpConn → LineStatus × HttpConn
parse_line c =
    let (status, i, buf) =
      parse_line_from (drop c.checked_idx c.read_buf) c.checked_idx c.read_buf in
    (status, record c { checked_idx = i; read_buf = buf })

-- The C string at the head of the bytes.
unfoldable pub c_string : Bytes → Bytes
c_string [] = []
c_string (c ∷ text) = elim (c == 0) [ true ↦ [] | false ↦ c ∷ c_string text ]

-- `text` is the buffer from the line's start on.
unfoldable pub parse_content : Bytes → HttpConn → HttpCode × HttpConn
parse_content text c =
    if leb (c.content_length + c.checked_idx) (read_idx c)
    then (
      get_request,
      record c {
        request = record c.request { body = take c.content_length text };
        checked_idx = c.checked_idx + c.content_length;
      },
    )
    else (no_request, c)

-- A turn of the loop ends the call, or starts the next turn with a line status.
pub data Turn : Type 0 where
  done : HttpCode → HttpConn → Turn
  again : LineStatus → HttpConn → Turn

unfoldable pub after_request_line : HttpCode × HttpConn → Turn
after_request_line (bad_request, c) = done bad_request c
after_request_line (code, c) = again line_ok c

unfoldable pub after_headers : HttpCode × HttpConn → Turn
after_headers (no_request, c) = again line_ok c
after_headers (code, c) = done code c

unfoldable pub after_content : HttpCode × HttpConn → Turn
after_content (get_request, c) = done get_request c
after_content (code, c) = again line_open c

-- The body of the loop, in the check state given.
unfoldable pub read_turn_in : CheckState → HttpConn → Turn
read_turn_in state c =
    let text = drop c.start_line c.read_buf in
    let next = record c { start_line = c.checked_idx } in
    elim state [
      | check_state_requestline ↦ after_request_line (parse_request_line (c_string text) next)
      | check_state_header ↦ after_headers (parse_headers (c_string text) next)
      | check_state_content ↦ after_content (parse_content text next)
    ]

unfoldable pub read_turn : HttpConn → Turn
read_turn c = read_turn_in c.check_state c

-- Behind the loop.
unfoldable pub incomplete : LineStatus → HttpConn → HttpCode
incomplete line_bad c = bad_request
incomplete status c =
    if leb read_buffer_size (read_idx c) then request_entity_too_large else no_request

unfoldable pub after_line : LineStatus × HttpConn → Turn
after_line (line_ok, c) = read_turn c
after_line (status, c) = done (incomplete status c) c

-- The condition of the loop, and its body where that holds.
unfoldable pub next_turn_in : CheckState → LineStatus → HttpConn → Turn
next_turn_in check_state_content line_ok c = read_turn c
next_turn_in state status c = after_line (parse_line c)

unfoldable pub next_turn : LineStatus → HttpConn → Turn
next_turn status c = next_turn_in c.check_state status c

-- The loop from a turn on. None where the fuel is used up, which `process_read` does not meet.
unfoldable pub process_read_loop : ℕ → Turn → Option (HttpCode × HttpConn)
process_read_loop fuel (done code c) = some (code, c)
process_read_loop zero (again status c) = none
process_read_loop (suc fuel) (again status c) = process_read_loop fuel (next_turn status c)

unfoldable pub process_read : HttpConn → Option (HttpCode × HttpConn)
process_read c = process_read_loop (2 * read_idx c + 2) (again line_ok c)
