-- ===== src/HttpConn/Headers.antt =====
-- `http_conn::parse_headers`.
use cpp_url_shortener.Protocol.{
  strcasecmp_eq, strncasecmp_eq, parse_content_length, is_unsupported_body_encoding_header,
}
use cpp_url_shortener.HttpConn.State.{
  HttpConn, HttpCode, no_request, get_request, bad_request, request_entity_too_large,
  check_state_content, read_buffer_size,
}
use cpp_url_shortener.HttpConn.RequestLine.{skip_blanks, break_at}
use cpp_url_shortener.Common.{
  ℕ, ◌+◌, true, false, not, Option, none, some, [], ◌∷◌, leb, ◌==◌, if◌then◌else◌, drop, Bytes,
  codes, insert,
}

unfoldable pub set_request_header : Bytes → Bytes → HttpConn → HttpConn
set_request_header key val c = record c {
  request = record c.request { headers = insert key val c.request.headers };
}

-- The empty line.
unfoldable pub end_headers : HttpConn → HttpCode × HttpConn
end_headers c =
    if not (c.content_length == 0)
    then if leb read_buffer_size (c.checked_idx + c.content_length)
      then (request_entity_too_large, c)
      else (no_request, record c { check_state = check_state_content })
    else (get_request, c)

unfoldable pub connection_header : Bytes → HttpConn → HttpCode × HttpConn
connection_header val c = (
  no_request,
  set_request_header (codes "Connection") val (record c {
    linger =
        if strcasecmp_eq val (codes "keep-alive")
        then true
        else if strcasecmp_eq val (codes "close")
        then false
        else c.linger;
  }),
)

unfoldable pub set_length : Bytes → Option ℕ → HttpConn → HttpCode × HttpConn
set_length val none c = (bad_request, c)
set_length val (some n) c = if leb read_buffer_size n then (request_entity_too_large, c) else (
  no_request,
  set_request_header (codes "Content-Length") val (record c { content_length = n }),
)

unfoldable pub length_header : Bytes → HttpConn → HttpCode × HttpConn
length_header val c = set_length val (parse_content_length val) c

-- A line at its colon.
unfoldable pub colon_header : Option (Bytes × Bytes) → HttpConn → HttpCode × HttpConn
colon_header none c = (no_request, c)
colon_header (some (key, rest)) c = (no_request, set_request_header key (skip_blanks rest) c)

unfoldable pub other_header : Bytes → HttpConn → HttpCode × HttpConn
other_header text c = colon_header (break_at (λ d. d == b':') text) c

unfoldable pub parse_headers : Bytes → HttpConn → HttpCode × HttpConn
parse_headers [] c = end_headers c
parse_headers (d ∷ line) c =
    let text = d ∷ line in
    if strncasecmp_eq text (codes "Connection:")
    then connection_header (skip_blanks (drop 11 text)) c
    else if strncasecmp_eq text (codes "Content-length:")
    then length_header (skip_blanks (drop 15 text)) c
    else if is_unsupported_body_encoding_header text
    then (bad_request, c)
    else if strncasecmp_eq text (codes "Host:")
    then (no_request, set_request_header (codes "Host") (skip_blanks (drop 5 text)) c)
    else other_header text c
