-- ===== src/HttpConn/RequestLine.antt =====
-- `http_conn::parse_request_line`, and the C string functions that it calls. The zero bytes that
-- it writes into the line stand before `m_start_line` and are not read again.
use cpp_url_shortener.Router.{HttpRequest}
use cpp_url_shortener.Protocol.{strcasecmp_eq, strncasecmp_eq}
use cpp_url_shortener.HttpConn.State.{
  HttpConn, HttpCode, no_request, bad_request, check_state_header,
}
use cpp_url_shortener.Common.{
  ℕ, Bool, true, false, not, ◌||◌, Option, none, some, [], ◌∷◌, ◌==◌, if◌then◌else◌, length, drop,
  Bytes, codes, starts_with,
}

abbrev pub is_blank : ℕ → Bool
is_blank c = c == b' ' || c == 9

-- `text + strspn(text, " \t")`
unfoldable pub skip_blanks : Bytes → Bytes
skip_blanks [] = []
skip_blanks (c ∷ text) = elim (is_blank c) [ true ↦ skip_blanks text | false ↦ c ∷ text ]

add_front : ℕ → Option (Bytes × Bytes) → Option (Bytes × Bytes)
add_front c none = none
add_front c (some (front, back)) = some (c ∷ front, back)

-- `strpbrk` and `strchr`, with a zero written at the byte found: the text before that byte and the
-- text behind it, or none.
unfoldable pub break_at : (ℕ → Bool) → Bytes → Option (Bytes × Bytes)
unfolding add_front
break_at stop [] = none
break_at stop (c ∷ text) = elim (stop c) [
  | true ↦ some ([], text)
  | false ↦ add_front c (break_at stop text)
]

unfoldable pub method_name : Bytes → Option Bytes
method_name method =
    if strcasecmp_eq method (codes "GET")
    then some (codes "GET")
    else if strcasecmp_eq method (codes "POST")
    then some (codes "POST")
    else if strcasecmp_eq method (codes "PUT")
    then some (codes "PUT")
    else if strcasecmp_eq method (codes "DELETE")
    then some (codes "DELETE")
    else none

-- `strchr(text, '/')`
unfoldable pub from_slash : Bytes → Option Bytes
from_slash text = elim (break_at (λ c. c == b'/') text) [
  | none ↦ none
  | some (front, back) ↦ some (b'/' ∷ back)
]

unfoldable pub skip_authority : Bytes → Bytes → Option Bytes
skip_authority scheme url =
    if strncasecmp_eq url scheme then from_slash (drop (length scheme) url) else some url

-- The url behind the scheme and the authority, where it starts with a slash.
unfoldable pub request_target : Bytes → Option Bytes
request_target url = elim (skip_authority (codes "http://") url) [
  | none ↦ none
  | some rest ↦ elim (skip_authority (codes "https://") rest) [
    | none ↦ none
    | some target ↦ if starts_with (codes "/") target then some target else none
  ]
]

-- The rest of the checks, with the outcome of each search: the target, then the version, then the
-- method.
unfoldable pub with_name : Bytes → Option Bytes → Option (Bytes × Bytes)
with_name name none = none
with_name name (some target) = some (name, target)

unfoldable pub check_version : Bytes → Option (Bytes × Bytes) → Option (Bytes × Bytes)
check_version name none = none
check_version name (some (url, version)) =
    if not (strcasecmp_eq (skip_blanks version) (codes "HTTP/1.1"))
    then none
    else with_name name (request_target url)

unfoldable pub check_method : Option Bytes → Bytes → Option (Bytes × Bytes)
check_method none rest = none
check_method (some name) rest = check_version name (break_at is_blank (skip_blanks rest))

unfoldable pub check_parts : Option (Bytes × Bytes) → Option (Bytes × Bytes)
check_parts none = none
check_parts (some (method, rest)) = check_method (method_name method) rest

-- The method's name and the target.
unfoldable pub request_line_parts : Bytes → Option (Bytes × Bytes)
request_line_parts text = check_parts (break_at is_blank text)

-- The target at its question mark.
unfoldable pub set_parts : Bytes → Bytes → Option (Bytes × Bytes) → HttpRequest → HttpRequest
set_parts name target none req = record req { method = name; path = target }
set_parts name target (some (path, query)) req = record req {
  method = name;
  path = path;
  query = query;
}

unfoldable pub set_target : Bytes → Bytes → HttpRequest → HttpRequest
set_target name target req = set_parts name target (break_at (λ c. c == b'?') target) req

-- What follows the checks, with their outcome.
unfoldable pub accept_line : Option (Bytes × Bytes) → HttpConn → HttpCode × HttpConn
accept_line none c = (bad_request, c)
accept_line (some (name, target)) c = (
  no_request,
  record c { request = set_target name target c.request; check_state = check_state_header },
)

unfoldable pub parse_request_line : Bytes → HttpConn → HttpCode × HttpConn
parse_request_line text c = accept_line (request_line_parts text) c
