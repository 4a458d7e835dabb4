-- ===== src/HttpConn/State.antt =====
-- The state of `http_conn` with its buffers, its identity, and the calls of the event loop that
-- change it as a whole.
use cpp_url_shortener.Router.{HttpRequest}
use cpp_url_shortener.Common.{
  ℕ, ◌+◌, ◌%◌, ◌^◌, Bool, true, false, ◌&&◌, Option, none, some, [], ◌∷◌, ◌++◌, ltb, ◌==◌, length,
  drop, replicate, Bytes, codes, to_string,
}

abbrev pub read_buffer_size : ℕ
read_buffer_size = 8192

abbrev pub write_buffer_size : ℕ
write_buffer_size = 8192

pub data CheckState : Type 0 where
  check_state_requestline check_state_header check_state_content : CheckState

pub data HttpCode : Type 0 where
  no_request get_request bad_request request_entity_too_large : HttpCode

pub data LineStatus : Type 0 where
  line_ok line_bad line_open : LineStatus

-- What the slot asks of epoll for its socket.
pub data Event : Type 0 where
  epollin epollout : Event

-- `read_buf` has the bytes received, so that its length is `m_read_idx`; the rest of the array is
-- zero. `write_buf` is the whole of `m_write_buf`; `iov_base` and `iov_len` are `m_iv[0]`, the base
-- as a place in `write_buf`. No socket is -1. The pointers into the line, and the members that are
-- only set, are left out.
pub record HttpConn : Type 0 where
  pub sockfd : Option ℕ
  pub trig_mode : ℕ
  pub read_buf : Bytes
  pub checked_idx : ℕ
  pub start_line : ℕ
  pub check_state : CheckState
  pub request : HttpRequest
  pub content_length : ℕ
  pub linger : Bool
  pub write_buf : Bytes
  pub iov_base : ℕ
  pub iov_len : ℕ
  pub bytes_to_send : ℕ
  pub bytes_have_send : ℕ
  pub generation : ℕ
  pub pending_close : Bool

abbrev pub read_idx : HttpConn → ℕ
read_idx c = length c.read_buf

abbrev pub empty_request : HttpRequest
empty_request = record {
  method = [];
  path = [];
  query = [];
  route_pattern = [];
  headers = [];
  body = [];
  params = [];
}

-- `init()`
unfoldable pub reset : HttpConn → HttpConn
reset c = record c {
  bytes_to_send = 0;
  bytes_have_send = 0;
  check_state = check_state_requestline;
  linger = true;
  content_length = 0;
  start_line = 0;
  checked_idx = 0;
  pending_close = false;
  request = empty_request;
  read_buf = [];
  write_buf = replicate write_buffer_size 0;
}

-- A slot that was never used.
abbrev pub new_conn : HttpConn
new_conn = record {
  sockfd = none;
  trig_mode = 0;
  read_buf = [];
  checked_idx = 0;
  start_line = 0;
  check_state = check_state_requestline;
  request = empty_request;
  content_length = 0;
  linger = true;
  write_buf = replicate write_buffer_size 0;
  iov_base = 0;
  iov_len = 0;
  bytes_to_send = 0;
  bytes_have_send = 0;
  generation = 0;
  pending_close = false;
}

-- `init(sockfd, addr, TRIGMode, close_log)`
unfoldable pub init : ℕ → ℕ → HttpConn → HttpConn
init fd mode c =
    reset
      (record c { sockfd = some fd; trig_mode = mode; generation = (c.generation + 1) % 2 ^ 64 })

unfoldable pub invalidate : HttpConn → HttpConn
invalidate c = record c {
  generation = (c.generation + 1) % 2 ^ 64;
  pending_close = false;
  sockfd = none;
}

unfoldable pub generation_matches : ℕ → HttpConn → Bool
generation_matches expected c = c.generation == expected

unfoldable pub has_pipelined_input : HttpConn → Bool
has_pipelined_input c = ltb c.checked_idx (read_idx c)

unfoldable pub has_socket : HttpConn → Bool
has_socket c = elim c.sockfd [ none ↦ false | some fd ↦ true ]

-- Whether the call goes on to `modfd`. The second check is after the event is armed; its result is
-- not used.
unfoldable pub arm_epoll_if_current : ℕ → HttpConn → Bool
arm_epoll_if_current expected c = generation_matches expected c && has_socket c

-- The socket, as the slot has it by then, with the event that is armed for it.
unfoldable pub modfd : Event → HttpConn → Option (ℕ × Event)
modfd ev c = elim c.sockfd [ none ↦ none | some fd ↦ some (fd, ev) ]

abbrev overload_body : Bytes
overload_body =
    123 ∷ 34 ∷ codes "error" ++ (34 ∷ 58 ∷ 34 ∷ codes "service unavailable" ++ (34 ∷ 125 ∷ []))

-- The text that `reject_overload` sends, where there is a socket.
unfoldable pub reject_overload : HttpConn → Option Bytes
reject_overload c = elim c.sockfd [
  | none ↦ none
  | some fd ↦ some (
      codes "HTTP/1.1 503 Service Unavailable"
      ++ (13 ∷ 10 ∷ codes "Content-Type: application/json"
          ++ (13 ∷ 10 ∷ codes "Connection: close"
              ++ (13 ∷ 10 ∷ codes "Content-Length: "
                  ++ (to_string (length overload_body) ++ (13 ∷ 10 ∷ 13 ∷ 10 ∷ overload_body))))))
]

unfoldable pub retain_pipelined_bytes : HttpConn → HttpConn
retain_pipelined_bytes c = record (reset c) { read_buf = drop c.checked_idx c.read_buf }
