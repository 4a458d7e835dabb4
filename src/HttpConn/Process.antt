-- ===== src/HttpConn/Process.antt =====
-- `http_conn::process`. The router with its handlers is an argument: none is its result false. So
-- is `dump`, nlohmann's, of an object of texts. Metrics and the access log are left out. The event
-- loop can run between the loads of the generation, so that `process` is a step up to the response,
-- and one for each stage behind it.
use cpp_url_shortener.Response.{HttpResponse, new_response, set_status, set_json, set_header}
use cpp_url_shortener.Router.{HttpRequest}
use cpp_url_shortener.HttpConn.State.{
  HttpConn, HttpCode, no_request, get_request, bad_request, request_entity_too_large, Event,
  epollin, epollout, generation_matches, arm_epoll_if_current, has_socket, modfd,
}
use cpp_url_shortener.HttpConn.Reading.{process_read}
use cpp_url_shortener.HttpConn.Writing.{process_write}
use cpp_url_shortener.Common.{
  ℕ, true, false, not, ◌&&◌, Option, none, some, List, [], ◌∷◌, if◌then◌else◌, Bytes, codes,
}

-- Where a worker stands in `process` behind `process_read`: each stage is one step, and before each
-- the event loop can run. At the end is the event that was armed, if one was, and for which socket.
pub data Stage : Type 0 where
  -- the load of the generation before `process_write`, and the call itself
  checks fills : HttpResponse → Stage
  -- the load behind a failed `process_write`, and the store of `m_pending_close`
  checks_again closes : Stage
  -- the load in `arm_epoll_if_current`, and its `modfd`
  arms modifies : Event → Stage
  ended : Option (ℕ × Event) → Stage

unfoldable pub after_process_write : Option HttpConn → HttpConn → Stage × HttpConn
after_process_write (some written) c = (arms epollout, written)
after_process_write none c = (checks_again, c)

unfoldable pub answer_step : ℕ → Stage → HttpConn → Stage × HttpConn
answer_step expected (checks resp) c =
    (if generation_matches expected c then fills resp else ended none, c)
answer_step expected (fills resp) c = after_process_write (process_write resp c) c
answer_step expected checks_again c =
    (if generation_matches expected c && has_socket c then closes else ended none, c)
answer_step expected closes c = (arms epollout, record c { pending_close = true })
answer_step expected (arms ev) c =
    (if arm_epoll_if_current expected c then modifies ev else ended none, c)
answer_step expected (modifies ev) c = (ended (modfd ev c), c)
answer_step expected (ended ev) c = (ended ev, c)

module _ (dump : List (Bytes × Bytes) → Bytes) where
  unfoldable pub error_response : ℕ → List (Bytes × Bytes) → HttpResponse
  error_response status members = set_json (dump members) (set_status status new_response)

  unfoldable pub with_connection : HttpResponse → HttpConn → HttpResponse
  with_connection resp c =
      set_header (codes "Connection") (if c.linger then codes "keep-alive" else codes "close") resp

  -- The response with its `Connection` header, and the slot.
  unfoldable pub connect : HttpResponse → HttpConn → Stage × HttpConn
  connect resp c = (checks (with_connection resp c), c)

  module _ (dispatch : HttpRequest → Option (HttpRequest × HttpResponse)) where
    unfoldable pub dispatch_request : HttpConn → Stage × HttpConn
    dispatch_request c = elim (dispatch c.request) [
      | some (req, resp) ↦ connect resp (record c { request = req })
      | none ↦
          connect
            (error_response 404
              ((codes "error", codes "not found") ∷ (codes "path", c.request.path) ∷ []))
            (record c { request = record c.request { route_pattern = codes "unmatched" } })
    ]

    unfoldable pub respond : ℕ → HttpCode × HttpConn → Stage × HttpConn
    respond expected (no_request, c) = (arms epollin, c)
    respond expected (bad_request, c) =
        connect (error_response 400 ((codes "error", codes "bad request") ∷ [])) c
    respond expected (request_entity_too_large, c) =
        connect (error_response 413 ((codes "error", codes "request entity too large") ∷ []))
          (record c { linger = false })
    respond expected (get_request, c) = dispatch_request c

    -- None is a `process_read` that does not return.
    unfoldable pub read_request : ℕ → HttpConn → Option (Stage × HttpConn)
    read_request expected c =
        if not (generation_matches expected c)
        then some (ended none, c)
        else elim (process_read c) [ none ↦ none | some result ↦ some (respond expected result) ]
