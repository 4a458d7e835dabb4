-- ===== src/HttpConn/Requests.antt =====
-- A request as a client writes it is parsed back to its parts.
use cpp_url_shortener.HttpConn.Bodies.{with_length}
use cpp_url_shortener.Response.{header_lines}
use cpp_url_shortener.Response.Lines.{length_line}
use cpp_url_shortener.HttpConn.Lines.{eol, mark, IsLineByte}
use cpp_url_shortener.HttpConn.Targets.{IsTarget, query_text, request_line_text}
use cpp_url_shortener.HttpConn.HeaderLines.{IsHeader, enter, add_headers, mark_headers}
use cpp_url_shortener.Router.{HttpRequest}
use cpp_url_shortener.HttpConn.State.{
  HttpConn, HttpCode, get_request, check_state_header, read_buffer_size, empty_request, reset,
}
use cpp_url_shortener.HttpConn.RequestLine.{is_blank, method_name}
use cpp_url_shortener.Common.{
  ◌<◌, ◌≡◌, true, false, Option, some, List, [], ◌∷◌, ◌++◌, length, drop, All, Bytes, codes, insert,
  to_string,
}

module _ (method name path : Bytes) (query : Option Bytes) (headers : List (Bytes × Bytes))
    (body : Bytes) where
  -- The request as it is sent, and as it reads before more text.
  unfoldable pub request_text : Bytes
  request_text =
      request_line_text method path query
      ++ (eol ++ (header_lines headers ++ (length_line body ++ (eol ++ (eol ++ body)))))

  before_text : Bytes → Bytes
  before_text rest =
      request_line_text method path query
      ++ (eol ++ (header_lines headers ++ (length_line body ++ (eol ++ (eol ++ (body ++ rest))))))

  -- The names and texts are free of what would end them, and the whole fits the buffer.
  pub record IsRequest : Type 0 where
    pub named : method_name method ≡ some name
    pub word : All (λ c. is_blank c ≡ false) method
    pub target : IsTarget path query
    pub line : All IsLineByte (request_line_text method path query)
    pub fields : All IsHeader headers
    pub fits : length request_text < read_buffer_size

  -- What the handlers are to see.
  unfoldable pub parsed_request : HttpRequest
  parsed_request = record {
    method = name;
    path = b'/' ∷ path;
    query = query_text query;
    route_pattern = [];
    headers = insert (codes "Content-Length") (to_string (length body)) (enter headers []);
    body = body;
    params = [];
  }

  module _ (v : IsRequest) (rest : Bytes) (c : HttpConn) where
    targeted : HttpConn
    targeted = record (reset c) {
      request = record empty_request {
        method = name;
        path = b'/' ∷ path;
        query = query_text query;
      };
      check_state = check_state_header;
    }

    first : Bytes
    first = mark [] (request_line_text method path query)

    headed : HttpConn
    headed = with_length (length body) (add_headers headers targeted)

    behind : Bytes
    behind = mark (mark (mark_headers first headers) (length_line body)) []

    -- The parser's result with the request complete.
    Parsed : Option (HttpCode × HttpConn) → Type 0
    Parsed o =
        (after : HttpConn) × (o ≡ some (get_request, after))
        × (after.request ≡ parsed_request)
        × (drop after.checked_idx after.read_buf ≡ rest)
        × (after.linger ≡ true)
