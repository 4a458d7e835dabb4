-- ===== src/Response.antt =====
-- http/response.{h,cpp}: `HttpResponse`. The headers are the entries of the map in the order in
-- which a loop over it meets them; a JSON value is given as the text of its `dump`.
pub mod Lines
mod Tests
use cpp_url_shortener.Common.{
  ℕ, List, [], ◌∷◌, ◌++◌, ◌==◌, if◌then◌else◌, length, Bytes, codes, insert, to_string,
}

pub record HttpResponse : Type 0 where
  pub status_code : ℕ
  pub headers : List (Bytes × Bytes)
  pub body : Bytes

abbrev pub new_response : HttpResponse
new_response = record { status_code = 200; headers = []; body = [] }

unfoldable pub set_status : ℕ → HttpResponse → HttpResponse
set_status code resp = record resp { status_code = code }

unfoldable pub set_header : Bytes → Bytes → HttpResponse → HttpResponse
set_header k v resp = record resp { headers = insert k v resp.headers }

unfoldable pub set_body : Bytes → HttpResponse → HttpResponse
set_body body resp = record resp { body = body }

unfoldable pub set_json : Bytes → HttpResponse → HttpResponse
set_json dumped resp = record resp {
  headers = insert (codes "Content-Type") (codes "application/json") resp.headers;
  body = dumped;
}

unfoldable pub status_text : ℕ → Bytes
status_text code =
    if code == 200
    then codes "OK"
    else if code == 201
    then codes "Created"
    else if code == 301
    then codes "Moved Permanently"
    else if code == 302
    then codes "Found"
    else if code == 400
    then codes "Bad Request"
    else if code == 403
    then codes "Forbidden"
    else if code == 404
    then codes "Not Found"
    else if code == 405
    then codes "Method Not Allowed"
    else if code == 410
    then codes "Gone"
    else if code == 409
    then codes "Conflict"
    else if code == 413
    then codes "Payload Too Large"
    else if code == 500
    then codes "Internal Server Error"
    else if code == 503
    then codes "Service Unavailable"
    else codes "Unknown"

abbrev pub crlf : Bytes
crlf = 13 ∷ 10 ∷ []

-- The loop over the headers.
unfoldable pub header_lines : List (Bytes × Bytes) → Bytes
header_lines [] = []
header_lines ((k, v) ∷ headers) = k ++ (codes ": " ++ (v ++ (crlf ++ header_lines headers)))

unfoldable pub serialize : HttpResponse → Bytes
serialize r =
    codes "HTTP/1.1 "
    ++ (to_string r.status_code
        ++ (codes " "
            ++ (status_text r.status_code
                ++ (crlf
                    ++ (codes "Content-Length: "
                        ++ (to_string (length r.body)
                            ++ (crlf ++ (header_lines r.headers ++ (crlf ++ r.body)))))))))
