-- ===== src/Response/Tests.antt =====
-- Runs of the response writer.
use cpp_url_shortener.Common.{◌≡◌, refl, some, [], ◌∷◌, arith, codes, insert, to_string}
use cpp_url_shortener.Response.{
  HttpResponse, new_response, set_status, set_header, set_body, set_json, status_text, header_lines,
  serialize,
}
use cpp_url_shortener.Response.Lines.{
  read_message, status_line, length_line, read_message-serialize,
}

program : Unit {0}
unfolding set_status set_header set_body set_json status_text header_lines serialize to_string
    insert
program = tt

moved : HttpResponse
moved = set_status 302 (set_header (codes "Location") (codes "https://a.example/x") new_response)

moved_text :
    serialize moved
    ≡ codes "HTTP/1.1 302 Found\r\nContent-Length: 0\r\nLocation: https://a.example/x\r\n\r\n"
unfolding program moved
moved_text = refl

json_text :
    serialize (set_json (codes "{}") new_response)
    ≡ codes "HTTP/1.1 200 OK\r\nContent-Length: 2\r\nContent-Type: application/json\r\n\r\n{}"
unfolding program
json_text = refl

read_message-serialize_example :
    let r : HttpResponse = record {
      status_code = 302;
      headers = (codes "Location", codes "https://a.example/x") ∷ [];
      body = codes "x\r\n\r\ny";
    } in
    read_message (serialize r)
    ≡ some (
      status_line 302
          ∷ length_line (codes "x\r\n\r\ny")
          ∷ codes "Location: https://a.example/x"
          ∷ [],
      codes "x\r\n\r\ny",
    )
read_message-serialize_example =
    read_message-serialize
      (record {
        status_code = 302;
        headers = (codes "Location", codes "https://a.example/x") ∷ [];
        body = codes "x\r\n\r\ny";
      })
      (omega arith)
