-- ===== src/Protocol/Tests.antt =====
-- Runs of the helpers, as in tests/test_http_protocol.cpp, and their theorems at concrete texts.
use cpp_url_shortener.Common.{
  ◌≤◌, ◌≡◌, refl, ◌≢◌, ◌↔◌, true, false, none, some, [], ◌∷◌, ◌++◌, arith, All, codes,
  decimal_value, to_string, IsDigit,
}
use cpp_url_shortener.Protocol.{
  long_max, scan_digits, scan_unsigned, parse_content_length, contains_ctl_or_separator,
  is_http_url_safe_for_location, to_lower, strncasecmp_eq, is_unsupported_body_encoding_header,
  skip_slashes, join_public_base_url,
}
use cpp_url_shortener.Protocol.ContentLength.{
  digits_of, parse_content_length_iff, parse_content_length-to_string,
}
use cpp_url_shortener.Protocol.Location.{IsSafeUrl, is_http_url_safe_for_location_iff}

program : Unit {0}
unfolding scan_digits scan_unsigned parse_content_length contains_ctl_or_separator
    is_http_url_safe_for_location to_lower strncasecmp_eq is_unsupported_body_encoding_header
    skip_slashes join_public_base_url
program = tt

content_lengths :
    (parse_content_length (codes "8191") ≡ some 8191)
    × (parse_content_length (codes "-0") ≡ none)
    × (parse_content_length (codes "9223372036854775808") ≡ none)
    × (parse_content_length (codes "12a") ≡ none)
    × (parse_content_length (codes " 12") ≡ none)
    × (parse_content_length (codes "+7") ≡ some 7)
unfolding program
content_lengths = (refl, refl, refl, refl, refl, refl)

encodings :
    (is_unsupported_body_encoding_header (codes "transfer-encoding: gzip") ≡ true)
    × (is_unsupported_body_encoding_header (codes "Content-Length: 10") ≡ false)
unfolding program
encodings = (refl, refl)

urls :
    (is_http_url_safe_for_location (codes "https://example.com/a") ≡ true)
    × (is_http_url_safe_for_location (codes "https://evil.com/" ++ 13 ∷ 10 ∷ codes "X: 1") ≡ false)
    × (is_http_url_safe_for_location (codes "ftp://example.com/a") ≡ false)
unfolding program
urls = (refl, refl, refl)

joins :
    (join_public_base_url (codes "http://short.example/") (codes "abc")
      ≡ codes "http://short.example/abc")
    × (join_public_base_url [] (codes "abc") ≡ codes "/abc")
unfolding program
joins = (refl, refl)

parse_content_length_iff_example : (parse_content_length (codes "+42") ≡ some 42) ↔ (
    (digits_of (codes "+42") ≢ [])
    × All IsDigit (digits_of (codes "+42"))
    × (decimal_value 0 (digits_of (codes "+42")) ≡ 42)
    × (42 ≤ long_max))
parse_content_length_iff_example = parse_content_length_iff (codes "+42") 42

parse_content_length-to_string_example : parse_content_length (to_string 512) ≡ some 512
parse_content_length-to_string_example = parse_content_length-to_string 512 (omega arith)

is_http_url_safe_for_location_iff_example :
    (is_http_url_safe_for_location (codes "http://a.b/") ≡ true) ↔ IsSafeUrl (codes "http://a.b/")
is_http_url_safe_for_location_iff_example = is_http_url_safe_for_location_iff (codes "http://a.b/")
