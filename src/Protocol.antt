-- ===== src/Protocol.antt =====
-- http/protocol_utils.h, and the C string functions that the header code calls. A C string is the
-- list of its bytes before the terminating zero.
pub mod ContentLength
pub mod Location
mod Tests
use cpp_url_shortener.Common.{
  ℕ, ◌+◌, ◌-◌, ◌*◌, ◌/◌, ◌%◌, ◌^◌, Bool, true, false, not, ◌&&◌, ◌||◌, Option, none, some, [], ◌∷◌,
  ◌++◌, reverse, ltb, leb, ◌==◌, if◌then◌else◌, length, Bytes, codes, starts_with,
}

abbrev pub long_max : ℕ
long_max = 2 ^ 63 - 1

abbrev pub ullong_max : ℕ
ullong_max = 2 ^ 64 - 1

-- The loop over the digits: the value so far, and whether a digit was seen.
unfoldable pub scan_digits : ℕ → Bool → Bytes → Option ℕ
scan_digits value saw_digit [] = if not saw_digit || ltb long_max value then none else some value
scan_digits value saw_digit (c ∷ text) =
    let digit = c - b'0' in
    let rest = scan_digits ((value * 10 + digit) % 2 ^ 64) true text in
    if ltb c b'0' || ltb b'9' c
    then none
    else if ltb ((ullong_max - digit) / 10) value
    then none
    else rest

-- Behind the sign.
unfoldable pub scan_unsigned : Bytes → Option ℕ
scan_unsigned [] = none
scan_unsigned (c ∷ text) = scan_digits 0 false (c ∷ text)

-- `none` is the result false.
unfoldable pub parse_content_length : Bytes → Option ℕ
parse_content_length [] = none
parse_content_length (c ∷ text) =
    if c == b'-'
    then none
    else if c == b'+'
    then scan_unsigned text
    else scan_digits 0 false (c ∷ text)

-- Reject control bytes.
unfoldable pub contains_ctl_or_separator : Bytes → Bool
contains_ctl_or_separator [] = false
contains_ctl_or_separator (c ∷ value) =
    if ltb c 0x20 || c == 0x7f then true else contains_ctl_or_separator value

unfoldable pub is_http_url_safe_for_location : Bytes → Bool
is_http_url_safe_for_location url =
    if ltb (length url) 8 || ltb 2048 (length url)
    then false
    else if contains_ctl_or_separator url
    then false
    else starts_with (codes "http://") url || starts_with (codes "https://") url

-- `tolower` of the C locale.
unfoldable pub to_lower : ℕ → ℕ
to_lower c = if leb b'A' c && leb c b'Z' then c + 32 else c

-- `strcasecmp(a, b) == 0`
unfoldable pub strcasecmp_eq : Bytes → Bytes → Bool
strcasecmp_eq [] [] = true
strcasecmp_eq [] (d ∷ b) = false
strcasecmp_eq (c ∷ a) [] = false
strcasecmp_eq (c ∷ a) (d ∷ b) = to_lower c == to_lower d && strcasecmp_eq a b

-- `strncasecmp(text, prefix, strlen(prefix)) == 0`
unfoldable pub strncasecmp_eq : Bytes → Bytes → Bool
strncasecmp_eq text [] = true
strncasecmp_eq [] (d ∷ prefix) = false
strncasecmp_eq (c ∷ text) (d ∷ prefix) = to_lower c == to_lower d && strncasecmp_eq text prefix

unfoldable pub is_unsupported_body_encoding_header : Bytes → Bool
is_unsupported_body_encoding_header text =
    strncasecmp_eq text (codes "Transfer-Encoding:")
    || strncasecmp_eq text (codes "Content-Encoding:")

-- The loop that takes slashes off the end; the list is the text read from its end.
unfoldable pub skip_slashes : Bytes → Bytes
skip_slashes [] = []
skip_slashes (c ∷ s) = elim (c == b'/') [ true ↦ skip_slashes s | false ↦ c ∷ s ]

unfoldable pub join_public_base_url : Bytes → Bytes → Bytes
join_public_base_url [] code = b'/' ∷ code
join_public_base_url (c ∷ base) code = reverse (skip_slashes (reverse (c ∷ base))) ++ b'/' ∷ code
