-- ===== src/Response/Lines.antt =====
-- A reader of messages, line by line as HTTP has them, takes a serialized response apart again.
use cpp_url_shortener.Common.{
  ℕ, ◌≡◌, refl, ap, ◌∙◌, ◌≢◌, true, false, ◌&&◌, Option, none, some, List, [], ◌∷◌, ◌++◌, map,
  append_assoc, append-nil, arith, ◌==◌, length, All, length-append, All-append, Bytes, codes,
  to_string, IsDigit, decimal_value-to_string,
}
use cpp_url_shortener.Response.{HttpResponse, status_text, header_lines, serialize, crlf}

abbrev pub LacksCr : Bytes → Type 0
LacksCr = All (λ c. c ≢ 13)

add_line : Bytes → Option (List Bytes × Bytes) → Option (List Bytes × Bytes)
add_line line none = none
add_line line (some (lines, body)) = some (line ∷ lines, body)

-- The lines up to the first empty one, each without its CRLF, and what follows that one. The
-- first argument is the line being read.
unfoldable pub read_from : Bytes → Bytes → Option (List Bytes × Bytes)
unfolding add_line
read_from line [] = none
read_from line (c ∷ []) = none
read_from line (c ∷ d ∷ s) = elim (c == 13 && d == 10) [
  | true ↦ elim line [ [] ↦ some ([], s) | e ∷ rest ↦ add_line (e ∷ rest) (read_from [] s) ]
  | false ↦ read_from (line ++ c ∷ []) (d ∷ s)
]

unfoldable pub read_message : Bytes → Option (List Bytes × Bytes)
read_message s = read_from [] s

read_from-line :
    (l line s : Bytes)
    → LacksCr l
    → read_from line (l ++ (crlf ++ s)) ≡ read_from (line ++ l) (crlf ++ s)
unfolding read_from
read_from-line [] line s h = rw append-nil
read_from-line (c ∷ []) line s h =
    let other : (c == 13) ≡ false = ground arith in rw (other, read_from)
read_from-line (c ∷ d ∷ l) line s h =
    let other : (c == 13) ≡ false = ground arith in
    rw (other, read_from)
      (read_from-line (d ∷ l) (line ++ c ∷ []) s h.1
        ∙ ap (λ (t : Bytes). read_from t (crlf ++ s)) (append_assoc line (c ∷ []) (d ∷ l)))

-- A line that is not empty and has no CR is read as one line.
read_from_full :
    (c : ℕ) (l s : Bytes)
    → LacksCr (c ∷ l)
    → read_from [] ((c ∷ l) ++ (crlf ++ s)) ≡ add_line (c ∷ l) (read_from [] s)
unfolding add_line
read_from_full c l s h = read_from-line (c ∷ l) [] s h ∙ (unfold read_from in refl)

abbrev pub header_line : Bytes × Bytes → Bytes
header_line (k, v) = k ++ (codes ": " ++ v)

unfoldable pub status_line : ℕ → Bytes
status_line code = codes "HTTP/1.1 " ++ (to_string code ++ (codes " " ++ status_text code))

unfoldable pub length_line : Bytes → Bytes
length_line body = codes "Content-Length: " ++ to_string (length body)

abbrev pub LacksCrHeader : Bytes × Bytes → Type 0
LacksCrHeader (k, v) = LacksCr k × LacksCr v

-- A line is read whole where it is not empty.
read_from-full :
    (line s : Bytes)
    → line ≢ []
    → LacksCr line
    → read_from [] (line ++ (crlf ++ s)) ≡ add_line line (read_from [] s)
read_from-full [] s ne h = absurd (ne refl)
read_from-full (c ∷ l) s ne h = read_from_full c l s h

header-ne : (k v : Bytes) → header_line (k, v) ≢ []
header-ne k v e =
    absurd
      (let none_left = ap length e in omega (arith, none_left, length-append k (codes ": " ++ v)))

pub header_lines_cons :
    (k v : Bytes) (headers : List (Bytes × Bytes)) (s : Bytes)
    → header_lines ((k, v) ∷ headers) ++ s
      ≡ header_line (k, v) ++ (crlf ++ (header_lines headers ++ s))
unfolding header_lines
header_lines_cons k v headers s = simp append_assoc

add_lines : List (Bytes × Bytes) → Option (List Bytes × Bytes) → Option (List Bytes × Bytes)
add_lines [] rest = rest
add_lines (h ∷ headers) rest = add_line (header_line h) (add_lines headers rest)

read_from-headers :
    (headers : List (Bytes × Bytes)) (s : Bytes)
    → All LacksCrHeader headers
    → read_from [] (header_lines headers ++ s) ≡ add_lines headers (read_from [] s)
unfolding add_lines
read_from-headers [] s h = unfold header_lines in refl
read_from-headers ((k, v) ∷ headers) s h =
    ap (read_from []) (header_lines_cons k v headers s)
    ∙ read_from-full (header_line (k, v)) _ (header-ne k v)
        (All-append _ k (codes ": " ++ v) h.0.0 (omega arith, (omega arith, h.0.1)))
    ∙ ap (add_line (header_line (k, v))) (read_from-headers headers s h.1)

digits-LacksCr : (s : Bytes) → All IsDigit s → LacksCr s
digits-LacksCr [] h = tt
digits-LacksCr (c ∷ s) h = (omega arith, digits-LacksCr s h.1)

to_string-LacksCr : (n : ℕ) → LacksCr (to_string n)
to_string-LacksCr n = digits-LacksCr (to_string n) (decimal_value-to_string n).1

-- Each text of the table is printable.
status_text-LacksCr : (code : ℕ) → LacksCr (status_text code)
unfolding status_text
status_text-LacksCr code = ground arith

status_line-LacksCr : (code : ℕ) → LacksCr (status_line code)
unfolding status_line
status_line-LacksCr code = All-append _ (codes "HTTP/1.1 ") _ (omega arith) (
    All-append _ (to_string code) _ (to_string-LacksCr code)
      (omega arith, status_text-LacksCr code))

length_line-LacksCr : (body : Bytes) → LacksCr (length_line body)
unfolding length_line
length_line-LacksCr body =
    All-append _ (codes "Content-Length: ") _ (omega arith) (to_string-LacksCr (length body))

serialize_lines :
    (r : HttpResponse)
    → serialize r
      ≡ status_line r.status_code
        ++ (crlf ++ (length_line r.body ++ (crlf ++ (header_lines r.headers ++ (crlf ++ r.body)))))
unfolding serialize status_line length_line
serialize_lines r = simp append_assoc

add_lines-some :
    (headers : List (Bytes × Bytes)) (body : Bytes)
    → add_lines headers (some ([], body)) ≡ some (map header_line headers, body)
unfolding add_lines add_line
add_lines-some [] body = refl
add_lines-some (h ∷ headers) body = rw (add_lines-some headers body)

read_from-body : (body : Bytes) → read_from [] (crlf ++ body) ≡ some ([], body)
unfolding read_from
read_from-body body = refl

-- A response whose header names and values have no carriage return is read back as its own
-- lines, for any body: the status line, the length, one line for each header, and the body
-- after the empty line. So no value can end its line and add one.
pub read_message-serialize :
    (r : HttpResponse)
    → All LacksCrHeader r.headers
    → read_message (serialize r)
      ≡ some (status_line r.status_code ∷ length_line r.body ∷ map header_line r.headers, r.body)
unfolding read_message add_line
read_message-serialize r h =
    ap (read_from []) (serialize_lines r)
    ∙ read_from-full (status_line r.status_code) _
        (unfold status_line in λ e. absurd (let none_left = ap length e in omega arith))
        (status_line-LacksCr r.status_code)
    ∙ ap (add_line (status_line r.status_code)) (
        read_from-full (length_line r.body) _
          (unfold length_line in λ e. absurd (let none_left = ap length e in omega arith))
          (length_line-LacksCr r.body)
        ∙ ap (add_line (length_line r.body)) (
            read_from-headers r.headers (crlf ++ r.body) h
            ∙ ap (add_lines r.headers) (read_from-body r.body)
            ∙ add_lines-some r.headers r.body))
