-- ===== src/Protocol/ContentLength.antt =====
-- `parse_content_length` accepts exactly the unsigned decimal numbers of a `long`.
use cpp_url_shortener.Common.{
  ℕ, ◌+◌, ◌-◌, ◌*◌, ◌≤◌, ◌≡◌, refl, ◌≢◌, ◌↔◌, ◌⊎◌, inl, inr, Bool, true, false, none, some, [], ◌∷◌,
  arith, ◌==◌, if◌then◌else◌, Bool-cases, All, Bytes, decimal_value, to_string, IsDigit,
  decimal_value-to_string, to_string-ne-nil,
}
use cpp_url_shortener.Protocol.{
  long_max, ullong_max, scan_digits, scan_unsigned, parse_content_length,
}

-- The text behind an optional plus sign.
unfoldable pub digits_of : Bytes → Bytes
digits_of [] = []
digits_of (c ∷ text) = if c == b'+' then text else c ∷ text

le-decimal_value : (s : Bytes) (acc : ℕ) → acc ≤ decimal_value acc s
unfolding decimal_value
le-decimal_value [] acc = omega arith
le-decimal_value (c ∷ s) acc = omega (arith, le-decimal_value s (acc * 10 + (c - b'0')))

scan_digits_sound :
    (text : Bytes) (value n : ℕ) (saw : Bool)
    → value ≤ ullong_max
    → scan_digits value saw text ≡ some n
    → All IsDigit text
      × (decimal_value value text ≡ n)
      × (n ≤ long_max)
      × ((saw ≡ true) ⊎ (text ≢ []))
unfolding scan_digits decimal_value
scan_digits_sound [] value n saw fits h = ground arith
scan_digits_sound (c ∷ text) value n saw fits h =
    let next = value * 10 + (c - b'0') in ground (arith, scan_digits_sound text next n true)

scan_digits_complete :
    (text : Bytes) (value n : ℕ) (saw : Bool)
    → All IsDigit text
    → decimal_value value text ≡ n
    → n ≤ long_max
    → (saw ≡ true) ⊎ (text ≢ [])
    → scan_digits value saw text ≡ some n
unfolding scan_digits decimal_value
scan_digits_complete [] value n saw d e fits (inl t) = ground arith
scan_digits_complete [] value n saw d e fits (inr t) = absurd (t refl)
scan_digits_complete (c ∷ text) value n saw d e fits t =
    let next = value * 10 + (c - b'0') in
    ground (
      arith,
      scan_digits_complete text next n true d.1 e fits (inl refl),
      le-decimal_value text next,
    )

scan_unsigned_iff :
    (text : Bytes) (n : ℕ)
    → (scan_unsigned text ≡ some n)
      ↔ ((text ≢ []) × All IsDigit text × (decimal_value 0 text ≡ n) × (n ≤ long_max))
unfolding scan_unsigned
scan_unsigned_iff [] n = ((λ h. absurd (cc)), (λ h. absurd (h.0 refl)))
scan_unsigned_iff (c ∷ text) n = (
  (λ h.
      let (d, e, fits, _) = scan_digits_sound (c ∷ text) 0 n false (omega arith) h in
      ((λ x. cc), d, e, fits)),
  (λ h. scan_digits_complete (c ∷ text) 0 n false h.1 h.2 h.3 (inr h.0)),
)

parse_content_length-scan_unsigned :
    (text : Bytes)
    → (parse_content_length text ≡ scan_unsigned (digits_of text))
      ⊎ ((parse_content_length text ≡ none)
          × (digits_of text ≡ text)
          × (text ≢ [])
          × (¬ All IsDigit text))
unfolding parse_content_length scan_unsigned digits_of
parse_content_length-scan_unsigned [] = inl refl
parse_content_length-scan_unsigned (c ∷ text) = elim (Bool-cases (c == b'-')) [
  | inl minus ↦
      inr (rw minus, ground arith, (λ x. cc), (λ d. absurd (let lo = d.0.0 in ground arith)))
  | inr other ↦ elim (Bool-cases (c == b'+')) [
    | inl plus ↦ inl (rw (other, plus))
    | inr bare ↦ inl (rw (other, bare))
  ]
]

-- A header value is accepted exactly when it is one or more decimal digits, behind at most one
-- plus sign, that spell a number of a 64-bit `long`; the result is that number. So no value
-- wraps around, and no accepted number is refused.
pub parse_content_length_iff :
    (text : Bytes) (n : ℕ)
    → (parse_content_length text ≡ some n) ↔ (
        (digits_of text ≢ [])
        × All IsDigit (digits_of text)
        × (decimal_value 0 (digits_of text) ≡ n)
        × (n ≤ long_max))
parse_content_length_iff text n = elim (parse_content_length-scan_unsigned text) [
  | inl same ↦ rw same (scan_unsigned_iff (digits_of text) n)
  | inr (refused, same, some_text, bad) ↦
      rw (refused, same) ((λ h. absurd (cc)), (λ h. absurd (bad h.1)))
]

-- The length that a response or a client prints is read back.
pub parse_content_length-to_string :
    (n : ℕ) → n ≤ long_max → parse_content_length (to_string n) ≡ some n
parse_content_length-to_string n fits =
    let (same, d) = decimal_value-to_string n in
    (parse_content_length_iff (to_string n) n).1
      (rw (plain (to_string n) d) (to_string-ne-nil n, d, same, fits))
  where
    plain : (s : Bytes) → All IsDigit s → digits_of s ≡ s
    plain [] d = unfold digits_of in refl
    plain (c ∷ s) d = unfold digits_of in ground arith
