-- ===== src/Base62/RoundTrip.antt =====
-- What `base62_encode` promises: a code is read back by positional notation, so different ids
-- have different codes, and every code of a 64-bit id is short and alphanumeric.
use mathlib.Core.WellFounded
use mathlib.Core.List.{reverse-cons, reverse-append}
use native.Mathlib.Nat.{pow-suc}
use mathlib.Core.Logic.{if_pos, if_neg, ite, dite}
use mathlib.Core.WellFounded.{Acc, Acc-prop}
use native.Mathlib.Decide.{dec_lt}
use cpp_url_shortener.Common.{
  ℕ, ◌+◌, ◌-◌, ◌*◌, ◌/◌, ◌%◌, ◌≤◌, ◌<◌, ◌≡◌, refl, ◌⊎◌, Bool, true, ◌&&◌, ◌||◌, [], ◌∷◌, ◌++◌,
  arith, leb, ◌==◌, if◌then◌else◌, Bytes, lt_wf, passes_below, passes_below_lem,
}
use cpp_url_shortener.Common.{
  zero, suc, ◌^◌, sym, ap, ◌∙◌, ◌≢◌, inl, inr, false, reverse, ==_iff, Bool-cases, length, All,
  length-append, length-reverse, All-append, codes,
}
use cpp_url_shortener.Base62.{base62_encode, alphabet_at, quotient_lt, push_digits}

-- The value of a digit, by the ranges of the alphabet, with no reference to the table.
unfoldable pub digit_value : ℕ → ℕ
digit_value c = if leb c b'9' then c - b'0' else if leb c b'Z' then c - b'A' + 36 else c - b'a' + 10

-- Positional notation, the most significant digit first.
unfoldable pub base62_value : ℕ → Bytes → ℕ
base62_value acc [] = acc
base62_value acc (c ∷ s) = base62_value (acc * 62 + digit_value c) s

abbrev pub IsAlphanumeric : ℕ → Type 0
IsAlphanumeric c =
    ((b'0' ≤ c) × (c ≤ b'9')) ⊎ (((b'A' ≤ c) × (c ≤ b'Z')) ⊎ ((b'a' ≤ c) × (c ≤ b'z')))

is_alphanumeric : ℕ → Bool
is_alphanumeric c =
    (leb b'0' c && leb c b'9') || ((leb b'A' c && leb c b'Z') || (leb b'a' c && leb c b'z'))

is_alphanumeric_sound : (c : ℕ) → is_alphanumeric c ≡ true → IsAlphanumeric c
unfolding is_alphanumeric
is_alphanumeric_sound c h = ground arith

digit_table :
    passes_below (λ i. (digit_value (alphabet_at i) == i) && is_alphanumeric (alphabet_at i)) 62
    ≡ true
unfolding passes_below digit_value is_alphanumeric alphabet_at
digit_table = refl

digit_row :
    (i : ℕ)
    → i < 62
    → ((digit_value (alphabet_at i) == i) && is_alphanumeric (alphabet_at i)) ≡ true
digit_row i h = passes_below_lem _ 62 digit_table i h

digit_value-alphabet_at : (i : ℕ) → i < 62 → digit_value (alphabet_at i) ≡ i
digit_value-alphabet_at i h = ground (arith, digit_row i h)

alphabet_at-IsAlphanumeric : (i : ℕ) → i < 62 → IsAlphanumeric (alphabet_at i)
alphabet_at-IsAlphanumeric i h = is_alphanumeric_sound _ (ground (arith, digit_row i h))

-- The loop, by its test.
digits : ℕ → Bytes → Bytes
digits n = push_digits n (lt_wf.apply n)

push_digits_step :
    (n : ℕ) (w : Acc ◌<◌ n) (w' : Acc ◌<◌ (n / 62)) (out : Bytes)
    → push_digits n w out
      ≡ ite (dec_lt 0 n) (push_digits (n / 62) w' (out ++ alphabet_at (n % 62) ∷ [])) out
unfolding push_digits
push_digits_step n (Acc.intro _ smaller) w' out = λ i.
    dite (dec_lt 0 n)
      (λ h.
        push_digits (n / 62) (Acc-prop (smaller (n / 62) (quotient_lt h)) w' i)
          (out ++ alphabet_at (n % 62) ∷ []))
      (λ _. out)

digits_step :
    (n : ℕ) (out : Bytes)
    → digits n out ≡ ite (dec_lt 0 n) (digits (n / 62) (out ++ alphabet_at (n % 62) ∷ [])) out
unfolding digits
digits_step n out = push_digits_step n _ _ out

base62_value-append :
    (acc : ℕ) (xs ys : Bytes) → base62_value acc (xs ++ ys) ≡ base62_value (base62_value acc xs) ys
unfolding base62_value
base62_value-append acc [] ys = refl
base62_value-append acc (x ∷ xs) ys = base62_value-append (acc * 62 + digit_value x) xs ys

reverse_concat : (xs : Bytes) (c : ℕ) → reverse (xs ++ c ∷ []) ≡ c ∷ reverse xs
reverse_concat xs c = reverse-append xs (c ∷ [])

-- What the loop still has to push, read back, is the value left.
base62_value-digits :
    (n : ℕ) (out : Bytes) → base62_value 0 (reverse (digits n out)) ≡ base62_value n (reverse out)
base62_value-digits n =
    WellFounded.induction lt_wf
      {C = λ m.
        (out : Bytes) → base62_value 0 (reverse (digits m out)) ≡ base62_value m (reverse out)}
      n round
  where
    round :
        (m : ℕ)
        → ((k : ℕ)
            → k < m
            → (out : Bytes)
            → base62_value 0 (reverse (digits k out)) ≡ base62_value k (reverse out))
        → (out : Bytes) → base62_value 0 (reverse (digits m out)) ≡ base62_value m (reverse out)
    round m ih out = elim (dec_lt 0 m) [
      | yes h ↦
          rw (digits_step m out, if_pos _ h, ih (m / 62) (omega arith), reverse_concat out)
            (unfold base62_value in
              ap (λ v. base62_value v (reverse out))
                (omega (arith, digit_value-alphabet_at (m % 62) (omega arith))))
      | no h ↦
          rw (digits_step m out, if_neg _ h) (ap (λ v. base62_value v (reverse out)) (omega arith))
    ]

-- Every id is read back from its code by positional notation in base 62.
pub base62_value-base62_encode : (id : ℕ) → base62_value 0 (base62_encode id) ≡ id
unfolding base62_encode digits
base62_value-base62_encode id = elim (Bool-cases (id == 0)) [
  | inl z ↦ rw z (unfold base62_value digit_value in sym ((==_iff id 0).0 z))
  | inr p ↦ rw p (unfold base62_value in base62_value-digits id [])
]

-- Two ids with one code are one id.
pub base62_encode_injective : (a b : ℕ) → base62_encode a ≡ base62_encode b → a ≡ b
base62_encode_injective a b e =
    cc (base62_value-base62_encode a, base62_value-base62_encode b, ap (base62_value 0) e)

length-digits-le : (k n : ℕ) (out : Bytes) → n < 62 ^ k → length (digits n out) ≤ length out + k
length-digits-le zero n out h =
    rw (digits_step n out, if_neg {P = 0 < n} _ (omega arith)) (omega arith)
length-digits-le (suc k) n out h = elim (dec_lt 0 n) [
  | yes p ↦
      rw (digits_step n out, if_pos _ p)
        (omega (
          arith,
          length-digits-le k (n / 62) (out ++ alphabet_at (n % 62) ∷ [])
              (omega (arith, pow-suc 62 k)),
          length-append out (alphabet_at (n % 62) ∷ []),
        ))
  | no p ↦ rw (digits_step n out, if_neg _ p) (omega arith)
]

All-reverse : (s : Bytes) → All IsAlphanumeric s → All IsAlphanumeric (reverse s)
All-reverse [] h = tt
All-reverse (c ∷ s) h =
    rw (reverse-cons c s)
      (All-append IsAlphanumeric (reverse s) (c ∷ []) (All-reverse s h.1) (h.0, tt))

digits-All :
    (k n : ℕ) (out : Bytes)
    → n < 62 ^ k
    → All IsAlphanumeric out
    → All IsAlphanumeric (digits n out)
digits-All zero n out h a = rw (digits_step n out, if_neg {P = 0 < n} _ (omega arith)) a
digits-All (suc k) n out h a = elim (dec_lt 0 n) [
  | yes p ↦
      rw (digits_step n out, if_pos _ p)
        (digits-All k (n / 62) (out ++ alphabet_at (n % 62) ∷ []) (omega (arith, pow-suc 62 k)) (
          All-append IsAlphanumeric out (alphabet_at (n % 62) ∷ []) a
            (alphabet_at-IsAlphanumeric (n % 62) (omega arith), tt)))
  | no p ↦ rw (digits_step n out, if_neg _ p) a
]

base62_encode-zero : base62_encode 0 ≡ codes "0"
unfolding base62_encode
base62_encode-zero = refl

base62_encode-digits : (id : ℕ) → (id == 0) ≡ false → base62_encode id ≡ reverse (digits id [])
unfolding base62_encode digits
base62_encode-digits id p = rw p

base62_encode-ne-nil : (id : ℕ) → base62_encode id ≢ []
base62_encode-ne-nil id e = cc (ap base62_encode zero_id, base62_encode-zero)
  where
    zero_id : id ≡ 0
    zero_id =
        sym (base62_value-base62_encode id) ∙ ap (base62_value 0) e ∙ (unfold base62_value in refl)

length_pos : (s : Bytes) → s ≢ [] → 0 < length s
length_pos [] h = absurd (h refl)
length_pos (c ∷ s) h = omega arith

length-base62_encode-le : (id : ℕ) → id < 2 ^ 64 → length (base62_encode id) ≤ 11
length-base62_encode-le id h = elim (Bool-cases (id == 0)) [
  | inl z ↦ rw ((==_iff id 0).0 z, base62_encode-zero) (omega arith)
  | inr p ↦
      rw (base62_encode-digits id p)
        (omega (arith, length-reverse (digits id []), length-digits-le 11 id [] (omega arith)))
]

base62_encode-All : (id : ℕ) → id < 2 ^ 64 → All IsAlphanumeric (base62_encode id)
base62_encode-All id h = elim (Bool-cases (id == 0)) [
  | inl z ↦ rw ((==_iff id 0).0 z, base62_encode-zero) (inl (omega arith), tt)
  | inr p ↦
      rw (base62_encode-digits id p)
        (All-reverse (digits id []) (digits-All 11 id [] (omega arith) tt))
]

-- The code of a 64-bit id has 1 to 11 characters, all of them ASCII letters or digits.
pub base62_encode_shape :
    (id : ℕ)
    → id < 2 ^ 64
    → (0 < length (base62_encode id))
      × (length (base62_encode id) ≤ 11)
      × All IsAlphanumeric (base62_encode id)
base62_encode_shape id h =
    (length_pos _ (base62_encode-ne-nil id), length-base62_encode-le id h, base62_encode-All id h)
