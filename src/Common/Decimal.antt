-- ===== src/Common/Decimal.antt =====
-- Decimal notation: `std::to_string` of an unsigned number, and the value that digits spell.
use Prim.Native.Nat.{ℕ, ◌+◌, ◌-◌, ◌*◌, ◌/◌, ◌%◌, ◌≤◌, ◌<◌}
use mathlib.Core.Path.{◌≡◌, refl, ap, ◌∙◌}
use mathlib.Core.Logic.{◌≢◌, ite, dite, if_pos, if_neg, inl, inr}
use mathlib.Core.Bool.{false}
use mathlib.Core.List.{[], ◌∷◌}
use mathlib.Core.WellFounded
use mathlib.Core.WellFounded.{Acc, Acc-prop}
use native.Mathlib.Decide.{dec_lt}
use native.Mathlib.Omega.{arith}
use cpp_url_shortener.Common.Tests.{◌==◌, ==_iff, if◌then◌else◌, Bool-cases}
use cpp_url_shortener.Common.Lists.{All}
use cpp_url_shortener.Common.Text.{Bytes, codes}
use cpp_url_shortener.Common.Order.{lt_wf}

abbrev pub IsDigit : ℕ → Type 0
IsDigit c = (b'0' ≤ c) × (c ≤ b'9')

-- The number that digits spell behind `acc`, with no bound.
unfoldable pub decimal_value : ℕ → Bytes → ℕ
decimal_value acc [] = acc
decimal_value acc (c ∷ s) = decimal_value (acc * 10 + (c - b'0')) s

pub tenth_lt : {n : ℕ} → 0 < n → n / 10 < n
tenth_lt h = omega arith

-- The digits of `n` in front of `s`.
unfoldable pub put_digits : (n : ℕ) → Acc ◌<◌ n → Bytes → Bytes
put_digits n (Acc.intro _ smaller) s =
    dite (dec_lt 0 n)
      (λ h. put_digits (n / 10) (smaller (n / 10) (tenth_lt h)) ((b'0' + n % 10) ∷ s)) (λ _. s)

unfoldable pub to_string : ℕ → Bytes
unfolding put_digits lt_wf dec_lt
to_string n = if n == 0 then codes "0" else put_digits n (lt_wf.apply n) []

decimals : ℕ → Bytes → Bytes
decimals n = put_digits n (lt_wf.apply n)

put_digits_step :
    (n : ℕ) (w : Acc ◌<◌ n) (w' : Acc ◌<◌ (n / 10)) (s : Bytes)
    → put_digits n w s ≡ ite (dec_lt 0 n) (put_digits (n / 10) w' ((b'0' + n % 10) ∷ s)) s
unfolding put_digits
put_digits_step n (Acc.intro _ smaller) w' s = λ i.
    dite (dec_lt 0 n)
      (λ h.
        put_digits (n / 10) (Acc-prop (smaller (n / 10) (tenth_lt h)) w' i) ((b'0' + n % 10) ∷ s))
      (λ _. s)

decimals_step :
    (n : ℕ) (s : Bytes)
    → decimals n s ≡ ite (dec_lt 0 n) (decimals (n / 10) ((b'0' + n % 10) ∷ s)) s
unfolding decimals
decimals_step n s = put_digits_step n _ _ s

decimals_lem :
    (n : ℕ) (s : Bytes)
    → All IsDigit s
    → (decimal_value 0 (decimals n s) ≡ decimal_value n s) × All IsDigit (decimals n s)
decimals_lem n =
    WellFounded.induction lt_wf
      {C = λ m.
        (s : Bytes)
        → All IsDigit s
        → (decimal_value 0 (decimals m s) ≡ decimal_value m s) × All IsDigit (decimals m s)}
      n round
  where
    round :
        (m : ℕ)
        → ((k : ℕ)
            → k < m
            → (s : Bytes) → All IsDigit s
            → (decimal_value 0 (decimals k s) ≡ decimal_value k s) × All IsDigit (decimals k s))
        → (s : Bytes) → All IsDigit s
        → (decimal_value 0 (decimals m s) ≡ decimal_value m s) × All IsDigit (decimals m s)
    round m ih s d = elim (dec_lt 0 m) [
      | yes h ↦
          let (same, digits) = ih (m / 10) (omega arith) ((b'0' + m % 10) ∷ s) (omega arith, d) in
          rw (decimals_step m s, if_pos _ h)
            (same ∙ (unfold decimal_value in ap (λ v. decimal_value v s) (omega arith)), digits)
      | no h ↦ rw (decimals_step m s, if_neg _ h) (ap (λ v. decimal_value v s) (omega arith), d)
    ]

to_string-decimals : (n : ℕ) → (n == 0) ≡ false → to_string n ≡ decimals n []
unfolding to_string decimals
to_string-decimals n p = rw p

to_string-zero : to_string 0 ≡ codes "0"
unfolding to_string
to_string-zero = refl

-- Printed digits spell the number.
pub decimal_value-to_string :
    (n : ℕ) → (decimal_value 0 (to_string n) ≡ n) × All IsDigit (to_string n)
unfolding decimal_value
decimal_value-to_string n = elim (Bool-cases (n == 0)) [
  | inl z ↦ rw ((==_iff n 0).0 z, to_string-zero) (refl, omega arith)
  | inr p ↦ rw (to_string-decimals n p) (decimals_lem n [] tt)
]

pub to_string-ne-nil : (n : ℕ) → to_string n ≢ []
unfolding decimal_value
to_string-ne-nil n e = elim (Bool-cases (n == 0)) [
  | inl z ↦ cc (to_string-zero, ap to_string ((==_iff n 0).0 z))
  | inr p ↦ absurd (
      let value = (decimal_value-to_string n).0 in
      let at_nil : decimal_value 0 (to_string n) ≡ 0 = ap (decimal_value 0) e in ground arith)
]
