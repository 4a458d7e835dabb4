-- ===== src/Base62.antt =====
-- shorturl/base62.cpp: `base62_encode`, by recursion on the fact that a division makes the
-- value smaller. The text is a list of byte values.
pub mod RoundTrip
mod Tests
use mathlib.Core.Logic.{dite}
use mathlib.Core.WellFounded.{Acc, WellFounded}
use native.Mathlib.Decide.{dec_lt}
use cpp_url_shortener.Common.{
  ℕ, ◌/◌, ◌%◌, ◌<◌, [], ◌∷◌, ◌++◌, reverse, arith, ◌==◌, if◌then◌else◌, get_or, Bytes, codes, lt_wf,
}

abbrev pub alphabet : Bytes
alphabet = codes "0123456789abcdefghijklmnopqrstuvwxyzABCDEFGHIJKLMNOPQRSTUVWXYZ"

-- `alphabet[i]`
unfoldable pub alphabet_at : ℕ → ℕ
alphabet_at i = get_or alphabet i 0

pub quotient_lt : {n : ℕ} → 0 < n → n / 62 < n
quotient_lt h = omega arith

-- `while (value > 0) { out.push_back(alphabet[value % 62]); value /= 62; }`
unfoldable pub push_digits : (value : ℕ) → Acc ◌<◌ value → Bytes → Bytes
push_digits value (Acc.intro _ smaller) out =
    dite (dec_lt 0 value)
      (λ h.
        push_digits (value / 62) (smaller (value / 62) (quotient_lt h))
          (out ++ alphabet_at (value % 62) ∷ []))
      (λ _. out)

unfoldable pub base62_encode : ℕ → Bytes
unfolding push_digits alphabet_at lt_wf dec_lt
base62_encode value =
    if value == 0 then codes "0" else reverse (push_digits value (lt_wf.apply value) [])
