-- ===== src/Base62/Tests.antt =====
-- Runs of `base62_encode`, and its theorems at concrete ids.
use cpp_url_shortener.Common.{ℕ, ◌≡◌, refl, codes}
use cpp_url_shortener.Base62.{base62_encode}
use cpp_url_shortener.Base62.RoundTrip.{
  base62_value, base62_value-base62_encode, base62_encode_injective,
}

base62_encode_runs : base62_encode 123456789 ≡ codes "8m0Kx"
unfolding base62_encode
base62_encode_runs = refl

base62_value-base62_encode_example : base62_value 0 (base62_encode 123456789) ≡ 123456789
base62_value-base62_encode_example = base62_value-base62_encode 123456789

base62_encode_injective_example : ◌≡◌ {A = ℕ} 61 61
base62_encode_injective_example = base62_encode_injective 61 61 refl
