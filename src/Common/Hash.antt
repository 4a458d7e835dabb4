-- ===== src/Common/Hash.antt =====
-- FNV-1a on 64 bits, the loop that three components write out: `h ^= c; h *= prime`.
use Prim.Native.Nat.{ℕ, ◌*◌, ◌%◌, ◌^◌, bit_xor}
use mathlib.Core.List.{[], ◌∷◌}
use cpp_url_shortener.Common.Text.{Bytes}

abbrev pub fnv_offset : ℕ
fnv_offset = 1469598103934665603

abbrev pub fnv_prime : ℕ
fnv_prime = 1099511628211

unfoldable pub fnv1a_from : ℕ → Bytes → ℕ
fnv1a_from h [] = h
fnv1a_from h (c ∷ s) = fnv1a_from ((bit_xor h c * fnv_prime) % 2 ^ 64) s
