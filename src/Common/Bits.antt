-- ===== src/Common/Bits.antt =====
-- The bit operations as arithmetic: `|` of fields that do not overlap, and `&` with low bits.
use Prim.Native.Nat.{
  ℕ, zero, suc, ◌+◌, ◌-◌, ◌*◌, ◌/◌, ◌%◌, ◌^◌, ◌≤◌, ◌<◌, min, max, bit_and, bit_or, digits,
  bit_and-bitwise, bit_or-bitwise,
}
use mathlib.Core.Path.{◌≡◌, refl, ap}
use native.Mathlib.Nat.{pow-suc, one-le-pow}
use native.Mathlib.Omega.{arith}

-- `x << k` before any wrap.
infixl 68 ◌<<◌
abbrev pub ◌<<◌ : ℕ → ℕ → ℕ
x << k = x * 2 ^ k

-- Both operations walk the digits by fuel, with `op` at each place and `base` where the left
-- number has ended. Any fuel that covers that number gives the same result.
module _ (base : ℕ → ℕ) (op : ℕ → ℕ → ℕ) where
  enough_digits :
      (a fuel more b : ℕ) → a ≤ fuel → a ≤ more → digits base op fuel a b ≡ digits base op more a b
  enough_digits zero zero zero b h h' = refl
  enough_digits zero zero (suc more) b h h' = refl
  enough_digits zero (suc fuel) zero b h h' = refl
  enough_digits zero (suc fuel) (suc more) b h h' = refl
  enough_digits (suc a) zero more b h h' = absurd (omega arith)
  enough_digits (suc a) (suc fuel) zero b h h' = absurd (omega arith)
  enough_digits (suc a) (suc fuel) (suc more) b h h' =
      let half = enough_digits (suc a / 2) fuel more (b / 2) (omega arith) (omega arith) in
      ap (λ (t : ℕ). t * 2 + op (suc a % 2) (b % 2)) half

-- Nothing on the left.
or_nothing : (b : ℕ) → bit_or 0 b ≡ b
or_nothing b = bit_or-bitwise 0 b

and_nothing : (b : ℕ) → bit_and 0 b ≡ 0
and_nothing b = bit_and-bitwise 0 b

-- The lowest digit apart from the others.
pub bit_or_step : (x y : ℕ) → bit_or x y ≡ bit_or (x / 2) (y / 2) * 2 + max (x % 2) (y % 2)
bit_or_step zero y = omega (arith, or_nothing y, or_nothing (y / 2))
bit_or_step (suc x) y =
    let whole = bit_or-bitwise (suc x) y in
    let halves = bit_or-bitwise (suc x / 2) (y / 2) in
    let same =
      enough_digits (λ d. d) max (suc x / 2) x (suc x / 2) (y / 2) (omega arith) (omega arith) in
    omega arith

pub bit_and_step : (x y : ℕ) → bit_and x y ≡ bit_and (x / 2) (y / 2) * 2 + min (x % 2) (y % 2)
bit_and_step zero y = omega (arith, and_nothing y, and_nothing (y / 2))
bit_and_step (suc x) y =
    let whole = bit_and-bitwise (suc x) y in
    let halves = bit_and-bitwise (suc x / 2) (y / 2) in
    let same =
      enough_digits (λ d. zero) min (suc x / 2) x (suc x / 2) (y / 2) (omega arith) (omega arith) in
    omega arith

bit_or-zero_below : (n a : ℕ) → a ≤ n → bit_or a 0 ≡ a
bit_or-zero_below n zero h = refl
bit_or-zero_below zero (suc a) h = absurd (omega arith)
bit_or-zero_below (suc n) (suc a) h =
    omega (arith, bit_or_step (suc a) 0, bit_or-zero_below n (suc a / 2) (omega arith))

bit_and-zero_below : (n a : ℕ) → a ≤ n → bit_and a 0 ≡ 0
bit_and-zero_below n zero h = refl
bit_and-zero_below zero (suc a) h = absurd (omega arith)
bit_and-zero_below (suc n) (suc a) h =
    omega (arith, bit_and_step (suc a) 0, bit_and-zero_below n (suc a / 2) (omega arith))

double_shift : (q k : ℕ) → q << suc k ≡ 2 * (q << k)
double_shift q k = omega (arith, ap (λ (t : ℕ). q * t) (pow-suc 2 k))

-- `(q << k) | r` is a sum where `r` has at most `k` bits.
pub bit_or_shifted : (k q r : ℕ) → r < 2 ^ k → bit_or (q << k) r ≡ (q << k) + r
bit_or_shifted zero q r h = ground (arith, bit_or-zero_below q q (omega arith))
bit_or_shifted (suc k) q r h = ground (
  arith,
  bit_or_step (q << suc k) r,
  double_shift q k,
  pow-suc 2 k,
  bit_or_shifted k q (r / 2) (omega (arith, pow-suc 2 k)),
)

-- `a & (2^k - 1)` is the remainder by `2^k`, first for a split number.
bit_and_low_split : (k q r : ℕ) → r < 2 ^ k → bit_and ((q << k) + r) (2 ^ k - 1) ≡ r
bit_and_low_split zero q r h =
    omega (arith, bit_and-zero_below (q * 1 + r) (q * 1 + r) (omega arith))
bit_and_low_split (suc k) q r h = ground (
  arith,
  bit_and_step ((q << suc k) + r) (2 ^ suc k - 1),
  double_shift q k,
  pow-suc 2 k,
  one-le-pow k 2,
  bit_and_low_split k q (r / 2) (omega (arith, pow-suc 2 k)),
)

pub bit_and_low : (k a : ℕ) → bit_and a (2 ^ k - 1) ≡ a % 2 ^ k
bit_and_low k a = ground (arith, one-le-pow k 2, bit_and_low_split k (a / 2 ^ k) (a % 2 ^ k))
