-- ===== src/Base/Bits.antt =====
-- Bit masks as arithmetic: `&` with low or high ones at every width, and byte tables.
use Prim.Native.Nat.{
  ℕ, zero, suc, ◌+◌, ◌-◌, ◌*◌, ◌/◌, ◌%◌, ◌^◌, ◌≤◌, ◌<◌, min, bit_and, digits, bit_and-bitwise,
}
use mathlib.Core.Path.{◌≡◌, ap, ◌∙◌}
use mathlib.Core.Bool.{Bool, true, ◌&&◌}
use native.Mathlib.Nat.{pow-suc, one-le-pow}
use native.Mathlib.Omega.{arith}

-- A test on each number of a small range, by evaluation.
unfoldable pub all_below : ℕ → (ℕ → Bool) → Bool
all_below zero test = true
all_below (suc bound) test = all_below bound test && test bound

pub all_below_sound :
    (bound : ℕ) (test : ℕ → Bool) (value : ℕ)
    → all_below bound test ≡ true
    → value < bound
    → test value ≡ true
unfolding all_below
all_below_sound zero test value passed inside = absurd (omega arith)
all_below_sound (suc bound) test value passed inside =
    let earlier = all_below_sound bound test value in ground arith

-- `&` as the library computes it, one binary digit a round, with more rounds than digits.
abbrev common : ℕ → ℕ → ℕ → ℕ
common = digits (λ y. 0) min

-- A power of two is twice the one before, and so is each of its multiples.
twice_pow : (x k : ℕ) → x * 2 ^ suc k ≡ x * 2 ^ k + x * 2 ^ k
twice_pow x k = ap (λ (p : ℕ). x * p) (pow-suc 2 k) ∙ omega arith

pow_pos : (k : ℕ) → 1 ≤ 2 ^ k
pow_pos k = one-le-pow k 2 (omega arith)

low_ones : (k : ℕ) → ((2 ^ suc k - 1) / 2 ≡ 2 ^ k - 1) × ((2 ^ suc k - 1) % 2 ≡ 1)
low_ones k =
    let twice : 2 ^ suc k ≡ 2 ^ k + 2 ^ k = omega (arith, pow-suc 2 k) in
    let some_one : 1 ≤ 2 ^ k = pow_pos k in (omega arith, omega arith)

-- With the low `k` digits set in the mask, what is left of `q * 2^k + r` is `r`.
common_low :
    (rounds k a q r : ℕ)
    → a ≤ rounds
    → a ≡ q * 2 ^ k + r
    → r < 2 ^ k
    → common rounds a (2 ^ k - 1) ≡ r
common_low zero k zero q r h e l = omega arith
common_low zero k (suc a) q r h e l = absurd (omega arith)
common_low (suc rounds) k zero q r h e l = omega arith
common_low (suc rounds) zero (suc a) q r h e l =
    omega (
      arith,
      common_low rounds 0 (suc a / 2) (suc a / 2) 0 (omega arith) (omega arith) (omega arith),
    )
common_low (suc rounds) (suc k) (suc a) q r h e l =
    let double : 2 ^ suc k ≡ 2 ^ k + 2 ^ k = omega (arith, pow-suc 2 k) in
    let multiple : q * 2 ^ suc k ≡ q * 2 ^ k + q * 2 ^ k = twice_pow q k in
    rw
      (
        (low_ones k).0,
        (low_ones k).1,
        common_low rounds k (suc a / 2) q (r / 2) (omega arith) (omega arith) (omega arith),
      )
      (omega arith)

-- With `m` digits set above the low `k`, what is left is `q * 2^k`.
common_high :
    (rounds m k a q r : ℕ)
    → a ≤ rounds
    → a ≡ q * 2 ^ k + r
    → r < 2 ^ k
    → q < 2 ^ m
    → common rounds a ((2 ^ m - 1) * 2 ^ k) ≡ q * 2 ^ k
common_high zero m k zero q r h e l u = omega arith
common_high zero m k (suc a) q r h e l u = absurd (omega arith)
common_high (suc rounds) m k zero q r h e l u = omega arith
common_high (suc rounds) m zero (suc a) q r h e l u =
    let mask : (2 ^ m - 1) * 2 ^ 0 ≡ 2 ^ m - 1 = omega arith in
    rw mask (common_low (suc rounds) m (suc a) 0 q h (omega arith) u ∙ omega arith)
common_high (suc rounds) m (suc k) (suc a) q r h e l u =
    let double : 2 ^ suc k ≡ 2 ^ k + 2 ^ k = omega (arith, pow-suc 2 k) in
    let multiple : q * 2 ^ suc k ≡ q * 2 ^ k + q * 2 ^ k = twice_pow q k in
    let mask : (2 ^ m - 1) * 2 ^ suc k ≡ (2 ^ m - 1) * 2 ^ k + (2 ^ m - 1) * 2 ^ k =
      twice_pow (2 ^ m - 1) k in
    let half : (2 ^ m - 1) * 2 ^ suc k / 2 ≡ (2 ^ m - 1) * 2 ^ k = omega arith in
    let even : (2 ^ m - 1) * 2 ^ suc k % 2 ≡ 0 = omega arith in
    rw
      (
        half,
        even,
        common_high rounds m k (suc a / 2) q (r / 2) (omega arith) (omega arith) (omega arith) u,
      )
      (omega arith)

-- `a & (2^k - 1)` is the remainder.
pub bit_and_low : (k a : ℕ) → bit_and a (2 ^ k - 1) ≡ a % 2 ^ k
bit_and_low k a =
    let some_one : 1 ≤ 2 ^ k = pow_pos k in
    bit_and-bitwise a (2 ^ k - 1)
    ∙ common_low a k a (a / 2 ^ k) (a % 2 ^ k) (omega arith) (ground arith) (ground arith)

-- `a & ~(2^k - 1)` on a word of `m + k` bits clears the low ones.
pub bit_and_high : (m k a : ℕ) → a / 2 ^ k < 2 ^ m → bit_and a ((2 ^ m - 1) * 2 ^ k) ≡ a - a % 2 ^ k
bit_and_high m k a h =
    let some_one : 1 ≤ 2 ^ k = pow_pos k in
    bit_and-bitwise a ((2 ^ m - 1) * 2 ^ k)
    ∙ common_high a m k a (a / 2 ^ k) (a % 2 ^ k) (omega arith) (ground arith) (ground arith) h
    ∙ ground arith
