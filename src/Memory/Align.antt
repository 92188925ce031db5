-- ===== src/Memory/Align.antt =====
-- kernel/memory.c: `align_address`, and the two address tests.
use native.Mathlib.Nat.{pow-suc, one-le-pow, mod-lt, div-lt_iff_lt-mul, div-add-mod, mul-mod_right}
use os_simple.Base.{
  ℕ, zero, suc, ◌+◌, ◌-◌, ◌*◌, ◌/◌, ◌%◌, ◌^◌, ◌≤◌, ◌<◌, ◌≡◌, ap, sym, ◌∙◌, Bool, ◌&&◌, leb, ltb,
  bit_and, add32, sub32, not32, arith,
}
use os_simple.Base.Bits.{bit_and_high}

abbrev pub memory_start : ℕ
memory_start = 0x100000

abbrev pub memory_end : ℕ
memory_end = 0x1000000

unfoldable pub align_address : ℕ → ℕ → ℕ
align_address addr alignment = bit_and (sub32 (add32 addr alignment) 1) (not32 (sub32 alignment 1))

unfoldable pub is_valid_address : ℕ → Bool
is_valid_address address = leb memory_start address && ltb address memory_end

unfoldable pub is_kernel_address : ℕ → Bool
is_kernel_address address = leb memory_start address && ltb address (add32 memory_start 0x100000)

two_pow_pos : (k : ℕ) → 0 < 2 ^ k
two_pow_pos k = one-le-pow k 2 (omega arith)

two_pow_add : (m k : ℕ) → 2 ^ (m + k) ≡ 2 ^ m * 2 ^ k
two_pow_add m zero = let same : m + 0 ≡ m = omega arith in rw same (omega arith)
two_pow_add m (suc k) =
    let step : m + suc k ≡ suc (m + k) = omega arith in
    rw step
      (omega (arith, pow-suc 2 (m + k), two_pow_add m k, ap (λ (t : ℕ). 2 ^ m * t) (pow-suc 2 k)))

two_pow_32 : (m k : ℕ) → m + k ≡ 32 → 2 ^ m * 2 ^ k ≡ 2 ^ 32
two_pow_32 m k e = sym (two_pow_add m k) ∙ ap (λ n. 2 ^ n) e

pred_mul : (a b : ℕ) → 0 < a → (a - 1) * b + b ≡ a * b
pred_mul zero b h = elim h [ ]
pred_mul (suc a) b h = grind arith

le-two_pow_mul : (m a : ℕ) → a ≤ 2 ^ m * a
le-two_pow_mul m a = let pos : 1 ≤ 2 ^ m = two_pow_pos m in grind arith

two_pow_lt : (m k : ℕ) → m + k ≡ 32 → k < 32 → 2 ^ k < 2 ^ 32
two_pow_lt zero k e l = absurd (omega arith)
two_pow_lt (suc m) k e l = omega (
  arith,
  two_pow_pos k,
  pow-suc 2 m,
  two_pow_32 (suc m) k e,
  ap (λ (t : ℕ). t * 2 ^ k) (pow-suc 2 m),
  le-two_pow_mul m (2 ^ k),
)

-- The two sides of the `&`, as arithmetic.
align_sum : (k addr : ℕ) → addr + 2 ^ k ≤ 2 ^ 32 → sub32 (add32 addr (2 ^ k)) 1 ≡ addr + 2 ^ k - 1
align_sum k addr h = omega (arith, two_pow_pos k)

align_mask : (m k : ℕ) → m + k ≡ 32 → 2 ^ k < 2 ^ 32 → not32 (sub32 (2 ^ k) 1) ≡ (2 ^ m - 1) * 2 ^ k
align_mask m k e l =
    omega (arith, two_pow_pos k, pred_mul (2 ^ m) (2 ^ k) (two_pow_pos m), two_pow_32 m k e)

align_quotient :
    (m k addr : ℕ) → m + k ≡ 32 → addr + 2 ^ k ≤ 2 ^ 32 → (addr + 2 ^ k - 1) / 2 ^ k < 2 ^ m
align_quotient m k addr e h =
    (div-lt_iff_lt-mul (two_pow_pos k)).1 (omega (arith, two_pow_pos k, two_pow_32 m k e))

-- Clearing the remainder leaves a multiple.
sub-mod-mod : (x a : ℕ) → (x - x % a) % a ≡ 0
sub-mod-mod x a =
    let multiple : x - x % a ≡ a * (x / a) = omega (arith, div-add-mod x a) in
    rw (multiple, mul-mod_right a (x / a))

-- For an alignment that is a power of two of at most 2^31, and an address that is not within one
-- alignment of the top, the result is the least multiple of the alignment at or above the address.
pub align_address_lem :
    (m k addr : ℕ)
    → m + k ≡ 32
    → k < 32
    → addr + 2 ^ k ≤ 2 ^ 32
    → (align_address addr (2 ^ k) % 2 ^ k ≡ 0)
      × (addr ≤ align_address addr (2 ^ k))
      × (align_address addr (2 ^ k) < addr + 2 ^ k)
unfolding align_address
align_address_lem m k addr e l h =
    rw
      (
        align_sum k addr h,
        align_mask m k e (two_pow_lt m k e l),
        bit_and_high m k (addr + 2 ^ k - 1) (align_quotient m k addr e h),
      )
      (
        sub-mod-mod (addr + 2 ^ k - 1) (2 ^ k),
        omega (arith, two_pow_pos k, mod-lt (addr + 2 ^ k - 1) (two_pow_pos k)),
        omega (arith, two_pow_pos k),
      )

-- The alignment that `kmalloc` uses: rounding up to a multiple of four, or 0 for the three sizes
-- at the top of the range.
pub align_address_four :
    (size : ℕ) → size < 2 ^ 32 → align_address size 4 ≡ (size + 3) % 2 ^ 32 - (size + 3) % 4
unfolding align_address
align_address_four size h = ground (arith, bit_and_high 30 2 ((size + 3) % 2 ^ 32))
