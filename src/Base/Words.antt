-- ===== src/Base/Words.antt =====
-- The machine words of the 32-bit target, and their sums, differences and products.
use Prim.Native.Nat.{ℕ, ◌+◌, ◌-◌, ◌*◌, ◌%◌, ◌^◌}

abbrev pub u32_mod : ℕ
u32_mod = 2 ^ 32

-- `uint32_t` sums, differences and products.
abbrev pub add32 : ℕ → ℕ → ℕ
add32 a b = (a + b) % u32_mod

abbrev pub sub32 : ℕ → ℕ → ℕ
sub32 a b = (a + u32_mod - b) % u32_mod

abbrev pub mul32 : ℕ → ℕ → ℕ
mul32 a b = (a * b) % u32_mod

-- `~x`.
abbrev pub not32 : ℕ → ℕ
not32 x = u32_mod - 1 - x
