-- ===== src/Memory/Bytes.antt =====
-- kernel/memory.c: `memset`, `memcpy` and `memcmp` on the bytes of memory, a function of the
-- address. Addresses wrap at 2^32, and a value stored is cut to a byte.
pub mod Ranges
use os_simple.Base.{ℕ, zero, suc, ◌+◌, ◌-◌, ◌%◌, ◌==◌, if◌then◌else◌, update, add32}
use os_simple.Base.Int.{ℤ, pos, sub_ℕ}

abbrev pub Bytes : Type 0
Bytes = ℕ → ℕ

-- The loop of `memset` with `left` rounds to go from index `i`.
unfoldable pub memset_loop : ℕ → ℕ → ℕ → ℕ → Bytes → Bytes
memset_loop zero i p value bytes = bytes
memset_loop (suc left) i p value bytes =
    memset_loop left (i + 1) p value (update bytes (add32 p i) (value % 256))

unfoldable pub memset : ℕ → ℕ → ℕ → Bytes → Bytes
memset p value size bytes = memset_loop size 0 p value bytes

unfoldable pub memcpy_loop : ℕ → ℕ → ℕ → ℕ → Bytes → Bytes
memcpy_loop zero i d s bytes = bytes
memcpy_loop (suc left) i d s bytes =
    memcpy_loop left (i + 1) d s (update bytes (add32 d i) (bytes (add32 s i)))

unfoldable pub memcpy : ℕ → ℕ → ℕ → Bytes → Bytes
memcpy d s size bytes = memcpy_loop size 0 d s bytes

unfoldable pub memcmp_loop : ℕ → ℕ → ℕ → ℕ → Bytes → ℤ
memcmp_loop zero i p q bytes = pos 0
memcmp_loop (suc left) i p q bytes =
    let rest = memcmp_loop left (i + 1) p q bytes in
    if bytes (add32 p i) == bytes (add32 q i)
    then rest
    else sub_ℕ (bytes (add32 p i)) (bytes (add32 q i))

unfoldable pub memcmp : ℕ → ℕ → ℕ → Bytes → ℤ
memcmp p q size bytes = memcmp_loop size 0 p q bytes
