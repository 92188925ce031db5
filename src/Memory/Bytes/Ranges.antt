-- ===== src/Memory/Bytes/Ranges.antt =====
-- What the byte loops write, and what they compare.
use native.Mathlib.Decide.{ℕ_discrete}
use os_simple.Base.{
  ℕ, zero, suc, ◌+◌, ◌-◌, ◌%◌, ◌^◌, ◌≤◌, ◌<◌, ◌≡◌, ◌≢◌, ◌↔◌, ◌⊎◌, refl, ◌∙◌, Bool, true, false,
  ◌&&◌, ◌==◌, leb, ltb, if◌then◌else◌, update, add32, arith,
}
use os_simple.Base.Int.{pos, sub_ℕ}
use os_simple.Memory.Bytes.{Bytes, memset, memset_loop, memcpy, memcpy_loop, memcmp, memcmp_loop}

-- The address lies in the `n` bytes from `p` on.
abbrev pub within : ℕ → ℕ → ℕ → Bool
within p n a = leb p a && ltb a (p + n)

memset_loop_lem :
    (left i p value : ℕ) (bytes : Bytes) (a : ℕ)
    → p + i + left ≤ 2 ^ 32
    → memset_loop left i p value bytes a ≡ (if within (p + i) left a then value % 256 else bytes a)
unfolding memset_loop
memset_loop_lem zero i p value bytes a h = ground arith
memset_loop_lem (suc left) i p value bytes a h =
    memset_loop_lem left (i + 1) p value (update bytes (add32 p i) (value % 256)) a (omega arith)
    ∙ ground arith

-- If the range does not pass the end of the address space, `memset` stores the low byte of the
-- value in each byte of it and nowhere else.
pub memset_lem :
    (p value size : ℕ) (bytes : Bytes) (a : ℕ)
    → p + size ≤ 2 ^ 32
    → memset p value size bytes a ≡ (if within p size a then value % 256 else bytes a)
unfolding memset
memset_lem p value size bytes a h =
    memset_loop_lem size 0 p value bytes a (omega arith) ∙ ground arith

-- A copy from front to back reads each byte before it is overwritten.
abbrev pub CopiesSafely : ℕ → ℕ → ℕ → Type 0
CopiesSafely d s n = (d ≤ s) ⊎ (s + n ≤ d)

memcpy_loop_lem :
    (left i d s n : ℕ) (bytes : Bytes) (a : ℕ)
    → i + left ≡ n
    → d + n ≤ 2 ^ 32
    → s + n ≤ 2 ^ 32
    → CopiesSafely d s n
    → memcpy_loop left i d s bytes a
      ≡ (if within (d + i) left a then bytes (s + (a - d)) else bytes a)
unfolding memcpy_loop
memcpy_loop_lem zero i d s n bytes a e h k safe = ground arith
memcpy_loop_lem (suc left) i d s n bytes a e h k safe =
    memcpy_loop_lem left (i + 1) d s n (update bytes (add32 d i) (bytes (add32 s i))) a
      (omega arith) h k safe
    ∙ (let target : add32 d i ≡ d + i = omega arith in
        let source : add32 s i ≡ s + i = omega arith in rw (target, source) (ground arith))

-- If neither range passes the end of the address space and the destination does not start inside
-- the source, `memcpy` gives the destination the bytes of the source and changes nothing else.
pub memcpy_lem :
    (d s size : ℕ) (bytes : Bytes) (a : ℕ)
    → d + size ≤ 2 ^ 32
    → s + size ≤ 2 ^ 32
    → CopiesSafely d s size
    → memcpy d s size bytes a ≡ (if within d size a then bytes (s + (a - d)) else bytes a)
unfolding memcpy
memcpy_lem d s size bytes a h k safe =
    memcpy_loop_lem size 0 d s size bytes a (omega arith) h k safe ∙ ground arith

-- The two ranges hold the same bytes from index `i` on.
abbrev Agree : ℕ → ℕ → ℕ → ℕ → Bytes → Type 0
Agree i n p q bytes = (j : ℕ) → i ≤ j → j < n → bytes (p + j) ≡ bytes (q + j)

sub_ℕ-zero : (a b : ℕ) → a ≢ b → sub_ℕ a b ≢ pos 0
sub_ℕ-zero a b h e = ground arith

Agree-cons :
    (i n p q : ℕ) (bytes : Bytes)
    → bytes (p + i) ≡ bytes (q + i)
    → Agree (i + 1) n p q bytes
    → Agree i n p q bytes
Agree-cons i n p q bytes h more j lo hi = elim (ℕ_discrete i j) [
  | yes e ↦ rw (← e) h
  | no ne ↦ more j (omega arith) hi
]

memcmp_loop_lem :
    (left i n p q : ℕ) (bytes : Bytes)
    → i + left ≡ n
    → p + n ≤ 2 ^ 32
    → q + n ≤ 2 ^ 32
    → (memcmp_loop left i p q bytes ≡ pos 0) ↔ Agree i n p q bytes
unfolding memcmp_loop
memcmp_loop_lem zero i n p q bytes e h k = (λ _ j a b. absurd (omega arith), λ _. refl)
memcmp_loop_lem (suc left) i n p q bytes e h k =
    let ih = memcmp_loop_lem left (i + 1) n p q bytes (omega arith) h k in
    let first : add32 p i ≡ p + i = omega arith in
    let second : add32 q i ≡ q + i = omega arith in
    rw (first, second)
      (elim (ℕ_discrete (bytes (p + i)) (bytes (q + i))) [
        | yes same ↦
            let test : (bytes (p + i) == bytes (q + i)) ≡ true = ground arith in
            rw test
              (λ z. Agree-cons i n p q bytes same (ih.0 z), λ a. ih.1 (λ j lo. a j (omega arith)))
        | no ne ↦
            let test : (bytes (p + i) == bytes (q + i)) ≡ false = ground arith in
            rw test (
              λ z. absurd (sub_ℕ-zero _ _ ne z),
              λ a. absurd (ne (a i (omega arith) (omega arith))),
            )
      ])

-- If neither range passes the end of the address space, `memcmp` returns 0 exactly when the ranges
-- hold the same bytes.
pub memcmp_lem :
    (p q size : ℕ) (bytes : Bytes)
    → p + size ≤ 2 ^ 32
    → q + size ≤ 2 ^ 32
    → (memcmp p q size bytes ≡ pos 0) ↔ ((j : ℕ) → j < size → bytes (p + j) ≡ bytes (q + j))
unfolding memcmp
memcmp_lem p q size bytes h k =
    let both = memcmp_loop_lem size 0 size p q bytes (omega arith) h k in
    (λ z j. both.0 z j (omega arith), λ a. both.1 (λ j lo. a j))
