-- ===== src/Syscall/Writing.antt =====
-- What `sys_write` prints and returns.
use os_simple.Base.{
  ℕ, zero, suc, ◌<◌, ◌≡◌, ◌≢◌, refl, true, false, ◌||◌, List, [], ◌∷◌, ◌^◌, ◌==◌, ltb, ◌⊎◌, inl,
  inr, length, add32, arith,
}
use os_simple.Base.Int.{pos}
use os_simple.Base.Effects.{Effect, print_char}
use os_simple.Syscall.{Syscalls, SyscallParams, run_syscall, sys_write, write_chars}

-- The text stands in memory at the address, character by character.
abbrev pub Holds : (ℕ → ℕ) → ℕ → List ℕ → Type 0
Holds memory a [] = Unit {0}
Holds memory a (c ∷ text) = (memory a ≡ c) × (c ≢ 0) × Holds memory (add32 a 1) text

-- The address after the text.
abbrev pub after : ℕ → List ℕ → ℕ
after a [] = a
after a (c ∷ text) = after (add32 a 1) text

pub chars : List ℕ → List Effect
chars [] = []
chars (c ∷ text) = print_char c ∷ chars text

write_chars_text :
    (left a : ℕ) (memory : ℕ → ℕ) (text : List ℕ)
    → Holds memory a text
    → (length text ≡ left) ⊎ ((length text < left) × (memory (after a text) ≡ 0))
    → write_chars left memory a ≡ chars text
unfolding write_chars chars
write_chars_text zero a memory [] h e = refl
write_chars_text zero a memory (c ∷ text) h (inl e) = absurd (omega arith)
write_chars_text zero a memory (c ∷ text) h (inr e) = absurd (omega arith)
write_chars_text (suc left) a memory [] h (inl e) = absurd (omega arith)
write_chars_text (suc left) a memory [] h (inr e) = rw e.1 refl
write_chars_text (suc left) a memory (c ∷ text) h (inl e) =
    let go : (memory a == 0) ≡ false = ground (arith, h.0, h.1) in
    rw (go, h.0, write_chars_text left (add32 a 1) memory text h.2 (inl (omega arith))) refl
write_chars_text (suc left) a memory (c ∷ text) h (inr e) =
    let go : (memory a == 0) ≡ false = ground (arith, h.0, h.1) in
    let less : length text < left = omega arith in
    rw (go, h.0, write_chars_text left (add32 a 1) memory text h.2 (inr (less, e.1))) refl

-- A write of `edx` characters, fewer than 2^31, to descriptor 1 or 2, where `ecx` points to a text
-- without NUL that has this length or is shorter and ends at a NUL: it prints exactly the text,
-- changes nothing, and returns `edx`, also for the shorter text.
pub sys_write_lem :
    (ticks : ℕ) (s : Syscalls) (p : SyscallParams) (text : List ℕ)
    → (p.ebx == 1 || p.ebx == 2) ≡ true
    → p.edx < 2 ^ 31
    → Holds s.memory p.ecx text
    → (length text ≡ p.edx) ⊎ ((length text < p.edx) × (s.memory (after p.ecx text) ≡ 0))
    → run_syscall sys_write ticks s p ≡ (pos p.edx, s, chars text)
unfolding run_syscall
sys_write_lem ticks s p text screen small h e =
    let low : ltb p.edx (2 ^ 31) ≡ true = ground arith in
    rw (screen, low, write_chars_text p.edx p.ecx s.memory text h e) refl
