-- ===== src/Machine/Depth.antt =====
-- The stack pointer along pushes and pops, and the words above it.
use os_simple.Base.{
  ℕ, zero, suc, ◌+◌, ◌-◌, ◌*◌, ◌/◌, ◌^◌, ◌≤◌, ◌<◌, ◌≡◌, refl, ap, true, false, leb, add32, sub32,
  arith,
}
use os_simple.Machine.Cpu.{r_ebp, Cpu, mov_esp, exec, word_at}

-- The stack pointer after `k` pushes.
unfoldable pub down : ℕ → ℕ → ℕ
down zero e = e
down (suc k) e = sub32 (down k e) 4

pub down-lem : (k e : ℕ) → 4 * k ≤ e → e < 2 ^ 32 → down k e ≡ e - 4 * k
unfolding down
down-lem zero e l h = omega arith
down-lem (suc k) e l h = let before = down-lem k e (omega arith) h in omega arith

unfoldable pub up : ℕ → ℕ → ℕ
up zero e = e
up (suc k) e = add32 (up k e) 4

up-lem : (k e : ℕ) → e + 4 * k < 2 ^ 32 → up k e ≡ e + 4 * k
unfolding up
up-lem zero e h = omega arith
up-lem (suc k) e h = let before = up-lem k e (omega arith) in omega arith

pub up-down : (k e : ℕ) → 4 * k ≤ e → e < 2 ^ 32 → up k (down k e) ≡ e
up-down k e l h =
    let low = down-lem k e l h in let high = up-lem k (down k e) (omega arith) in omega arith

pub stack-word : (c : Cpu) (a k : ℕ) → a ≡ c.esp + 4 * k → word_at c a ≡ c.stack k
stack-word c a k e =
    let above : leb c.esp a ≡ true = ground arith in
    let place : (a - c.esp) / 4 ≡ k = omega arith in rw (above, place) refl

-- A word below the stack.
pub memory-word : (c : Cpu) (a : ℕ) → a < c.esp → word_at c a ≡ c.memory a
memory-word c a l = let below : leb c.esp a ≡ false = ground arith in rw below refl

-- What an interrupted program may rely on: the stack has room, and a segment register has 16 bits.
pub record HasRoom (c : Cpu) : Type 0 where
  pub low : 128 ≤ c.esp
  pub high : c.esp < 2 ^ 32
  pub code : c.cs < 65536
  pub data_segment : c.ds < 65536
  pub extra_segment : c.es < 65536

-- Where `ebp` is the stack pointer already, storing it there changes nothing.
pub mov_esp_same : (c : Cpu) → c.ebp ≡ c.esp → exec (mov_esp r_ebp) c ≡ c
mov_esp_same c e = λ i. record c {
  esp = e i;
  stack = λ n. stack-word c (c.ebp + 4 * n) n (ap (λ p. p + 4 * n) e) i;
}
