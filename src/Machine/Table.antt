-- ===== src/Machine/Table.antt =====
-- kernel/interrupt_asm.s: `load_idt`.
use os_simple.Base.{ℕ, suc, ◌+◌, ◌%◌, ◌^◌, ◌<◌, ◌≡◌, ◌∙◌, ap, List, [], ◌∷◌, add32, arith}
use os_simple.Machine.Cpu.{
  r_eax, r_esp, Cpu, Instruction, load, lidt, ret, drop_word, exec_all, word_at,
}
use os_simple.Machine.Depth.{stack-word, memory-word}

unfoldable pub load_idt : List Instruction
load_idt = load r_eax r_esp 4 ∷ lidt r_eax ∷ ret ∷ []

-- `load_idt` with the address of a pointer below the stack: the processor's table is what that pointer
-- says, and the caller goes on with nothing else changed but `eax`.
pub load_idt_lem :
    (c : Cpu) (limit base : ℕ)
    → c.esp + 4 < 2 ^ 32
    → c.stack 1 + 2 < c.esp
    → c.memory (c.stack 1) % 65536 ≡ limit
    → c.memory (c.stack 1 + 2) ≡ base
    → exec_all load_idt c ≡ record c {
      eax = c.stack 1;
      idt_limit = limit;
      idt_base = base;
      eip = c.stack 0;
      esp = c.esp + 4;
      stack = λ n. c.stack (suc n);
    }
unfolding exec_all load_idt
load_idt_lem c limit base high low e f =
    let p : ℕ = c.stack 1 in
    let argument : word_at c (add32 c.esp 4) ≡ p = stack-word c (add32 c.esp 4) 1 (omega arith) in
    let second : add32 p 2 ≡ p + 2 = omega arith in
    let size : word_at c p % 65536 ≡ limit =
      ap (λ x. x % 65536) (memory-word c p (omega arith)) ∙ e in
    let place : word_at c (add32 p 2) ≡ base =
      ap (word_at c) second ∙ memory-word c (p + 2) low ∙ f in
    let top : add32 c.esp 4 ≡ c.esp + 4 = omega arith in
    ap
      (λ x. drop_word (record c {
        eax = x;
        eip = c.stack 0;
        idt_limit = word_at c x % 65536;
        idt_base = word_at c (add32 x 2);
      }))
      argument
    ∙ λ i. record c {
      eax = p;
      idt_limit = size i;
      idt_base = place i;
      eip = c.stack 0;
      esp = top i;
      stack = λ n. c.stack (suc n);
    }
