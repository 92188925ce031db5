-- ===== src/Machine/Stubs.antt =====
-- kernel/interrupt_asm.s: the stubs of the exceptions and of the eight lines, and the C functions that
-- they call.
pub mod Resume
pub mod Frames
pub mod Misread
use os_simple.Base.{
  ℕ, ◌+◌, ◌-◌, ◌*◌, ◌/◌, ◌%◌, ◌^◌, ◌≤◌, ◌<◌, ◌≡◌, refl, ap, sym, ◌∙◌, Bool, true, false, List, [],
  ◌∷◌, ◌++◌, append-nil, ◌||◌, ◌&&◌, ◌==◌, if◌then◌else◌, ltb, leb, add32, sub32, inl, inr,
  Bool-cases, arith,
}
use os_simple.Base.Outcome.{Outcome, returns, after_effects, ◌>>=◌}
use os_simple.Interrupt.Service.{InterruptContext}
use os_simple.Kernel.{Kernel}
use os_simple.Kernel.Dispatch.{Devices, SystemEntry, isr_handler, irq_handler}
use os_simple.Machine.Cpu.{
  r_eax, s_ds, s_es, s_fs, s_gs, Cpu, Instruction, push, push_byte, pop, mov_ax, mov_ax_segment,
  mov_segment_ax, add_esp, pusha, popa, cli, sti, iret, exec_all, word_at, first_argument, low_half,
  Leaves, run_around, enter, push_word,
}

-- The exceptions for which the processor pushes an error code.
abbrev pub has_error_code : ℕ → Bool
has_error_code n = n == 8 || leb 10 n && leb n 14

-- The macros `ISR_NOERRCODE`, `ISR_ERRCODE` and `IRQ`, up to their jump; the second argument of `IRQ`
-- is the line's number plus 32.
abbrev pub isr_noerrcode : ℕ → List Instruction
isr_noerrcode n = cli ∷ push_byte 0 ∷ push_byte n ∷ []

abbrev pub isr_errcode : ℕ → List Instruction
isr_errcode n = cli ∷ push_byte n ∷ []

abbrev pub irq : ℕ → List Instruction
irq line = cli ∷ push_byte 0 ∷ push_byte (32 + line) ∷ []

-- `isr_common_stub` and `irq_common_stub` before their calls, and after them.
abbrev pub stub_before : List Instruction
stub_before =
    pusha
    ∷ mov_ax_segment s_ds
    ∷ push r_eax
    ∷ mov_ax 0x10
    ∷ mov_segment_ax s_ds
    ∷ mov_segment_ax s_es
    ∷ mov_segment_ax s_fs
    ∷ mov_segment_ax s_gs
    ∷ []

unfoldable pub stub_after : List Instruction
stub_after =
    pop r_eax
    ∷ mov_segment_ax s_ds
    ∷ mov_segment_ax s_es
    ∷ mov_segment_ax s_fs
    ∷ mov_segment_ax s_gs
    ∷ popa
    ∷ add_esp 2
    ∷ sti
    ∷ iret
    ∷ []

-- The `interrupt_context_t` at an address.
abbrev pub context_by : (ℕ → ℕ) → InterruptContext
context_by word = record {
  edi = word 0;
  esi = word 1;
  ebp = word 2;
  esp = word 3;
  ebx = word 4;
  edx = word 5;
  ecx = word 6;
  eax = word 7;
  int_no = word 8;
  err_code = word 9;
  eip = word 10;
  cs = word 11;
  eflags = word 12;
  useresp = word 13;
  ss = word 14;
}

abbrev pub context_at : Cpu → ℕ → InterruptContext
context_at c p = context_by (λ i. word_at c (add32 p (4 * i)))

-- A C function with a context as its argument and no result, at its first instruction; `value` is what
-- it leaves in `eax`.
abbrev pub handler_c :
    (InterruptContext → Kernel → Outcome Kernel) → ℕ → Cpu → Kernel → Outcome (ℕ × Kernel)
handler_c handler value c k =
    handler (context_at c (first_argument c)) k >>= λ k'. returns (value, k') []

-- An exception, and an interrupt of a line of the first controller, through its gate.
unfoldable pub exception_stub :
    SystemEntry → Devices → ℕ → ℕ → ℕ → Leaves → Cpu → Kernel → Outcome (Cpu × Kernel)
exception_stub entry d value error n l c k =
    if has_error_code n
    then run_around (isr_errcode n ++ stub_before) (handler_c (λ x. isr_handler entry x d) value)
        stub_after l (push_word error (enter c)) k
    else run_around (isr_noerrcode n ++ stub_before) (handler_c (λ x. isr_handler entry x d) value)
        stub_after l (enter c) k

unfoldable pub line_stub :
    SystemEntry → Devices → ℕ → ℕ → Leaves → Cpu → Kernel → Outcome (Cpu × Kernel)
line_stub entry d value line l c k =
    run_around (irq line ++ stub_before) (handler_c (λ x. irq_handler entry x d) value) stub_after l
      (enter c) k
