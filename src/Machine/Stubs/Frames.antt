-- ===== src/Machine/Stubs/Frames.antt =====
-- The context that a stub builds on the stack, and the stubs of the exceptions.
use os_simple.Base.{
  ℕ, ◌+◌, ◌-◌, ◌^◌, ◌≤◌, ◌<◌, ◌≡◌, refl, ap, ◌∙◌, [], ◌++◌, inl, inr, Bool-cases, arith,
}
use os_simple.Base.Outcome.{returns, ◌>>=◌}
use os_simple.Interrupt.Service.{InterruptContext}
use os_simple.Kernel.{Kernel}
use os_simple.Kernel.Dispatch.{Devices, SystemEntry, isr_handler}
use os_simple.Machine.Cpu.{
  Cpu, exec_all, first_argument, Leaves, run_around, after_call, finish, enter, push_word,
}
use os_simple.Machine.Depth.{down, down-lem, HasRoom}
use os_simple.Machine.Stubs.{
  has_error_code, isr_noerrcode, isr_errcode, stub_before, stub_after, context_at, handler_c,
  exception_stub,
}
use os_simple.Machine.Stubs.Resume.{
  called, called_esp, goes_on, memory_context, given_address, context_below, context_third,
  stub_end, noerrcode_end, errcode_end,
}

-- The context of a program that an interrupt with number `n` comes into; the processor pushes no
-- `useresp` and `ss`, and their places are the first words of the program's stack.
abbrev pub context_of : ℕ → Cpu → InterruptContext
context_of n c = record {
  edi = c.edi;
  esi = c.esi;
  ebp = c.ebp;
  esp = c.esp - 20;
  ebx = c.ebx;
  edx = c.edx;
  ecx = c.ecx;
  eax = c.eax;
  int_no = n;
  err_code = 0;
  eip = c.eip;
  cs = c.cs;
  eflags = c.eflags;
  useresp = c.stack 0;
  ss = c.stack 1;
}

-- When a stub of a line calls its C function, from a program whose stack has room and lies above the
-- address that the data segment and the high half of `eax` make up, the stack has, eight bytes above
-- the stack pointer, a context with the program's registers, the line's number and no error code;
-- but the argument that the C function gets is an address below the stack.
pub frame_lem :
    (l : Leaves) (line : ℕ) (c : Cpu)
    → HasRoom c
    → c.esp + 4 < 2 ^ 32
    → given_address c + 120 ≤ c.esp
    → let start = called l (32 + line) c in
      (context_at start (start.esp + 8) ≡ context_of (32 + line) c)
      × (first_argument start < start.esp)
unfolding called exec_all down
frame_lem l line c v high above =
    let esp = called_esp l (32 + line) c v in
    let five : down 5 c.esp ≡ c.esp - 20 = down-lem 5 c.esp (omega arith) (omega arith) in
    (
      context_third (called l (32 + line) c) ((called l (32 + line) c).esp + 8) refl
            (omega (arith, esp))
          ∙ rw five refl,
      omega (arith, esp),
    )

called_with_error : Leaves → ℕ → ℕ → Cpu → Cpu
called_with_error l error n c =
    push_word l.back (exec_all (isr_errcode n ++ stub_before) (push_word error (enter c)))

-- The stub of an exception without an error code, and of one with it.
noerrcode_stub :
    (entry : SystemEntry) (d : Devices) (value n : ℕ) (l : Leaves) (c : Cpu) (k : Kernel)
    → HasRoom c
    → given_address c + 120 ≤ c.esp
    → run_around
        (isr_noerrcode n ++ stub_before)
        (handler_c (λ x. isr_handler entry x d) value)
        stub_after
        l
        (enter c)
        k
      ≡ (isr_handler entry (memory_context c (given_address c)) d k >>= λ k'.
          returns (goes_on l c, k') [])
unfolding run_around called exec_all
noerrcode_stub entry d value n l c k v above =
    let esp = called_esp l n c v in
    ap
      (λ x.
        isr_handler entry x d k
        >>= (λ k'. returns (value, k') [])
        >>= after_call l (exec_all (isr_noerrcode n ++ stub_before) (enter c))
        >>= finish stub_after)
      (context_below (called l n c) (given_address c) (omega arith) (omega arith))
    ∙ stub_end (isr_handler entry (memory_context c (given_address c)) d k) l value
        (exec_all (isr_noerrcode n ++ stub_before) (enter c)) (goes_on l c)
        (noerrcode_end l value n c v)

errcode_stub :
    (entry : SystemEntry) (d : Devices) (value error n : ℕ) (l : Leaves) (c : Cpu) (k : Kernel)
    → HasRoom c
    → given_address c + 120 ≤ c.esp
    → run_around
        (isr_errcode n ++ stub_before)
        (handler_c (λ x. isr_handler entry x d) value)
        stub_after
        l
        (push_word error (enter c))
        k
      ≡ (isr_handler entry (memory_context c (given_address c)) d k >>= λ k'.
          returns (goes_on l c, k') [])
unfolding run_around called_with_error exec_all down
errcode_stub entry d value error n l c k v above =
    let esp : (called_with_error l error n c).esp ≡ c.esp - 60 =
      down-lem 15 c.esp (omega arith) (omega arith) in
    ap
      (λ x.
        isr_handler entry x d k
        >>= (λ k'. returns (value, k') [])
        >>= after_call l (exec_all (isr_errcode n ++ stub_before) (push_word error (enter c)))
        >>= finish stub_after)
      (context_below (called_with_error l error n c) (given_address c) (omega arith) (omega arith))
    ∙ stub_end (isr_handler entry (memory_context c (given_address c)) d k) l value
        (exec_all (isr_errcode n ++ stub_before) (push_word error (enter c))) (goes_on l c)
        (errcode_end l value error n c v)

-- Through the stub of any exception, with an error code or without, from such a program: `isr_handler`
-- runs once, and takes the words of memory from that address on for the context, so that neither the
-- exception nor its error code makes a difference; if it returns, the program goes on as after an
-- interrupt of a line, and the error code is off its stack.
pub exception_stub_lem :
    (entry : SystemEntry) (d : Devices) (value error n : ℕ) (l : Leaves) (c : Cpu) (k : Kernel)
    → HasRoom c
    → given_address c + 120 ≤ c.esp
    → exception_stub entry d value error n l c k ≡ (
        isr_handler entry (memory_context c (given_address c)) d k >>= λ k'.
        returns (goes_on l c, k') [])
unfolding exception_stub
exception_stub_lem entry d value error n l c k v above = elim (Bool-cases (has_error_code n)) [
  | inl with_error ↦ rw with_error (errcode_stub entry d value error n l c k v above)
  | inr plain ↦ rw plain (noerrcode_stub entry d value n l c k v above)
]
