-- ===== src/Machine/Stubs/Resume.antt =====
-- How the interrupted program goes on after a stub, and which context the C function gets.
use os_simple.Base.{
  ℕ, suc, ◌+◌, ◌-◌, ◌*◌, ◌%◌, ◌^◌, ◌≤◌, ◌<◌, ◌≡◌, refl, ap, ◌∙◌, [], ◌++◌, append-nil, add32, arith,
}
use os_simple.Base.Outcome.{Outcome, returns, hangs, unfinished, ◌>>=◌}
use os_simple.Interrupt.Service.{InterruptContext}
use os_simple.Kernel.{Kernel}
use os_simple.Kernel.Dispatch.{Devices, SystemEntry, irq_handler}
use os_simple.Machine.Cpu.{
  Cpu, exec_all, word_at, low_half, Leaves, run_around, after_call, finish, put_word, enter,
  push_word,
}
use os_simple.Machine.Depth.{down, down-lem, up, up-down, stack-word, memory-word, HasRoom}
use os_simple.Machine.Stubs.{
  isr_noerrcode, isr_errcode, irq, stub_before, stub_after, context_by, context_at, line_stub,
}

-- The processor after the call, and the program that goes on: its segment registers have the low half of
-- what the C function leaves in the word of its argument.
abbrev pub left : Leaves → ℕ → Cpu → Cpu
left l value c = record c {
  eax = value;
  ecx = l.ecx;
  edx = l.edx;
  stack = put_word 0 l.argument c.stack;
}

abbrev pub goes_on : Leaves → Cpu → Cpu
goes_on l c = record c {
  ds = l.argument % 65536;
  es = l.argument % 65536;
  fs = l.argument % 65536;
  gs = l.argument % 65536;
}

pub noerrcode_end :
    (l : Leaves) (value n : ℕ) (c : Cpu)
    → HasRoom c
    → exec_all stub_after (left l value (exec_all (isr_noerrcode n ++ stub_before) (enter c)))
      ≡ goes_on l c
unfolding exec_all stub_after down up
noerrcode_end l value n c v =
    let e : up 14 (down 14 c.esp) ≡ c.esp = up-down 14 c.esp (omega arith) (omega arith) in
    let cs : c.cs % 65536 ≡ c.cs = omega arith in rw (e, cs) refl

pub errcode_end :
    (l : Leaves) (value error n : ℕ) (c : Cpu)
    → HasRoom c
    → exec_all stub_after
        (left l value (exec_all (isr_errcode n ++ stub_before) (push_word error (enter c))))
      ≡ goes_on l c
unfolding exec_all stub_after down up
errcode_end l value error n c v =
    let e : up 14 (down 14 c.esp) ≡ c.esp = up-down 14 c.esp (omega arith) (omega arith) in
    let cs : c.cs % 65536 ≡ c.cs = omega arith in rw (e, cs) refl

-- The end of a stub, by what the C function comes to.
pub stub_end :
    (o : Outcome Kernel) (l : Leaves) (value : ℕ) (x y : Cpu)
    → exec_all stub_after (left l value x) ≡ y
    → ((o >>= λ k. returns (value, k) []) >>= after_call l x >>= finish stub_after)
      ≡ (o >>= λ k. returns (y, k) [])
stub_end (returns k out) l value x y e = rw (append-nil, append-nil, append-nil, e) refl
stub_end (hangs out) l value x y e = refl
stub_end unfinished l value x y e = refl

-- The words of memory from an address on.
abbrev pub memory_context : Cpu → ℕ → InterruptContext
memory_context c p = context_by (λ i. c.memory (p + 4 * i))

-- The address that a C function gets in place of one of its context: the data segment, below what
-- `eax` has in its high half.
abbrev pub given_address : Cpu → ℕ
given_address c = low_half c.eax c.ds

-- A context by words that agree.
same_context : (f g : ℕ → ℕ) → ((i : ℕ) → i < 15 → f i ≡ g i) → context_by f ≡ context_by g
same_context f g h = λ j. record {
  edi = h 0 (omega arith) j;
  esi = h 1 (omega arith) j;
  ebp = h 2 (omega arith) j;
  esp = h 3 (omega arith) j;
  ebx = h 4 (omega arith) j;
  edx = h 5 (omega arith) j;
  ecx = h 6 (omega arith) j;
  eax = h 7 (omega arith) j;
  int_no = h 8 (omega arith) j;
  err_code = h 9 (omega arith) j;
  eip = h 10 (omega arith) j;
  cs = h 11 (omega arith) j;
  eflags = h 12 (omega arith) j;
  useresp = h 13 (omega arith) j;
  ss = h 14 (omega arith) j;
}

pub context_below :
    (c : Cpu) (p : ℕ) → p + 60 ≤ c.esp → c.esp < 2 ^ 32 → context_at c p ≡ memory_context c p
context_below c p l h =
    same_context (λ i. word_at c (add32 p (4 * i))) (λ i. c.memory (p + 4 * i))
      (λ i few.
        let same : add32 p (4 * i) ≡ p + 4 * i = omega arith in
        ap (word_at c) same ∙ memory-word c (p + 4 * i) (omega arith))

-- The words that the stub has pushed for a context start at the third of the stack.
pub context_third :
    (c : Cpu) (p : ℕ)
    → p ≡ c.esp + 8
    → c.esp + 64 < 2 ^ 32
    → context_at c p ≡ context_by (λ i. c.stack (suc (suc i)))
context_third c p e h =
    same_context (λ i. word_at c (add32 p (4 * i))) (λ i. c.stack (suc (suc i)))
      (λ i few.
        let same : add32 p (4 * i) ≡ c.esp + 4 * (suc (suc i)) = omega arith in
        stack-word c (add32 p (4 * i)) (suc (suc i)) same)

-- The C function starts with this state, for a stub that pushes an error code.
unfoldable pub called : Leaves → ℕ → Cpu → Cpu
called l n c = push_word l.back (exec_all (isr_noerrcode n ++ stub_before) (enter c))

pub called_esp : (l : Leaves) (n : ℕ) (c : Cpu) → HasRoom c → (called l n c).esp ≡ c.esp - 60
unfolding called exec_all down
called_esp l n c v = down-lem 15 c.esp (omega arith) (omega arith)

-- Through the stub of any line, from a program whose stack has room and lies above the address that the
-- data segment and the high half of `eax` make up: `irq_handler` runs once, and takes the words of
-- memory from that address on for the context, so that the line that has interrupted makes no
-- difference; if it returns, the program goes on with every register, flag and word of its stack as
-- it was, but for the segment registers, which all get the low half of the word that the C function
-- leaves in the place of its argument.
pub line_stub_lem :
    (entry : SystemEntry) (d : Devices) (value line : ℕ) (l : Leaves) (c : Cpu) (k : Kernel)
    → HasRoom c
    → given_address c + 120 ≤ c.esp
    → line_stub entry d value line l c k ≡ (
        irq_handler entry (memory_context c (given_address c)) d k >>= λ k'.
        returns (goes_on l c, k') [])
unfolding line_stub run_around called exec_all
line_stub_lem entry d value line l c k v above =
    let esp = called_esp l (32 + line) c v in
    let context : context_at (called l (32 + line) c) (given_address c)
        ≡ memory_context c (given_address c) =
      context_below (called l (32 + line) c) (given_address c) (omega arith) (omega arith) in
    ap
      (λ x.
        irq_handler entry x d k
        >>= (λ k'. returns (value, k') [])
        >>= after_call l (exec_all (irq line ++ stub_before) (enter c))
        >>= finish stub_after)
      context
    ∙ stub_end (irq_handler entry (memory_context c (given_address c)) d k) l value
        (exec_all (irq line ++ stub_before) (enter c)) (goes_on l c)
        (noerrcode_end l value (32 + line) c v)
