-- ===== src/Machine/Entry.antt =====
-- kernel/syscall_asm.s: `syscall_entry`, and the C function that it calls.
use os_simple.Base.{
  ℕ, ◌+◌, ◌-◌, ◌%◌, ◌^◌, ◌≤◌, ◌<◌, ◌≡◌, refl, ap, ◌∙◌, List, [], ◌∷◌, append-nil, add32, arith,
}
use os_simple.Base.Int.{ℤ, unsigned32}
use os_simple.Base.Effects.{Effect}
use os_simple.Base.Outcome.{Outcome, returns, ◌>>=◌}
use os_simple.Syscall.{Syscalls, SyscallParams, handle_syscall}
use os_simple.Machine.Cpu.{
  r_eax, r_ecx, r_edx, r_ebx, r_ebp, r_esi, r_edi, r_esp, s_ds, s_es, Cpu, Instruction, push,
  push_segment, pop, pop_segment, mov, mov_ax, mov_segment_ax, mov_to_stack, add_esp, iret,
  exec_all, word_at, first_argument, low_half, Leaves, run_around, after_call, finish, enter,
  push_word,
}
use os_simple.Machine.Depth.{down, down-lem, up, up-down, stack-word, HasRoom}

-- The instructions of `syscall_entry` before its call of `handle_syscall`.
unfoldable pub entry_before : List Instruction
entry_before =
    push r_eax
    ∷ push r_ebx
    ∷ push r_ecx
    ∷ push r_edx
    ∷ push r_esi
    ∷ push r_edi
    ∷ push r_ebp
    ∷ push_segment s_ds
    ∷ push_segment s_es
    ∷ mov_ax 0x10
    ∷ mov_segment_ax s_ds
    ∷ mov_segment_ax s_es
    ∷ push r_edi
    ∷ push r_esi
    ∷ push r_edx
    ∷ push r_ecx
    ∷ push r_ebx
    ∷ push r_eax
    ∷ mov r_eax r_esp
    ∷ push r_eax
    ∷ []

-- And after it.
unfoldable pub entry_after : List Instruction
entry_after =
    add_esp 1
    ∷ mov r_ebx r_eax
    ∷ add_esp 6
    ∷ mov_to_stack 8 r_ebx
    ∷ pop_segment s_es
    ∷ pop_segment s_ds
    ∷ pop r_ebp
    ∷ pop r_edi
    ∷ pop r_esi
    ∷ pop r_edx
    ∷ pop r_ecx
    ∷ pop r_ebx
    ∷ pop r_eax
    ∷ iret
    ∷ []

-- The `syscall_params_t` at an address.
abbrev pub params_at : Cpu → ℕ → SyscallParams
params_at c p = record {
  eax = word_at c p;
  ebx = word_at c (add32 p 4);
  ecx = word_at c (add32 p 8);
  edx = word_at c (add32 p 12);
  esi = word_at c (add32 p 16);
  edi = word_at c (add32 p 20);
}

abbrev pub as_outcome : ℤ × Syscalls × List Effect → Outcome (ℕ × Syscalls)
as_outcome (result, s, out) = returns (unsigned32 result, s) out

-- `handle_syscall` at its first instruction; the timer's count is an argument.
abbrev pub handle_syscall_c : ℕ → Cpu → Syscalls → Outcome (ℕ × Syscalls)
handle_syscall_c ticks c s = as_outcome (handle_syscall ticks s (params_at c (first_argument c)))

-- Interrupt 0x80 through a gate to `syscall_entry`.
unfoldable pub system_call : ℕ → Leaves → Cpu → Syscalls → Outcome (Cpu × Syscalls)
system_call ticks l c s = run_around entry_before (handle_syscall_c ticks) entry_after l (enter c) s

-- The structure at the third word of the stack.
params_at_third :
    (c : Cpu) (p : ℕ)
    → p ≡ c.esp + 8
    → c.esp + 32 < 2 ^ 32
    → params_at c p ≡ record {
      eax = c.stack 2;
      ebx = c.stack 3;
      ecx = c.stack 4;
      edx = c.stack 5;
      esi = c.stack 6;
      edi = c.stack 7;
    }
params_at_third c p e l =
    rw
      (
        stack-word c p 2 (omega arith),
        stack-word c (add32 p 4) 3 (omega arith),
        stack-word c (add32 p 8) 4 (omega arith),
        stack-word c (add32 p 12) 5 (omega arith),
        stack-word c (add32 p 16) 6 (omega arith),
        stack-word c (add32 p 20) 7 (omega arith),
      )
      refl

-- The structure that `handle_syscall` is given.
abbrev pub dispatched : Cpu → SyscallParams
dispatched c = record {
  eax = low_half c.eax 0x10;
  ebx = c.ebx;
  ecx = c.ecx;
  edx = c.edx;
  esi = c.esi;
  edi = c.edi;
}

-- `handle_syscall` starts with this state.
called : Leaves → Cpu → Cpu
called l c = push_word l.back (exec_all entry_before (enter c))

called_params :
    (c : Cpu) (l : Leaves)
    → 128 ≤ c.esp
    → c.esp < 2 ^ 32
    → params_at (called l c) (first_argument (called l c)) ≡ dispatched c
unfolding entry_before exec_all down called
called_params c l low high =
    let p : down 18 c.esp ≡ c.esp - 72 = down-lem 18 c.esp (omega arith) (omega arith) in
    let e : down 20 c.esp ≡ c.esp - 80 = down-lem 20 c.esp (omega arith) (omega arith) in
    params_at_third (called l c) (down 18 c.esp) (omega (arith, e, p)) (omega (arith, e))

-- The interrupted program goes on, with the result in `eax`.
abbrev pub resumed : Cpu → ℤ × Syscalls × List Effect → Outcome (Cpu × Syscalls)
resumed c (result, s, out) = returns (record c { eax = unsigned32 result }, s) out

left_with :
    (c : Cpu) (l : Leaves) (r : ℤ × Syscalls × List Effect)
    → HasRoom c
    → (as_outcome r >>= after_call l (exec_all entry_before (enter c)) >>= finish entry_after)
      ≡ resumed c r
unfolding entry_before entry_after exec_all down up
left_with c l (result, s, out) v =
    let e : up 19 (down 19 c.esp) ≡ c.esp = up-down 19 c.esp (omega arith) (omega arith) in
    let cs : c.cs % 65536 ≡ c.cs = omega arith in
    let ds : c.ds % 65536 ≡ c.ds = omega arith in
    let es : c.es % 65536 ≡ c.es = omega arith in rw (e, cs, ds, es, append-nil, append-nil) refl

-- Interrupt 0x80, through a gate to `syscall_entry`, from a program whose stack has room and does not
-- wrap around: `handle_syscall` is called once, with the program's registers as the arguments, but
-- for the number, whose low half is 16 whatever the program has put there; then the program goes on
-- with the result in `eax` and every other register, flag and word of its stack as it was, whatever
-- the C code leaves in the registers it may use.
pub system_call_lem :
    (ticks : ℕ) (l : Leaves) (c : Cpu) (s : Syscalls)
    → HasRoom c
    → system_call ticks l c s ≡ resumed c (handle_syscall ticks s (dispatched c))
unfolding system_call run_around called
system_call_lem ticks l c s v =
    ap
      (λ p.
        as_outcome (handle_syscall ticks s p)
        >>= after_call l (exec_all entry_before (enter c))
        >>= finish entry_after)
      (called_params c l v.low v.high)
    ∙ left_with c l (handle_syscall ticks s (dispatched c)) v
