-- ===== src/Machine/Printing.antt =====
-- kernel/syscall_asm.s: `syscall_print` and `test_syscalls`, from their first instruction to their
-- return. What interrupt 0x80 does is an argument, and the text is in the system calls' memory.
pub mod Text
pub mod Tests
use os_simple.Base.{
  ℕ, zero, suc, ◌+◌, ◌-◌, ◌*◌, ◌/◌, ◌%◌, ◌^◌, ◌≤◌, ◌<◌, ◌≡◌, refl, ap, sym, subst, ◌∙◌, true, false,
  List, [], ◌∷◌, ◌++◌, append-nil, Option, none, some, ◌==◌, if◌then◌else◌, leb, length, add32,
  sub32, arith,
}
use os_simple.Base.Int.{ℤ, negsuc, unsigned32}
use os_simple.Base.Effects.{Effect}
use os_simple.Base.Outcome.{Outcome, returns, unfinished, after_effects, ◌>>=◌}
use os_simple.Syscall.{Syscalls, SyscallParams, handle_syscall}
use os_simple.Syscall.Writing.{Holds, after}
use os_simple.Machine.Cpu.{
  r_eax, r_ecx, r_edx, r_ebx, r_ebp, r_esi, r_edi, r_esp, Cpu, Instruction, push, pop, mov, mov_imm,
  load, mov_esp, ret, exec, exec_all, push_word, word_at, Leaves, finish,
}
use os_simple.Machine.Depth.{down, down-lem, up, up-down, stack-word, HasRoom}
use os_simple.Machine.Entry.{system_call, dispatched, resumed, system_call_lem}
use os_simple.Machine.Programs.{Trap, refused, system_call-refused}

-- `syscall_print` before its loop, up to the interrupt, and after it.
abbrev pub print_before : List Instruction
print_before =
    push r_ebp
    ∷ mov r_ebp r_esp
    ∷ push r_esi
    ∷ push r_edi
    ∷ load r_esi r_ebp 8
    ∷ mov_imm r_edi 0
    ∷ []

abbrev pub print_call : List Instruction
print_call = mov_imm r_eax 4 ∷ mov_imm r_ebx 1 ∷ load r_ecx r_ebp 8 ∷ mov r_edx r_edi ∷ []

abbrev pub print_after : List Instruction
print_after = pop r_edi ∷ pop r_esi ∷ mov_esp r_ebp ∷ pop r_ebp ∷ ret ∷ []

-- The loop `count_loop`, with rounds to go; `none` when it has not ended.
unfoldable pub count_loop : ℕ → (ℕ → ℕ) → ℕ → ℕ → Option ℕ
count_loop zero memory esi edi = none
count_loop (suc left) memory esi edi =
    let rest = count_loop left memory esi (add32 edi 1) in
    if memory (add32 esi edi) == 0 then some edi else rest

abbrev pub print_counted : Trap → Cpu → Syscalls → Option ℕ → Outcome (Cpu × Syscalls)
print_counted trap c s none = unfinished
print_counted trap c s (some n) =
    trap (exec_all print_call (record c { edi = n })) s >>= finish print_after

unfoldable pub syscall_print : Trap → ℕ → Cpu → Syscalls → Outcome (Cpu × Syscalls)
syscall_print trap rounds c s =
    let begun = exec_all print_before c in
    print_counted trap begun s (count_loop rounds s.memory begun.esi begun.edi)

-- `test_syscalls` around its three interrupts.
abbrev pub test_first : List Instruction
test_first = push r_ebp ∷ mov r_ebp r_esp ∷ mov_imm r_eax 20 ∷ []

abbrev pub test_second : List Instruction
test_second = mov_imm r_eax 24 ∷ []

abbrev pub test_third : List Instruction
test_third = mov_imm r_eax 13 ∷ mov_imm r_ebx 0 ∷ []

abbrev pub test_last : List Instruction
test_last = mov_esp r_ebp ∷ pop r_ebp ∷ ret ∷ []

abbrev pub trap_after : Trap → List Instruction → Cpu × Syscalls → Outcome (Cpu × Syscalls)
trap_after trap program (c, s) = trap (exec_all program c) s

unfoldable pub test_syscalls : Trap → Cpu → Syscalls → Outcome (Cpu × Syscalls)
test_syscalls trap c s =
    trap (exec_all test_first c) s
    >>= trap_after trap test_second
    >>= trap_after trap test_third
    >>= finish test_last
