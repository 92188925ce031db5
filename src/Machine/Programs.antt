-- ===== src/Machine/Programs.antt =====
-- kernel/syscall.h: the macros `SYSCALL0` … `SYSCALL3` and the functions for programs. What interrupt
-- 0x80 does is an argument, and a program's arguments are the words of their registers.
use os_simple.Base.{ℕ, ◌-◌, ◌^◌, ◌<◌, ◌≡◌, refl, ap, ◌∙◌, [], none, add32, arith}
use os_simple.Base.Int.{ℤ, negsuc, signed32}
use os_simple.Base.Outcome.{Outcome, returns, ◌>>=◌}
use os_simple.Interrupt.Handlers.{Handlers}
use os_simple.Syscall.{
  Syscalls, SyscallParams, handle_syscall, entry_of, init_syscalls, dispatch, index,
}
use os_simple.Syscall.Dispatch.{init_syscalls_lem}
use os_simple.Machine.Cpu.{Cpu, Leaves, low_half}
use os_simple.Machine.Depth.{HasRoom}
use os_simple.Machine.Entry.{system_call, dispatched, resumed, system_call_lem}

abbrev pub Trap : Type 0
Trap = Cpu → Syscalls → Outcome (Cpu × Syscalls)

-- The value of a macro: `eax` as an `int`.
abbrev pub returned : Cpu × Syscalls → Outcome (ℤ × Cpu × Syscalls)
returned (c, s) = returns (signed32 c.eax, c, s) []

abbrev pub syscall0 : Trap → ℕ → Cpu → Syscalls → Outcome (ℤ × Cpu × Syscalls)
syscall0 trap num c s = trap (record c { eax = num }) s >>= returned

abbrev pub syscall1 : Trap → ℕ → ℕ → Cpu → Syscalls → Outcome (ℤ × Cpu × Syscalls)
syscall1 trap num arg1 c s = trap (record c { eax = num; ebx = arg1 }) s >>= returned

abbrev pub syscall2 : Trap → ℕ → ℕ → ℕ → Cpu → Syscalls → Outcome (ℤ × Cpu × Syscalls)
syscall2 trap num arg1 arg2 c s =
    trap (record c { eax = num; ebx = arg1; ecx = arg2 }) s >>= returned

abbrev pub syscall3 : Trap → ℕ → ℕ → ℕ → ℕ → Cpu → Syscalls → Outcome (ℤ × Cpu × Syscalls)
syscall3 trap num arg1 arg2 arg3 c s =
    trap (record c { eax = num; ebx = arg1; ecx = arg2; edx = arg3 }) s >>= returned

-- The calls of the functions for programs.
pub data UserCall : Type 0 where
  getpid getuid fork : UserCall
  exit : ℕ → UserCall
  write read : ℕ → ℕ → ℕ → UserCall

-- `exit` gives its value to nobody.
unfoldable pub user_call : Trap → UserCall → Cpu → Syscalls → Outcome (ℤ × Cpu × Syscalls)
user_call trap getpid c s = syscall0 trap 20 c s
user_call trap getuid c s = syscall0 trap 24 c s
user_call trap fork c s = syscall0 trap 2 c s
user_call trap (exit status) c s = syscall1 trap 1 status c s
user_call trap (write fd buf count) c s = syscall3 trap 4 fd buf count c s
user_call trap (read fd buf count) c s = syscall3 trap 3 fd buf count c s

-- A call counted as failed.
abbrev pub refused : Syscalls → Syscalls
refused s = record s {
  syscall_stats = record s.syscall_stats {
    total_calls = add32 s.syscall_stats.total_calls 1;
    failed_calls = add32 s.syscall_stats.failed_calls 1;
  };
}

-- A call with number 16, where no handler has it.
sixteen :
    (ticks : ℕ) (s : Syscalls) (p : SyscallParams)
    → s.syscall_table 16 ≡ none
    → p.eax ≡ 16
    → handle_syscall ticks s p ≡ (negsuc 0, refused s, [])
unfolding handle_syscall
sixteen ticks s p free e =
    let counted : Syscalls = record s {
      syscall_stats = record s.syscall_stats { total_calls = add32 s.syscall_stats.total_calls 1 };
    } in
    ap (λ n. dispatch (entry_of s (signed32 n)) ticks counted p (index (signed32 n))) e
    ∙ ap (λ o. dispatch o ticks counted p 16) free

-- So interrupt 0x80 is, with a small number.
pub system_call-refused :
    (ticks : ℕ) (l : Leaves) (c : Cpu) (s : Syscalls)
    → HasRoom c
    → c.eax < 65536
    → s.syscall_table 16 ≡ none
    → system_call ticks l c s ≡ returns (record c { eax = 2 ^ 32 - 1 }, refused s) []
system_call-refused ticks l c s v small free =
    let number : low_half c.eax 0x10 ≡ 16 = omega arith in
    system_call_lem ticks l c s v ∙ ap (resumed c) (sixteen ticks s (dispatched c) free number)

-- The registers that a call sets.
abbrev asked : UserCall → Cpu → Cpu
asked getpid c = record c { eax = 20 }
asked getuid c = record c { eax = 24 }
asked fork c = record c { eax = 2 }
asked (exit status) c = record c { eax = 1; ebx = status }
asked (write fd buf count) c = record c { eax = 4; ebx = fd; ecx = buf; edx = count }
asked (read fd buf count) c = record c { eax = 3; ebx = fd; ecx = buf; edx = count }

user_call-asked :
    (trap : Trap) (u : UserCall) (c : Cpu) (s : Syscalls)
    → user_call trap u c s ≡ (trap (asked u c) s >>= returned)
unfolding user_call
user_call-asked trap getpid c s = refl
user_call-asked trap getuid c s = refl
user_call-asked trap fork c s = refl
user_call-asked trap (exit status) c s = refl
user_call-asked trap (write fd buf count) c s = refl
user_call-asked trap (read fd buf count) c s = refl

asked-HasRoom : (u : UserCall) (c : Cpu) → HasRoom c → HasRoom (asked u c)
asked-HasRoom getpid c v = omega arith
asked-HasRoom getuid c v = omega arith
asked-HasRoom fork c v = omega arith
asked-HasRoom (exit status) c v = omega arith
asked-HasRoom (write fd buf count) c v = omega arith
asked-HasRoom (read fd buf count) c v = omega arith

asked_small : (u : UserCall) (c : Cpu) → (asked u c).eax < 65536
asked_small getpid c = omega arith
asked_small getuid c = omega arith
asked_small fork c = omega arith
asked_small (exit status) c = omega arith
asked_small (write fd buf count) c = omega arith
asked_small (read fd buf count) c = omega arith

-- After `init_syscalls`, where interrupt 0x80 has a gate to `syscall_entry`, from a program whose stack
-- has room: each of the functions for programs gets -1 and prints nothing, and of the system calls'
-- state only the counts of all calls and of the failed ones change, since the call that is
-- dispatched has number 16, which has no handler.
pub user_call-refused :
    (ticks : ℕ) (l : Leaves) (u : UserCall) (c : Cpu) (s0 : Syscalls) (handlers : Handlers)
    → HasRoom c
    → (c' : Cpu) × (user_call (system_call ticks l) u c (init_syscalls s0 handlers).0
        ≡ returns (negsuc 0, c', refused (init_syscalls s0 handlers).0) [])
user_call-refused ticks l u c s0 handlers v =
    let s : Syscalls = (init_syscalls s0 handlers).0 in
    (
      record (asked u c) { eax = 2 ^ 32 - 1 },
      user_call-asked (system_call ticks l) u c s
          ∙ ap (λ o. o >>= returned)
              (system_call-refused ticks l (asked u c) s (asked-HasRoom u c v) (asked_small u c)
                (init_syscalls_lem s0 handlers 16 (omega arith))),
    )
