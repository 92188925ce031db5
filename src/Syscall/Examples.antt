-- ===== src/Syscall/Examples.antt =====
-- The system calls' theorems on small inputs: a write of `Hi` with a count of four, and a bad number.
use os_simple.Base.{◌≡◌, refl, none, [], ◌∷◌, inr, if◌then◌else◌, ◌==◌, arith}
use os_simple.Base.Int.{pos}
use os_simple.Syscall.{Syscalls, SyscallParams, run_syscall, sys_write}
use os_simple.Syscall.Dispatch.{IsBalanced, handle_syscalls, handle_syscalls-IsBalanced}
use os_simple.Syscall.Writing.{chars, sys_write_lem}

-- `Hi` and a NUL from address 5000 on.
abbrev pub start : Syscalls
start = record {
  syscall_table = λ n. none;
  syscall_stats = record {
    total_calls = 0;
    successful_calls = 0;
    failed_calls = 0;
    calls_per_type = λ n. 0;
  };
  current_time = 0;
  current_uid = 0;
  next_pid = 100;
  memory = λ a. if a == 5000 then b'H' else if a == 5001 then b'i' else 0;
}

abbrev write : SyscallParams
write = record { eax = 4; ebx = 1; ecx = 5000; edx = 4; esi = 0; edi = 0 }

handle_syscalls-IsBalanced_example :
    IsBalanced
      (handle_syscalls ((3, write) ∷ (4, record write { eax = 70 }) ∷ []) start).syscall_stats
handle_syscalls-IsBalanced_example =
    handle_syscalls-IsBalanced ((3, write) ∷ (4, record write { eax = 70 }) ∷ []) start refl

sys_write_example : run_syscall sys_write 3 start write ≡ (pos 4, start, chars (b'H' ∷ b'i' ∷ []))
sys_write_example =
    sys_write_lem 3 start write (b'H' ∷ b'i' ∷ []) refl (omega arith)
      (refl, omega arith, (refl, omega arith, tt)) (inr (omega arith, refl))
