-- ===== src/Syscall.antt =====
-- kernel/syscall.c and syscall.h: the table of system calls, the dispatcher and its statistics, and the
-- ten handlers. A handler is known by its name. The timer's count, which `sys_time` reads, is an
-- argument, and what it writes through the pointer in `ebx` goes to a memory of its own: a pointer into
-- the kernel's variables is not modelled. PIDs of `sys_fork` are not bounded: the C `int` would overflow after 2^31 calls.
pub mod Dispatch
pub mod Writing
pub mod Examples
use os_simple.Base.{
  ℕ, zero, suc, ◌+◌, ◌/◌, ◌%◌, Bool, true, false, not, ◌||◌, ◌&&◌, List, [], ◌∷◌, ◌++◌, Option,
  none, some, ◌==◌, ltb, if◌then◌else◌, update, add32,
}
use os_simple.Base.Int.{ℤ, pos, negsuc, ltb_ℤ, signed32}
use os_simple.Base.Effects.{Effect, print_char}
use os_simple.Interrupt.Handlers.{Handlers, syscall_entry, register_interrupt_handler}

pub record SyscallParams : Type 0 where
  pub eax : ℕ
  pub ebx : ℕ
  pub ecx : ℕ
  pub edx : ℕ
  pub esi : ℕ
  pub edi : ℕ

pub data SyscallHandler : Type 0 where
  sys_exit sys_fork sys_read sys_write sys_getpid : SyscallHandler
  sys_getuid sys_time sys_brk sys_pause sys_kill : SyscallHandler

pub record SyscallStats : Type 0 where
  pub total_calls : ℕ
  pub successful_calls : ℕ
  pub failed_calls : ℕ
  pub calls_per_type : ℕ → ℕ

-- The static variables, with the `next_pid` of `sys_fork`, and the memory that the handlers read
-- and write, by its bytes.
pub record Syscalls : Type 0 where
  pub syscall_table : ℕ → Option SyscallHandler
  pub syscall_stats : SyscallStats
  pub current_time : ℕ
  pub current_uid : ℕ
  pub next_pid : ℕ
  pub memory : ℕ → ℕ

abbrev pub nr_syscalls : ℕ
nr_syscalls = 64

abbrev pub is_valid_syscall : ℤ → Bool
is_valid_syscall (pos n) = ltb n nr_syscalls
is_valid_syscall (negsuc n) = false

-- The index of a valid number.
abbrev pub index : ℤ → ℕ
index (pos n) = n
index (negsuc n) = 0

unfoldable pub register_syscall : Syscalls → ℤ → SyscallHandler → Syscalls
register_syscall s num handler =
    if is_valid_syscall num
    then record s { syscall_table = update s.syscall_table (index num) (some handler) }
    else s

-- `for (i = first; i < first + left; i++) array[i] = value`.
abbrev pub fill {ℓ} : {A : Type ℓ} → ℕ → ℕ → A → (ℕ → A) → ℕ → A
fill zero i value array = array
fill (suc left) i value array = fill left (i + 1) value (update array i value)

abbrev pub setup_syscall_gate : Handlers → Handlers
setup_syscall_gate handlers = register_interrupt_handler handlers 0x80 syscall_entry

-- The ten calls of `register_syscall`.
unfoldable pub register_all : Syscalls → Syscalls
register_all s0 =
    let s1 = register_syscall s0 (pos 1) sys_exit in
    let s2 = register_syscall s1 (pos 2) sys_fork in
    let s3 = register_syscall s2 (pos 3) sys_read in
    let s4 = register_syscall s3 (pos 4) sys_write in
    let s5 = register_syscall s4 (pos 20) sys_getpid in
    let s6 = register_syscall s5 (pos 24) sys_getuid in
    let s7 = register_syscall s6 (pos 13) sys_time in
    let s8 = register_syscall s7 (pos 45) sys_brk in
    let s9 = register_syscall s8 (pos 29) sys_pause in register_syscall s9 (pos 37) sys_kill

unfoldable pub init_syscalls : Syscalls → Handlers → Syscalls × Handlers
init_syscalls s handlers =
    let cleared = record s { syscall_table = fill nr_syscalls 0 none s.syscall_table } in
    let registered = register_all cleared in
    (
      record registered {
        syscall_stats = record {
          total_calls = 0;
          successful_calls = 0;
          failed_calls = 0;
          calls_per_type = fill nr_syscalls 0 0 registered.syscall_stats.calls_per_type;
        };
      },
      setup_syscall_gate handlers,
    )

-- The loop of `sys_write`, with `left` characters to go.
unfoldable pub write_chars : ℕ → (ℕ → ℕ) → ℕ → List Effect
write_chars zero memory buf = []
write_chars (suc left) memory buf =
    let rest = write_chars left memory (add32 buf 1) in
    if memory buf == 0 then [] else print_char (memory buf) ∷ rest

-- The rounds that `i < count` allows.
abbrev pub rounds : ℤ → ℕ
rounds (pos n) = n
rounds (negsuc n) = 0

-- `*address = value`, least byte first.
abbrev pub store32 : (ℕ → ℕ) → ℕ → ℕ → ℕ → ℕ
store32 memory address value =
    update
      (update (update (update memory address (value % 256)) (add32 address 1) (value / 256 % 256))
        (add32 address 2) (value / 65536 % 256))
      (add32 address 3) (value / 16777216 % 256)

-- The call of a handler: its result, the new state, and what it prints.
unfoldable pub run_syscall :
    SyscallHandler → ℕ → Syscalls → SyscallParams → ℤ × Syscalls × List Effect
run_syscall sys_exit ticks s p = (pos 0, s, [])
run_syscall sys_fork ticks s p = (pos s.next_pid, record s { next_pid = s.next_pid + 1 }, [])
run_syscall sys_read ticks s p = (if p.ebx == 0 then pos 0 else negsuc 0, s, [])
run_syscall sys_write ticks s p =
    if p.ebx == 1 || p.ebx == 2
    then (signed32 p.edx, s, write_chars (rounds (signed32 p.edx)) s.memory p.ecx)
    else (negsuc 0, s, [])
run_syscall sys_getpid ticks s p = (pos 1, s, [])
run_syscall sys_getuid ticks s p = (signed32 s.current_uid, s, [])
run_syscall sys_time ticks s p =
    let now = ticks / 100 in
    (
      signed32 now,
      record s {
        current_time = now;
        memory = if p.ebx == 0 then s.memory else store32 s.memory p.ebx now;
      },
      [],
    )
run_syscall sys_brk ticks s p = (signed32 p.ebx, s, [])
run_syscall sys_pause ticks s p = (pos 0, s, [])
run_syscall sys_kill ticks s p = (pos 0, s, [])

abbrev pub count_success : SyscallStats → SyscallStats
count_success c = record c { successful_calls = add32 c.successful_calls 1 }

abbrev pub count_failure : SyscallStats → SyscallStats
count_failure c = record c { failed_calls = add32 c.failed_calls 1 }

-- The end of `handle_syscall` after the handler has returned.
abbrev pub count_result : ℤ × Syscalls × List Effect → ℤ × Syscalls × List Effect
count_result (result, s, out) = (
  result,
  record s {
    syscall_stats =
        if ltb_ℤ result (pos 0)
        then count_failure s.syscall_stats
        else count_success s.syscall_stats;
  },
  out,
)

-- `handle_syscall` after the total is counted, by the entry of the table, which is null for a number
-- that is not valid.
abbrev pub dispatch :
    Option SyscallHandler → ℕ → Syscalls → SyscallParams → ℕ → ℤ × Syscalls × List Effect
dispatch none ticks s p n =
    (negsuc 0, record s { syscall_stats = count_failure s.syscall_stats }, [])
dispatch (some handler) ticks s p n =
    let calls = s.syscall_stats.calls_per_type in
    count_result (
      run_syscall handler ticks
        (record s {
          syscall_stats = record s.syscall_stats {
            calls_per_type = update calls n (add32 (calls n) 1);
          };
        })
        p)

abbrev pub entry_of : Syscalls → ℤ → Option SyscallHandler
entry_of s num = if is_valid_syscall num then s.syscall_table (index num) else none

unfoldable pub handle_syscall : ℕ → Syscalls → SyscallParams → ℤ × Syscalls × List Effect
handle_syscall ticks s p =
    let num = signed32 p.eax in
    dispatch (entry_of s num) ticks
      (record s {
        syscall_stats = record s.syscall_stats {
          total_calls = add32 s.syscall_stats.total_calls 1;
        };
      })
      p (index num)

abbrev pub get_syscall_stats : Syscalls → SyscallStats
get_syscall_stats s = s.syscall_stats
