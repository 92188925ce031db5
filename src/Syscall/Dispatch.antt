-- ===== src/Syscall/Dispatch.antt =====
-- The dispatcher: its statistics, and which numbers reach a handler.
use os_simple.Base.{
  ℕ, ◌<◌, ◌≡◌, refl, ap, sym, subst, ◌∙◌, true, ◌||◌, List, [], ◌∷◌, Option, none, some, ◌==◌,
  if◌then◌else◌, inl, inr, Bool-cases, update, add32, arith,
}
use os_simple.Base.Int.{ℤ, pos, ltb_ℤ, signed32}
use os_simple.Base.Bits.{all_below, all_below_sound}
use os_simple.Base.Effects.{Effect}
use os_simple.Interrupt.Handlers.{Handlers}
use os_simple.Syscall.{
  Syscalls, SyscallParams, SyscallHandler, SyscallStats, sys_exit, sys_fork, sys_read, sys_write,
  sys_getpid, sys_getuid, sys_time, sys_brk, sys_pause, sys_kill, run_syscall, count_success,
  count_failure, count_result, dispatch, entry_of, handle_syscall, init_syscalls, register_all,
  register_syscall, index,
}

-- The counters' total is the sum of the other two, up to the width of a word.
abbrev pub IsBalanced : SyscallStats → Type 0
IsBalanced c = c.total_calls ≡ add32 c.successful_calls c.failed_calls

-- A run of calls, each at the timer's count of its time.
pub handle_syscalls : List (ℕ × SyscallParams) → Syscalls → Syscalls
handle_syscalls [] s = s
handle_syscalls ((ticks, p) ∷ calls) s = handle_syscalls calls (handle_syscall ticks s p).1

-- No handler changes the statistics.
run_syscall_stats :
    (h : SyscallHandler) (ticks : ℕ) (s : Syscalls) (p : SyscallParams)
    → (run_syscall h ticks s p).1.syscall_stats ≡ s.syscall_stats
unfolding run_syscall
run_syscall_stats sys_exit ticks s p = refl
run_syscall_stats sys_fork ticks s p = refl
run_syscall_stats sys_read ticks s p = refl
run_syscall_stats sys_write ticks s p = elim (Bool-cases (p.ebx == 1 || p.ebx == 2)) [
  | inl screen ↦ rw screen refl
  | inr other ↦ rw other refl
]
run_syscall_stats sys_getpid ticks s p = refl
run_syscall_stats sys_getuid ticks s p = refl
run_syscall_stats sys_time ticks s p = refl
run_syscall_stats sys_brk ticks s p = refl
run_syscall_stats sys_pause ticks s p = refl
run_syscall_stats sys_kill ticks s p = refl

success : (s f : ℕ) → add32 (add32 s f) 1 ≡ add32 (add32 s 1) f
success s f = omega arith

failure : (s f : ℕ) → add32 (add32 s f) 1 ≡ add32 s (add32 f 1)
failure s f = omega arith

count_result-IsBalanced :
    (r : ℤ × Syscalls × List Effect) (c : SyscallStats)
    → r.1.syscall_stats ≡ c
    → c.total_calls ≡ add32 (add32 c.successful_calls c.failed_calls) 1
    → IsBalanced (count_result r).1.syscall_stats
count_result-IsBalanced r c same e =
    subst (λ d. IsBalanced (if ltb_ℤ r.0 (pos 0) then count_failure d else count_success d))
      (sym same)
      (elim (Bool-cases (ltb_ℤ r.0 (pos 0))) [
        | inl bad ↦ rw bad (e ∙ failure c.successful_calls c.failed_calls)
        | inr good ↦ rw good (e ∙ success c.successful_calls c.failed_calls)
      ])

dispatch-IsBalanced :
    (o : Option SyscallHandler) (ticks : ℕ) (s : Syscalls) (p : SyscallParams) (n : ℕ)
    → s.syscall_stats.total_calls
      ≡ add32 (add32 s.syscall_stats.successful_calls s.syscall_stats.failed_calls) 1
    → IsBalanced (dispatch o ticks s p n).1.syscall_stats
dispatch-IsBalanced none ticks s p n e =
    e ∙ failure s.syscall_stats.successful_calls s.syscall_stats.failed_calls
dispatch-IsBalanced (some h) ticks s p n e =
    let calls = s.syscall_stats.calls_per_type in
    let s' : Syscalls = record s {
      syscall_stats = record s.syscall_stats {
        calls_per_type = update calls n (add32 (calls n) 1);
      };
    } in
    count_result-IsBalanced (run_syscall h ticks s' p) s'.syscall_stats
      (run_syscall_stats h ticks s' p) e

-- From statistics whose total is the sum of successes and failures, modulo 2^32, any run of calls,
-- whether their numbers are valid or not and whether the handlers succeed or fail, ends in such
-- statistics.
pub handle_syscalls-IsBalanced :
    (calls : List (ℕ × SyscallParams)) (s : Syscalls)
    → IsBalanced s.syscall_stats
    → IsBalanced (handle_syscalls calls s).syscall_stats
unfolding handle_syscalls handle_syscall
handle_syscalls-IsBalanced [] s b = b
handle_syscalls-IsBalanced ((ticks, p) ∷ calls) s b =
    handle_syscalls-IsBalanced calls (handle_syscall ticks s p).1 (
      dispatch-IsBalanced (entry_of s (signed32 p.eax)) ticks
        (record s {
          syscall_stats = record s.syscall_stats {
            total_calls = add32 s.syscall_stats.total_calls 1;
          };
        })
        p (index (signed32 p.eax)) (ap (λ n. add32 n 1) b))

-- The numbers that `init_syscalls` registers, with their handlers.
abbrev pub handler_of : ℕ → Option SyscallHandler
handler_of n =
    if n == 1
    then some sys_exit
    else if n == 2
    then some sys_fork
    else if n == 3
    then some sys_read
    else if n == 4
    then some sys_write
    else if n == 13
    then some sys_time
    else if n == 20
    then some sys_getpid
    else if n == 24
    then some sys_getuid
    else if n == 29
    then some sys_pause
    else if n == 37
    then some sys_kill
    else if n == 45
    then some sys_brk
    else none

-- Entries by number, to compare them.
abbrev code : Option SyscallHandler → ℕ
code none = 0
code (some sys_exit) = 1
code (some sys_fork) = 2
code (some sys_read) = 3
code (some sys_write) = 4
code (some sys_getpid) = 5
code (some sys_getuid) = 6
code (some sys_time) = 7
code (some sys_brk) = 8
code (some sys_pause) = 9
code (some sys_kill) = 10

abbrev decode : ℕ → Option SyscallHandler
decode n =
    if n == 0
    then none
    else if n == 1
    then some sys_exit
    else if n == 2
    then some sys_fork
    else if n == 3
    then some sys_read
    else if n == 4
    then some sys_write
    else if n == 5
    then some sys_getpid
    else if n == 6
    then some sys_getuid
    else if n == 7
    then some sys_time
    else if n == 8
    then some sys_brk
    else if n == 9
    then some sys_pause
    else if n == 10
    then some sys_kill
    else none

decode-code : (o : Option SyscallHandler) → decode (code o) ≡ o
decode-code none = refl
decode-code (some sys_exit) = refl
decode-code (some sys_fork) = refl
decode-code (some sys_read) = refl
decode-code (some sys_write) = refl
decode-code (some sys_getpid) = refl
decode-code (some sys_getuid) = refl
decode-code (some sys_time) = refl
decode-code (some sys_brk) = refl
decode-code (some sys_pause) = refl
decode-code (some sys_kill) = refl

-- After `init_syscalls`, whatever the tables held before, a number below 64 has its handler in the
-- table exactly when it is one of the ten registered.
pub init_syscalls_lem :
    (s : Syscalls) (handlers : Handlers) (n : ℕ)
    → n < 64
    → entry_of (init_syscalls s handlers).0 (pos n) ≡ handler_of n
unfolding init_syscalls register_all register_syscall all_below
init_syscalls_lem s handlers n l =
    let entry : ℕ → Option SyscallHandler = λ k. entry_of (init_syscalls s handlers).0 (pos k) in
    let same : (code (entry n) == code (handler_of n)) ≡ true =
      all_below_sound 64 (λ k. code (entry k) == code (handler_of k)) n refl l in
    let equal : code (entry n) ≡ code (handler_of n) = ground arith in
    sym (decode-code (entry n)) ∙ ap decode equal ∙ decode-code (handler_of n)
