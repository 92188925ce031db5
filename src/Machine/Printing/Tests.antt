-- ===== src/Machine/Printing/Tests.antt =====
-- What `test_syscalls` does.
use os_simple.Base.{
  ℕ, suc, ◌+◌, ◌-◌, ◌^◌, ◌≤◌, ◌<◌, ◌≡◌, refl, ap, ◌∙◌, [], none, add32, sub32, arith,
}
use os_simple.Base.Outcome.{returns, after_effects, ◌>>=◌}
use os_simple.Syscall.{Syscalls}
use os_simple.Machine.Cpu.{r_ebp, Cpu, pop, ret, exec, exec_all, push_word, Leaves, finish}
use os_simple.Machine.Depth.{HasRoom, mov_esp_same}
use os_simple.Machine.Entry.{system_call}
use os_simple.Machine.Programs.{Trap, refused, system_call-refused}
use os_simple.Machine.Printing.{test_second, test_third, test_last, trap_after, test_syscalls}

tested : Cpu → ℕ → ℕ → Cpu
tested c number b = record (push_word c.ebp c) { eax = number; ebx = b; ebp = sub32 c.esp 4 }

tested-HasRoom : (c : Cpu) (number b : ℕ) → HasRoom c → 192 ≤ c.esp → HasRoom (tested c number b)
unfolding tested
tested-HasRoom c number b v low = record {
  low = omega arith;
  high = omega arith;
  code = v.code;
  data_segment = v.data_segment;
  extra_segment = v.extra_segment;
}

abbrev pub test_end : Cpu → Cpu
test_end c = record c {
  eax = 2 ^ 32 - 1;
  ebx = 0;
  esp = c.esp + 4;
  eip = c.stack 0;
  stack = λ k. c.stack (suc k);
}

test_last_lem :
    (c : Cpu)
    → 192 ≤ c.esp
    → c.esp + 8 < 2 ^ 32
    → exec_all test_last (tested c (2 ^ 32 - 1) 0) ≡ test_end c
unfolding exec_all tested
test_last_lem c low high =
    let top : add32 (add32 (sub32 c.esp 4) 4) 4 ≡ c.esp + 4 = omega arith in
    ap (λ x. exec ret (exec (pop r_ebp) x)) (mov_esp_same (tested c (2 ^ 32 - 1) 0) refl) ∙ λ i.
    record (test_end c) { esp = top i }

-- `test_syscalls`, from a caller whose stack has room, where no call has number 16: all three of its
-- system calls are refused and nothing is printed; it returns with -1 in `eax` and 0 in `ebx`, and
-- the other registers as they were.
pub test_syscalls-refused :
    (ticks : ℕ) (l : Leaves) (c : Cpu) (s : Syscalls)
    → HasRoom c
    → 192 ≤ c.esp
    → c.esp + 8 < 2 ^ 32
    → s.syscall_table 16 ≡ none
    → test_syscalls (system_call ticks l) c s
      ≡ returns (test_end c, refused (refused (refused s))) []
unfolding test_syscalls exec_all tested
test_syscalls-refused ticks l c s v low high free =
    let trap : Trap = system_call ticks l in
    let one =
      system_call-refused ticks l (tested c 20 c.ebx) s (tested-HasRoom c 20 c.ebx v low)
        (omega arith) free in
    let two =
      system_call-refused ticks l (tested c 24 c.ebx) (refused s) (tested-HasRoom c 24 c.ebx v low)
        (omega arith) free in
    let three =
      system_call-refused ticks l (tested c 13 0) (refused (refused s))
        (tested-HasRoom c 13 0 v low) (omega arith) free in
    ap (λ o. o >>= trap_after trap test_second >>= trap_after trap test_third >>= finish test_last)
      one
    ∙ ap (λ o. after_effects [] o >>= trap_after trap test_third >>= finish test_last) two
    ∙ ap (λ o. after_effects [] o >>= finish test_last) three
    ∙ ap (λ x. returns (x, refused (refused (refused s))) []) (test_last_lem c low high)
