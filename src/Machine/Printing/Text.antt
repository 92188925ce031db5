-- ===== src/Machine/Printing/Text.antt =====
-- What `syscall_print` does with its text.
use os_simple.Base.{
  ℕ, zero, suc, ◌+◌, ◌-◌, ◌^◌, ◌≤◌, ◌<◌, ◌≡◌, refl, ap, sym, subst, ◌∙◌, false, List, [], ◌∷◌, ◌++◌,
  append-nil, some, ◌==◌, length, add32, sub32, arith,
}
use os_simple.Base.Int.{ℤ, unsigned32}
use os_simple.Base.Effects.{Effect}
use os_simple.Base.Outcome.{Outcome, returns, ◌>>=◌}
use os_simple.Syscall.{Syscalls, SyscallParams, handle_syscall}
use os_simple.Syscall.Writing.{Holds, after}
use os_simple.Machine.Cpu.{
  r_ebp, r_esi, r_edi, Cpu, pop, mov_esp, ret, exec, exec_all, push_word, word_at, Leaves, finish,
}
use os_simple.Machine.Depth.{down, down-lem, up, up-down, stack-word, HasRoom, mov_esp_same}
use os_simple.Machine.Entry.{system_call, dispatched, resumed, system_call_lem}
use os_simple.Machine.Printing.{
  print_before, print_call, print_after, count_loop, print_counted, syscall_print,
}

-- The loop ends at the NUL.
count_loop_lem :
    (left a edi : ℕ) (memory : ℕ → ℕ) (text : List ℕ)
    → Holds memory (add32 a edi) text
    → memory (after (add32 a edi) text) ≡ 0
    → length text < left
    → edi + length text < 2 ^ 32
    → count_loop left memory a edi ≡ some (edi + length text)
unfolding count_loop
count_loop_lem zero a edi memory text h e l small = absurd (omega arith)
count_loop_lem (suc left) a edi memory [] h e l small = rw e (ap some (omega arith))
count_loop_lem (suc left) a edi memory (x ∷ text) h e l small =
    let go : (memory (add32 a edi) == 0) ≡ false = ground (arith, h.0, h.1) in
    let place : add32 (add32 a edi) 1 ≡ add32 a (add32 edi 1) = omega arith in
    let next : add32 edi 1 ≡ edi + 1 = omega arith in
    let rest =
      count_loop_lem left a (add32 edi 1) memory text (subst (λ p. Holds memory p text) place h.2)
        (subst (λ p. memory (after p text) ≡ 0) place e) (omega arith) (omega (arith, next)) in
    rw (go, rest) (ap some (omega (arith, next)))

-- After the pushes, and when the text's address is in `esi`.
pushed_three : Cpu → Cpu
pushed_three c =
    push_word c.edi (push_word c.esi (record (push_word c.ebp c) { ebp = sub32 c.esp 4 }))

-- The argument is the fifth word of the stack.
argument-word :
    (c x : Cpu)
    → 192 ≤ c.esp
    → c.esp + 8 < 2 ^ 32
    → x.esp ≡ down 3 c.esp
    → word_at x (add32 (down 1 c.esp) 8) ≡ x.stack 4
argument-word c x low high e =
    let one = down-lem 1 c.esp (omega arith) (omega arith) in
    let three = down-lem 3 c.esp (omega arith) (omega arith) in
    stack-word x (add32 (down 1 c.esp) 8) 4 (omega (arith, one, three, e))

-- When the interrupt comes, with `n` characters counted.
calling : Cpu → ℕ → Cpu
calling c n = record (pushed_three c) {
  eax = 4;
  ebx = 1;
  ecx = c.stack 1;
  edx = n;
  esi = c.stack 1;
  edi = n;
}

before-argument :
    (c : Cpu) → 192 ≤ c.esp → c.esp + 8 < 2 ^ 32 → (exec_all print_before c).esi ≡ c.stack 1
unfolding exec_all down pushed_three
before-argument c low high = argument-word c (pushed_three c) low high refl

call-calling :
    (c : Cpu) (n : ℕ)
    → 192 ≤ c.esp
    → c.esp + 8 < 2 ^ 32
    → exec_all print_call (record (exec_all print_before c) { edi = n }) ≡ calling c n
unfolding exec_all down pushed_three calling
call-calling c n low high =
    let esi = before-argument c low high in
    let x : Cpu = record (exec_all print_before c) { eax = 4; ebx = 1; edi = n } in
    let ecx = argument-word c x low high refl in
    λ i. record (pushed_three c) { eax = 4; ebx = 1; ecx = ecx i; edx = n; esi = esi i; edi = n }

-- The caller goes on, with `r` in `eax` after `n` characters.
abbrev pub returned_to : Cpu → ℕ → ℕ → Cpu
returned_to c n r = record c {
  eax = r;
  ebx = 1;
  ecx = c.stack 1;
  edx = n;
  esp = c.esp + 4;
  eip = c.stack 0;
  stack = λ k. c.stack (suc k);
}

after-calling :
    (c : Cpu) (n r : ℕ)
    → 192 ≤ c.esp
    → c.esp + 8 < 2 ^ 32
    → exec_all print_after (record (calling c n) { eax = r }) ≡ returned_to c n r
unfolding exec_all down up pushed_three calling
after-calling c n r low high =
    let popped : Cpu = exec (pop r_esi) (exec (pop r_edi) (record (calling c n) { eax = r })) in
    let one = down-lem 1 c.esp (omega arith) (omega arith) in
    let level : up 2 (down 3 c.esp) ≡ down 1 c.esp =
      up-down 2 (down 1 c.esp) (omega (arith, one)) (omega (arith, one)) in
    let same : exec (mov_esp r_ebp) popped ≡ popped = mov_esp_same popped (sym level) in
    let top : up 4 (down 3 c.esp) ≡ c.esp + 4 =
      let three = up-down 3 c.esp (omega arith) (omega arith) in omega (arith, three) in
    ap (λ x. exec ret (exec (pop r_ebp) x)) same ∙ λ i. record (returned_to c n r) { esp = top i }

-- The structure that `handle_syscall` is given for a text of `n` characters.
abbrev pub print_params : Cpu → ℕ → SyscallParams
print_params c n = record { eax = 16; ebx = 1; ecx = c.stack 1; edx = n; esi = c.stack 1; edi = n }

abbrev pub printed : Cpu → ℕ → ℤ × Syscalls × List Effect → Outcome (Cpu × Syscalls)
printed c n (result, s, out) = returns (returned_to c n (unsigned32 result), s) out

print_end :
    (c : Cpu) (n : ℕ) (r : ℤ × Syscalls × List Effect)
    → 192 ≤ c.esp
    → c.esp + 8 < 2 ^ 32
    → (resumed (calling c n) r >>= finish print_after) ≡ printed c n r
print_end c n (result, s, out) low high =
    ap (λ x. returns (x, s) (out ++ [])) (after-calling c n (unsigned32 result) low high)
    ∙ ap (returns (returned_to c n (unsigned32 result), s)) (append-nil out)

calling-HasRoom : (c : Cpu) (n : ℕ) → HasRoom c → 192 ≤ c.esp → HasRoom (calling c n)
unfolding calling pushed_three down
calling-HasRoom c n v low =
    let three : (calling c n).esp ≡ c.esp - 12 = down-lem 3 c.esp (omega arith) (omega arith) in
    record {
      low = omega (arith, three);
      high = omega (arith, three);
      code = v.code;
      data_segment = v.data_segment;
      extra_segment = v.extra_segment;
    }

-- `syscall_print` with the address of a text that ends with a NUL, from a caller whose stack has room,
-- and with more rounds for its loop than the text has characters: it returns. The system call has
-- the text's address and length as its arguments, and descriptor 1, but number 16 in place of 4; the
-- caller goes on behind its call with the result in `eax`, and `ebp`, `esi`, `edi` and the segment
-- registers as they were, but with 1 in `ebx`.
pub syscall_print_lem :
    (ticks rounds : ℕ) (l : Leaves) (c : Cpu) (s : Syscalls) (text : List ℕ)
    → HasRoom c
    → 192 ≤ c.esp
    → c.esp + 8 < 2 ^ 32
    → c.stack 1 < 2 ^ 32
    → Holds s.memory (c.stack 1) text
    → s.memory (after (c.stack 1) text) ≡ 0
    → length text < rounds
    → length text < 2 ^ 32
    → syscall_print (system_call ticks l) rounds c s
      ≡ printed c (length text) (handle_syscall ticks s (print_params c (length text)))
unfolding syscall_print exec_all calling
syscall_print_lem ticks rounds l c s text v low high word h e more small =
    let n : ℕ = length text in
    let a : ℕ = c.stack 1 in
    let begun : Cpu = exec_all print_before c in
    let start : add32 a 0 ≡ a = omega arith in
    let counted : count_loop rounds s.memory begun.esi 0 ≡ some n =
      ap (λ p. count_loop rounds s.memory p 0) (before-argument c low high)
      ∙ count_loop_lem rounds a 0 s.memory text (subst (λ p. Holds s.memory p text) (sym start) h)
          (subst (λ p. s.memory (after p text) ≡ 0) (sym start) e) more (omega arith)
      ∙ ap some (omega arith) in
    ap (print_counted (system_call ticks l) begun s) counted
    ∙ ap (λ x. system_call ticks l x s >>= finish print_after) (call-calling c n low high)
    ∙ ap (λ o. o >>= finish print_after)
        (system_call_lem ticks l (calling c n) s (calling-HasRoom c n v low))
    ∙ print_end c n (handle_syscall ticks s (dispatched (calling c n))) low high
