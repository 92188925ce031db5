-- ===== src/Machine/Cpu.antt =====
-- The part of the processor that the assembly uses: registers, the stack and its instructions. The
-- stack is the words from `esp` on, by their distance from it in words; the other words of memory are
-- a function of the address of their first byte. A segment register has 16 bits, and a load of it
-- does not fault. The flags that sums and comparisons set are left out.
use os_simple.Base.{
  ℕ, zero, suc, ◌+◌, ◌-◌, ◌*◌, ◌/◌, ◌%◌, List, [], ◌∷◌, if◌then◌else◌, leb, add32, sub32,
}
use os_simple.Base.Outcome.{Outcome, returns, ◌>>=◌}

pub data Register : Type 0 where
  r_eax r_ecx r_edx r_ebx r_ebp r_esi r_edi r_esp : Register

pub data Segment : Type 0 where
  s_ds s_es s_fs s_gs : Segment

pub record Cpu : Type 0 where
  pub eax : ℕ
  pub ecx : ℕ
  pub edx : ℕ
  pub ebx : ℕ
  pub ebp : ℕ
  pub esi : ℕ
  pub edi : ℕ
  pub esp : ℕ
  pub ds : ℕ
  pub es : ℕ
  pub fs : ℕ
  pub gs : ℕ
  pub eip : ℕ
  pub cs : ℕ
  pub eflags : ℕ
  pub idt_limit : ℕ
  pub idt_base : ℕ
  pub stack : ℕ → ℕ
  pub memory : ℕ → ℕ

abbrev pub value_of : Register → Cpu → ℕ
value_of r_eax c = c.eax
value_of r_ecx c = c.ecx
value_of r_edx c = c.edx
value_of r_ebx c = c.ebx
value_of r_ebp c = c.ebp
value_of r_esi c = c.esi
value_of r_edi c = c.edi
value_of r_esp c = c.esp

abbrev pub with_value : Register → ℕ → Cpu → Cpu
with_value r_eax v c = record c { eax = v }
with_value r_ecx v c = record c { ecx = v }
with_value r_edx v c = record c { edx = v }
with_value r_ebx v c = record c { ebx = v }
with_value r_ebp v c = record c { ebp = v }
with_value r_esi v c = record c { esi = v }
with_value r_edi v c = record c { edi = v }
with_value r_esp v c = record c { esp = v }

abbrev pub segment_of : Segment → Cpu → ℕ
segment_of s_ds c = c.ds
segment_of s_es c = c.es
segment_of s_fs c = c.fs
segment_of s_gs c = c.gs

abbrev pub with_segment : Segment → ℕ → Cpu → Cpu
with_segment s_ds v c = record c { ds = v }
with_segment s_es v c = record c { es = v }
with_segment s_fs v c = record c { fs = v }
with_segment s_gs v c = record c { gs = v }

-- A word on top of the stack, and the word at a place.
abbrev pub pushed : ℕ → (ℕ → ℕ) → ℕ → ℕ
pushed v stack zero = v
pushed v stack (suc n) = stack n

abbrev pub put_word : ℕ → ℕ → (ℕ → ℕ) → ℕ → ℕ
put_word zero v stack = pushed v (λ n. stack (suc n))
put_word (suc k) v stack = pushed (stack 0) (put_word k v (λ n. stack (suc n)))

abbrev pub push_word : ℕ → Cpu → Cpu
push_word v c = record c { esp = sub32 c.esp 4; stack = pushed v c.stack }

abbrev pub drop_word : Cpu → Cpu
drop_word c = record c { esp = add32 c.esp 4; stack = λ n. c.stack (suc n) }

abbrev pub drop_words : ℕ → Cpu → Cpu
drop_words zero c = c
drop_words (suc n) c = drop_words n (drop_word c)

-- The word at an address.
abbrev pub word_at : Cpu → ℕ → ℕ
word_at c a = if leb c.esp a then c.stack ((a - c.esp) / 4) else c.memory a

-- The interrupt flag is bit 9.
abbrev pub flag_off : ℕ → ℕ
flag_off e = e - 512 * (e / 512 % 2)

abbrev pub flag_on : ℕ → ℕ
flag_on e = flag_off e + 512

-- `mov_ax` stores the low half of `eax`; the offset of `mov_to_stack` and the sum of `add_esp` are in
-- words; `load r q k` is `mov r, [q+k]`; `esp` is not stored to by `mov`, but by `mov_esp`.
pub data Instruction : Type 0 where
  push : Register → Instruction
  push_byte : ℕ → Instruction
  push_segment : Segment → Instruction
  pop : Register → Instruction
  pop_segment : Segment → Instruction
  mov : Register → Register → Instruction
  mov_imm : Register → ℕ → Instruction
  mov_ax : ℕ → Instruction
  mov_ax_segment : Segment → Instruction
  mov_segment_ax : Segment → Instruction
  mov_to_stack : ℕ → Register → Instruction
  load : Register → Register → ℕ → Instruction
  mov_esp : Register → Instruction
  lidt : Register → Instruction
  add_esp : ℕ → Instruction
  pusha popa cli sti iret ret : Instruction

abbrev pub low_half : ℕ → ℕ → ℕ
low_half e v = e / 65536 * 65536 + v

abbrev pub push_all : Cpu → Cpu
push_all c = push_word c.edi (
    push_word c.esi (
      push_word c.ebp (
        push_word c.esp (push_word c.ebx (push_word c.edx (push_word c.ecx (push_word c.eax c)))))))

-- The word for `esp` is passed over.
abbrev pub pop_all : Cpu → Cpu
pop_all c = drop_words 8 (record c {
  edi = c.stack 0;
  esi = c.stack 1;
  ebp = c.stack 2;
  ebx = c.stack 4;
  edx = c.stack 5;
  ecx = c.stack 6;
  eax = c.stack 7;
})

abbrev pub exec : Instruction → Cpu → Cpu
exec (push r) c = push_word (value_of r c) c
exec (push_byte n) c = push_word n c
exec (push_segment s) c = push_word (segment_of s c) c
exec (pop r) c = with_value r (c.stack 0) (drop_word c)
exec (pop_segment s) c = with_segment s (c.stack 0 % 65536) (drop_word c)
exec (mov r q) c = with_value r (value_of q c) c
exec (mov_imm r n) c = with_value r n c
exec (mov_ax n) c = record c { eax = low_half c.eax n }
exec (mov_ax_segment s) c = record c { eax = low_half c.eax (segment_of s c) }
exec (mov_segment_ax s) c = with_segment s (c.eax % 65536) c
exec (mov_to_stack k r) c = record c { stack = put_word k (value_of r c) c.stack }
exec (load r q k) c = with_value r (word_at c (add32 (value_of q c) k)) c
exec (mov_esp q) c = record c { esp = value_of q c; stack = λ n. word_at c (value_of q c + 4 * n) }
exec (lidt q) c = record c {
  idt_limit = word_at c (value_of q c) % 65536;
  idt_base = word_at c (add32 (value_of q c) 2);
}
exec (add_esp n) c = drop_words n c
exec pusha c = push_all c
exec popa c = pop_all c
exec cli c = record c { eflags = flag_off c.eflags }
exec sti c = record c { eflags = flag_on c.eflags }
exec iret c =
    drop_words 3 (record c { eip = c.stack 0; cs = c.stack 1 % 65536; eflags = c.stack 2 })
exec ret c = drop_word (record c { eip = c.stack 0 })

unfoldable pub exec_all : List Instruction → Cpu → Cpu
exec_all [] c = c
exec_all (i ∷ program) c = exec_all program (exec i c)

-- What a C function with one argument may leave, by the calling convention: two registers and the word
-- of its argument; and the address that it returns to.
pub record Leaves : Type 0 where
  pub ecx : ℕ
  pub edx : ℕ
  pub argument : ℕ
  pub back : ℕ

abbrev pub after_call {ℓ} : {S : Type ℓ} → Leaves → Cpu → ℕ × S → Outcome (Cpu × S)
after_call l c (value, s) =
    returns
      (record c { eax = value; ecx = l.ecx; edx = l.edx; stack = put_word 0 l.argument c.stack }, s)
      []

-- `call` of a C function, which gets the processor's state at its first instruction and gives the
-- value in `eax` and the state of its own variables.
abbrev pub call_c {ℓ} :
    {S : Type ℓ} → (Cpu → S → Outcome (ℕ × S)) → Leaves → Cpu → S → Outcome (Cpu × S)
call_c body l c s = body (push_word l.back c) s >>= after_call l c

-- The first argument of a C function at its first instruction.
abbrev pub first_argument : Cpu → ℕ
first_argument c = c.stack 1

abbrev pub finish {ℓ} : {S : Type ℓ} → List Instruction → Cpu × S → Outcome (Cpu × S)
finish program (c, s) = returns (exec_all program c, s) []

-- A program with one call of a C function, by the instructions before it and after it.
unfoldable pub run_around {ℓ} :
    {S : Type ℓ}
    → List Instruction
    → (Cpu → S → Outcome (ℕ × S))
    → List Instruction
    → Leaves
    → Cpu
    → S
    → Outcome (Cpu × S)
run_around before body after l c s = call_c body l (exec_all before c) s >>= finish after

-- The processor enters a handler through an interrupt gate: it pushes its flags and where it was, and
-- turns interrupts off.
abbrev pub enter : Cpu → Cpu
enter c =
    let saved = push_word c.eip (push_word c.cs (push_word c.eflags c)) in
    record saved { eflags = flag_off c.eflags }
