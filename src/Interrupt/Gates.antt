-- ===== src/Interrupt/Gates.antt =====
-- kernel/interrupt.c: the interrupt descriptor table (`init_idt`, `set_idt_entry`), `init_pic` and
-- `send_eoi`. The addresses of the assembly stubs, `isr0` … `isr14` and `irq0` … `irq7`, are
-- parameters. `idt_ptr`, which holds the table's own address, is left out.
use os_simple.Base.{
  ℕ, zero, suc, ◌+◌, ◌*◌, ◌/◌, ◌%◌, ◌^◌, ◌≤◌, ◌<◌, ◌≡◌, ◌≢◌, refl, ◌∙◌, Bool, true, false, List, [],
  ◌∷◌, ◌&&◌, ◌==◌, ltb, leb, if◌then◌else◌, ◌⊎◌, inl, inr, Bool-cases, update, arith,
}
use os_simple.Base.Effects.{Effect, outb}

pub record IdtEntry : Type 0 where
  pub offset_low : ℕ
  pub selector : ℕ
  pub zero_byte : ℕ
  pub type_attr : ℕ
  pub offset_high : ℕ

abbrev pub idt_size : ℕ
idt_size = 256

abbrev pub interrupt_gate : ℕ
interrupt_gate = 0x8E

abbrev pub clear_entry : IdtEntry
clear_entry = record { offset_low = 0; selector = 0; zero_byte = 0; type_attr = 0; offset_high = 0 }

-- The masks with 0xFFFF are remainders; `num` is a `uint8_t`.
abbrev pub gate : ℕ → ℕ → ℕ → IdtEntry
gate base sel flags = record {
  offset_low = base % 65536;
  selector = sel;
  zero_byte = 0;
  type_attr = flags;
  offset_high = base / 65536 % 65536;
}

unfoldable pub set_idt_entry : (ℕ → IdtEntry) → ℕ → ℕ → ℕ → ℕ → ℕ → IdtEntry
set_idt_entry idt num base sel flags = update idt (num % 256) (gate base sel flags)

-- The first loop of `init_idt`.
unfoldable pub clear_idt : ℕ → ℕ → (ℕ → IdtEntry) → ℕ → IdtEntry
clear_idt zero i idt = idt
clear_idt (suc left) i idt = clear_idt left (i + 1) (update idt i clear_entry)

-- Calls of `set_idt_entry` with the kernel's selector, in order.
unfoldable pub set_gates : List (ℕ × ℕ) → (ℕ → IdtEntry) → ℕ → IdtEntry
set_gates [] idt = idt
set_gates ((num, base) ∷ gates) idt =
    set_gates gates (set_idt_entry idt num base 0x08 interrupt_gate)

abbrev pub exception_gates : (ℕ → ℕ) → List (ℕ × ℕ)
exception_gates isr =
    (0, isr 0)
    ∷ (1, isr 1)
    ∷ (2, isr 2)
    ∷ (3, isr 3)
    ∷ (4, isr 4)
    ∷ (5, isr 5)
    ∷ (6, isr 6)
    ∷ (7, isr 7)
    ∷ (8, isr 8)
    ∷ (10, isr 10)
    ∷ (11, isr 11)
    ∷ (12, isr 12)
    ∷ (13, isr 13)
    ∷ (14, isr 14)
    ∷ []

abbrev pub irq_gates : (ℕ → ℕ) → List (ℕ × ℕ)
irq_gates irq =
    (32, irq 0)
    ∷ (33, irq 1)
    ∷ (34, irq 2)
    ∷ (35, irq 3)
    ∷ (36, irq 4)
    ∷ (37, irq 5)
    ∷ (38, irq 6)
    ∷ (39, irq 7)
    ∷ []

unfoldable pub init_idt : (ℕ → ℕ) → (ℕ → ℕ) → (ℕ → IdtEntry) → ℕ → IdtEntry
init_idt isr irq idt =
    set_gates (irq_gates irq) (set_gates (exception_gates isr) (clear_idt idt_size 0 idt))

unfoldable pub init_pic : List Effect
init_pic =
    outb 0x20 0x11
    ∷ outb 0xA0 0x11
    ∷ outb 0x21 0x20
    ∷ outb 0xA1 0x28
    ∷ outb 0x21 0x04
    ∷ outb 0xA1 0x02
    ∷ outb 0x21 0x01
    ∷ outb 0xA1 0x01
    ∷ outb 0x21 0x00
    ∷ outb 0xA1 0x00
    ∷ []

unfoldable pub send_eoi : ℕ → List Effect
send_eoi irq = if leb 8 irq then outb 0xA0 0x20 ∷ outb 0x20 0x20 ∷ [] else outb 0x20 0x20 ∷ []

-- The address that the processor reads from an entry.
abbrev pub offset : IdtEntry → ℕ
offset e = e.offset_low + 65536 * e.offset_high

-- An entry that `set_idt_entry` has filled leads to the given 32-bit address, and every other entry
-- is as it was.
pub set_idt_entry_lem :
    (idt : ℕ → IdtEntry) (num base sel flags : ℕ)
    → num < 256
    → base < 2 ^ 32
    → (offset (set_idt_entry idt num base sel flags num) ≡ base)
      × ((other : ℕ) → other ≢ num → set_idt_entry idt num base sel flags other ≡ idt other)
unfolding set_idt_entry
set_idt_entry_lem idt num base sel flags n b =
    let byte : num % 256 ≡ num = omega arith in
    let here : (num == num) ≡ true = ground arith in
    (
      rw (byte, here) (omega arith),
      λ other ne. let apart : (other == num) ≡ false = ground arith in rw (byte, apart) refl,
    )

-- Where the loop has been, the entries are clear.
clear_idt_lem :
    (left i n : ℕ) (idt : ℕ → IdtEntry)
    → ((i ≤ n) × (n < i + left)) ⊎ (idt n ≡ clear_entry)
    → clear_idt left i idt n ≡ clear_entry
unfolding clear_idt
clear_idt_lem zero i n idt (inl w) = absurd (omega arith)
clear_idt_lem zero i n idt (inr h) = h
clear_idt_lem (suc left) i n idt h = elim (Bool-cases (n == i)) [
  | inl hit ↦ clear_idt_lem left (i + 1) n (update idt i clear_entry) (inr (rw hit refl))
  | inr miss ↦
      clear_idt_lem left (i + 1) n (update idt i clear_entry)
        (elim h [ inl w ↦ inl (ground arith, omega arith) | inr e ↦ inr (rw miss e) ])
]

-- Every gate of the list has a number below 40.
abbrev below_forty : List (ℕ × ℕ) → Bool
below_forty [] = true
below_forty ((num, base) ∷ gates) = ltb (num % 256) 40 && below_forty gates

-- Setting such gates leaves the entries from 40 on.
set_gates_other :
    (gates : List (ℕ × ℕ)) (idt : ℕ → IdtEntry) (n : ℕ)
    → 40 ≤ n
    → below_forty gates ≡ true
    → set_gates gates idt n ≡ idt n
unfolding set_gates set_idt_entry
set_gates_other [] idt n l h = refl
set_gates_other ((num, base) ∷ gates) idt n l h =
    let first : ltb (num % 256) 40 ≡ true = ground arith in
    let others : below_forty gates ≡ true = ground arith in
    let apart : (n == num % 256) ≡ false = ground arith in
    set_gates_other gates (set_idt_entry idt num base 0x08 interrupt_gate) n l others
    ∙ rw apart refl

-- After `init_idt`, whatever the table held before, every entry from 40 to 255 is zero, that of
-- interrupt 0x80 among them.
pub init_idt_absent :
    (isr irq : ℕ → ℕ) (idt : ℕ → IdtEntry) (n : ℕ)
    → 40 ≤ n
    → n < 256
    → init_idt isr irq idt n ≡ clear_entry
unfolding init_idt
init_idt_absent isr irq idt n l u =
    let cleared : ℕ → IdtEntry = clear_idt idt_size 0 idt in
    set_gates_other (irq_gates irq) (set_gates (exception_gates isr) cleared) n l refl
    ∙ set_gates_other (exception_gates isr) cleared n l refl
    ∙ clear_idt_lem 256 0 n idt (inl (omega arith, omega arith))
