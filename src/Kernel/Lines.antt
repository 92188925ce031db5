-- ===== src/Kernel/Lines.antt =====
-- The handlers of the first controller's lines, as registrations leave them.
use os_simple.Base.{
  ℕ, zero, suc, ◌+◌, ◌%◌, ◌≤◌, ◌<◌, ◌≡◌, refl, ap, sym, ◌∙◌, true, false, none, some, ◌==◌, ◌⊎◌,
  inl, inr, Bool-cases, update, arith,
}
use os_simple.Interrupt.Handlers.{
  Handler, Handlers, timer_handler, keyboard_handler, divide_error_handler, page_fault_handler,
  general_protection_fault_handler, register_interrupt_handler,
}
use os_simple.Interrupt.Service.{Interrupts, clear_handlers, register_handlers, init_interrupts}
use os_simple.Kernel.Invariant.{calm, enters}

-- A registration at another line, or of a handler that returns, keeps a line calm.
pub register-calm :
    (t : Handlers) (num : ℕ) (h : Handler) (n : ℕ)
    → ((n == num % 256) ≡ false) ⊎ (calm (some h) ≡ true)
    → calm (t n) ≡ true
    → calm (register_interrupt_handler t num h n) ≡ true
unfolding register_interrupt_handler
register-calm t num h n o e = elim (Bool-cases (n == num % 256)) [
  | inl hit ↦ elim o [
    | inl apart ↦ let clash : true ≡ false = sym hit ∙ apart in cc
    | inr quiet ↦ rw hit quiet
  ]
  | inr miss ↦ rw miss e
]

pub clear_handlers-none :
    (left i n : ℕ) (t : Handlers)
    → ((i ≤ n) × (n < i + left)) ⊎ (t n ≡ none)
    → clear_handlers left i t n ≡ none
unfolding clear_handlers
clear_handlers-none zero i n t (inl w) = absurd (omega arith)
clear_handlers-none zero i n t (inr h) = h
clear_handlers-none (suc left) i n t h = elim (Bool-cases (n == i)) [
  | inl hit ↦ clear_handlers-none left (i + 1) n (update t i none) (inr (rw hit refl))
  | inr miss ↦
      clear_handlers-none left (i + 1) n (update t i none)
        (elim h [ inl w ↦ inl (ground arith, omega arith) | inr e ↦ inr (rw miss e) ])
]

-- The lines of the first controller after `init_interrupts`.
register_handlers-calm :
    (t : Handlers) (n : ℕ)
    → 32 ≤ n
    → n < 40
    → calm (t n) ≡ true
    → calm (register_handlers t n) ≡ true
unfolding register_handlers
register_handlers-calm t n low high e = register-calm _ 0x21 keyboard_handler n (inr refl) (
    register-calm _ 0x20 timer_handler n (inr refl) (
      register-calm _ 0x0D general_protection_fault_handler n (inl (ground arith)) (
        register-calm _ 0x0E page_fault_handler n (inl (ground arith))
          (register-calm t 0x00 divide_error_handler n (inl (ground arith)) e))))

pub init_interrupts-calm :
    (isr irq : ℕ → ℕ) (s : Interrupts) (n : ℕ)
    → 32 ≤ n
    → n < 40
    → calm ((init_interrupts isr irq s).0.interrupt_handlers n) ≡ true
unfolding init_interrupts
init_interrupts-calm isr irq s n low high =
    register_handlers-calm (clear_handlers 256 0 s.interrupt_handlers) n low high
      (ap calm (clear_handlers-none 256 0 n s.interrupt_handlers (inl (omega arith, omega arith))))

-- A registration at another number, or of another handler, does not put the system calls' entry there.
pub register-enters :
    (t : Handlers) (num : ℕ) (h : Handler) (n : ℕ)
    → ((n == num % 256) ≡ false) ⊎ (enters (some h) ≡ false)
    → enters (t n) ≡ false
    → enters (register_interrupt_handler t num h n) ≡ false
unfolding register_interrupt_handler
register-enters t num h n o e = elim (Bool-cases (n == num % 256)) [
  | inl hit ↦ elim o [
    | inl apart ↦ let clash : true ≡ false = sym hit ∙ apart in cc
    | inr other ↦ rw hit other
  ]
  | inr miss ↦ rw miss e
]

register_handlers-enters :
    (t : Handlers) (n : ℕ) → enters (t n) ≡ false → enters (register_handlers t n) ≡ false
unfolding register_handlers
register_handlers-enters t n e = register-enters _ 0x21 keyboard_handler n (inr refl) (
    register-enters _ 0x20 timer_handler n (inr refl) (
      register-enters _ 0x0D general_protection_fault_handler n (inr refl) (
        register-enters _ 0x0E page_fault_handler n (inr refl)
          (register-enters t 0x00 divide_error_handler n (inr refl) e))))

pub init_interrupts-enters :
    (isr irq : ℕ → ℕ) (s : Interrupts) (n : ℕ)
    → n < 256
    → enters ((init_interrupts isr irq s).0.interrupt_handlers n) ≡ false
unfolding init_interrupts
init_interrupts-enters isr irq s n small =
    register_handlers-enters (clear_handlers 256 0 s.interrupt_handlers) n (
      ap enters (clear_handlers-none 256 0 n s.interrupt_handlers (inl (omega arith, omega arith))))
