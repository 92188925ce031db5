-- ===== src/Kernel/Exceptions.antt =====
-- What the processor's exceptions do, once `init_interrupts` has registered the handlers.
use os_simple.Base.{
  ℕ, ◌+◌, ◌%◌, ◌^◌, [], ◌<◌, ◌≡◌, refl, ap, sym, ◌∙◌, false, List, ◌∷◌, Option, none, some, ◌==◌,
  if◌then◌else◌, inl, inr, Bool-cases, arith,
}
use os_simple.Base.Effects.{Effect, print_string, print_bytes, print_hex}
use os_simple.Base.Outcome.{Outcome, returns, hangs}
use os_simple.Interrupt.Handlers.{
  Handler, Handlers, divide_error_handler, page_fault_handler, general_protection_fault_handler,
  register_interrupt_handler,
}
use os_simple.Interrupt.Messages.{
  division_by_zero, page_fault_at, protection_fault, unhandled_exception, interrupt_number,
  error_code,
}
use os_simple.Interrupt.Service.{
  InterruptContext, clear_handlers, register_handlers, init_interrupts, print_interrupt_info,
  handle_divide_error, handle_page_fault, handle_general_protection_fault,
}
use os_simple.Syscall.{init_syscalls}
use os_simple.Kernel.{Kernel}
use os_simple.Kernel.Dispatch.{
  Devices, SystemEntry, count_interrupt, run_handler, run_exception, isr_handler,
}
use os_simple.Kernel.Boot.{Image, start_devices}
use os_simple.Kernel.Lines.{clear_handlers-none}

-- The exceptions that the kernel has a handler for.
abbrev pub exception_handler : ℕ → Option Handler
exception_handler n =
    if n == 0
    then some divide_error_handler
    else if n == 13
    then some general_protection_fault_handler
    else if n == 14
    then some page_fault_handler
    else none

register_handlers-exception :
    (t : Handlers) (n : ℕ) → n < 32 → t n ≡ none → register_handlers t n ≡ exception_handler n
unfolding register_handlers register_interrupt_handler
register_handlers-exception t n l e =
    let timer : (n == 32) ≡ false = ground arith in
    let keyboard : (n == 33) ≡ false = ground arith in
    elim (Bool-cases (n == 0)) [
      | inl divide ↦
          let same : n ≡ 0 = ground arith in
          ap (register_handlers t) same ∙ ap exception_handler (sym same)
      | inr a ↦ elim (Bool-cases (n == 13)) [
        | inl protection ↦
            let same : n ≡ 13 = ground arith in
            ap (register_handlers t) same ∙ ap exception_handler (sym same)
        | inr b ↦ elim (Bool-cases (n == 14)) [
          | inl page ↦
              let same : n ≡ 14 = ground arith in
              ap (register_handlers t) same ∙ ap exception_handler (sym same)
          | inr other ↦ rw (timer, keyboard, a, b, other, e) refl
        ]
      ]
    ]

pub init_interrupts-exception :
    (image : Image) (k : Kernel) (n : ℕ)
    → n < 32
    → (init_interrupts image.isr image.irq k.interrupts).0.interrupt_handlers n
      ≡ exception_handler n
unfolding init_interrupts
init_interrupts-exception image k n l =
    register_handlers-exception (clear_handlers 256 0 k.interrupts.interrupt_handlers) n l
      (clear_handlers-none 256 0 n k.interrupts.interrupt_handlers (inl (omega arith, omega arith)))

-- What is printed of a context.
abbrev pub context_text : InterruptContext → List Effect
context_text c =
    print_bytes interrupt_number
    ∷ print_hex c.int_no
    ∷ print_bytes error_code
    ∷ print_hex c.err_code
    ∷ print_string "\n"
    ∷ print_string "EIP: "
    ∷ print_hex c.eip
    ∷ print_string ", CS: "
    ∷ print_hex c.cs
    ∷ print_string "\n"
    ∷ []

-- What exception `c.int_no` does: three print their text and the context, and never return; the
-- others are counted, reported and returned from.
abbrev pub answered : InterruptContext → Devices → Kernel → Outcome Kernel
answered c d k =
    if c.int_no == 0
    then hangs (print_bytes division_by_zero ∷ context_text c)
    else if c.int_no == 13
    then hangs (print_bytes protection_fault ∷ context_text c)
    else if c.int_no == 14
    then hangs (print_bytes page_fault_at ∷ print_hex d.cr2 ∷ print_string "\n" ∷ context_text c)
    else returns
        (record k {
          interrupts = record k.interrupts {
            interrupt_count = (k.interrupts.interrupt_count + 1) % 2 ^ 32;
          };
        })
        (print_bytes unhandled_exception ∷ print_hex c.int_no ∷ print_string "\n" ∷ context_text c)

run_exception_lem :
    (entry : SystemEntry) (c : InterruptContext) (d : Devices) (k : Kernel)
    → run_exception entry (exception_handler c.int_no) c d (count_interrupt k) ≡ answered c d k
unfolding run_handler handle_divide_error handle_page_fault handle_general_protection_fault
    print_interrupt_info
run_exception_lem entry c d k = elim (Bool-cases (c.int_no == 0)) [
  | inl divide ↦ rw divide refl
  | inr a ↦ rw a (elim (Bool-cases (c.int_no == 13)) [
    | inl protection ↦ rw protection refl
    | inr b ↦
        rw b (elim (Bool-cases (c.int_no == 14)) [
          | inl page ↦ rw page refl
          | inr other ↦ rw other refl
        ])
  ])
]

isr_handler-exception :
    (entry : SystemEntry) (c : InterruptContext) (d : Devices) (k : Kernel)
    → k.interrupts.interrupt_handlers c.int_no ≡ exception_handler c.int_no
    → isr_handler entry c d k ≡ answered c d k
unfolding isr_handler
isr_handler-exception entry c d k e =
    ap (λ h. run_exception entry h c d (count_interrupt k)) e ∙ run_exception_lem entry c d k

-- From every state `start_devices` returns, and then, where `isr_handler` is called with a context
-- whose number is below 32: for the division by zero, the protection fault and the page fault it
-- prints their text, number, error code, EIP and CS, and never returns; for each of the others it
-- adds one to the count of interrupts, changes nothing else, reports the number and these values,
-- and returns.
pub isr_handler_lem :
    (image : Image) (k : Kernel) (c : InterruptContext) (d : Devices)
    → c.int_no < 32
    → (k' : Kernel) × (out : List Effect) × (start_devices image k ≡ returns k' out)
      × (isr_handler image.system_entry c d k' ≡ answered c d k')
unfolding start_devices init_syscalls register_interrupt_handler
isr_handler_lem image k c d l =
    let gate : (c.int_no == 0x80) ≡ false = ground arith in
    (
      _,
      _,
      refl,
      isr_handler-exception image.system_entry c d _
          (rw gate (init_interrupts-exception image k c.int_no l)),
    )
