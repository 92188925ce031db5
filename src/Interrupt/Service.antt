-- ===== src/Interrupt/Service.antt =====
-- kernel/interrupt.c: the state of the interrupt system, its initialisation, and its own handlers.
-- `load_idt` is assembly, and `idt_ptr`, which holds the table's own address, is left out.
use os_simple.Base.{
  ℕ, zero, suc, ◌+◌, ◌%◌, Bool, true, false, List, [], ◌∷◌, ◌++◌, Option, none, some, ◌==◌,
  if◌then◌else◌, update, add32,
}
use os_simple.Base.Effects.{Effect, print_string, print_bytes, print_char, print_hex}
use os_simple.Interrupt.Handlers.{
  Handlers, divide_error_handler, page_fault_handler, general_protection_fault_handler,
  timer_handler, keyboard_handler, register_interrupt_handler,
}
use os_simple.Interrupt.Gates.{IdtEntry, idt_size, init_idt, init_pic}
use os_simple.Interrupt.Messages.{
  interrupts_starting, interrupts_ready, key_pressed, division_by_zero, page_fault_at,
  protection_fault, interrupt_number, error_code,
}
use os_simple.Task.Table.{Tasks}
use os_simple.Task.Switching.{schedule}

-- The registers that a handler is given.
pub record InterruptContext : Type 0 where
  pub edi : ℕ
  pub esi : ℕ
  pub ebp : ℕ
  pub esp : ℕ
  pub ebx : ℕ
  pub edx : ℕ
  pub ecx : ℕ
  pub eax : ℕ
  pub int_no : ℕ
  pub err_code : ℕ
  pub eip : ℕ
  pub cs : ℕ
  pub eflags : ℕ
  pub useresp : ℕ
  pub ss : ℕ

-- The variables of the file, and the processor's flag that `sti` and `cli` change.
pub record Interrupts : Type 0 where
  pub idt : ℕ → IdtEntry
  pub interrupt_handlers : Handlers
  pub interrupt_count : ℕ
  pub timer_ticks : ℕ
  pub enabled : Bool

-- The first loop of `init_interrupts`.
unfoldable pub clear_handlers : ℕ → ℕ → Handlers → Handlers
clear_handlers zero i handlers = handlers
clear_handlers (suc left) i handlers = clear_handlers left (i + 1) (update handlers i none)

-- The five calls of `register_interrupt_handler`.
unfoldable pub register_handlers : Handlers → Handlers
register_handlers h0 =
    let h1 = register_interrupt_handler h0 0x00 divide_error_handler in
    let h2 = register_interrupt_handler h1 0x0E page_fault_handler in
    let h3 = register_interrupt_handler h2 0x0D general_protection_fault_handler in
    let h4 = register_interrupt_handler h3 0x20 timer_handler in
    register_interrupt_handler h4 0x21 keyboard_handler

-- The addresses of the stubs are parameters.
unfoldable pub init_interrupts : (ℕ → ℕ) → (ℕ → ℕ) → Interrupts → Interrupts × List Effect
init_interrupts isr irq s = (
  record s {
    idt = init_idt isr irq s.idt;
    interrupt_handlers = register_handlers (clear_handlers idt_size 0 s.interrupt_handlers);
  },
  print_bytes interrupts_starting ∷ init_pic ++ print_bytes interrupts_ready ∷ [],
)

abbrev pub enable_interrupts : Interrupts → Interrupts
enable_interrupts s = record s { enabled = true }

abbrev pub disable_interrupts : Interrupts → Interrupts
disable_interrupts s = record s { enabled = false }

abbrev pub get_interrupt_count : Interrupts → ℕ
get_interrupt_count s = s.interrupt_count

abbrev pub get_timer_ticks : Interrupts → ℕ
get_timer_ticks s = s.timer_ticks

unfoldable pub print_interrupt_info : InterruptContext → List Effect
print_interrupt_info context =
    print_bytes interrupt_number
    ∷ print_hex context.int_no
    ∷ print_bytes error_code
    ∷ print_hex context.err_code
    ∷ print_string "\n"
    ∷ print_string "EIP: "
    ∷ print_hex context.eip
    ∷ print_string ", CS: "
    ∷ print_hex context.cs
    ∷ print_string "\n"
    ∷ []

abbrev pub with_effects :
    Interrupts → List Effect → Option Tasks → Option (Interrupts × Tasks × List Effect)
with_effects s out none = none
with_effects s out (some t) = some (s, t, out)

-- `timer_handler` with the count after its increment.
abbrev pub on_tick : Interrupts → Tasks → ℕ → Option (Interrupts × Tasks × List Effect)
on_tick s t ticks =
    with_effects (record s { timer_ticks = ticks })
      (if ticks % 100 == 0 then print_char b'.' ∷ [] else [])
      (if ticks % 10 == 0 then schedule t else some t)

-- The handler named `timer_handler`.
unfoldable pub handle_timer : Interrupts → Tasks → Option (Interrupts × Tasks × List Effect)
handle_timer s t = on_tick s t (add32 s.timer_ticks 1)

-- The handler named `keyboard_handler`; `scancode` is the byte that the data port gives.
unfoldable pub handle_keyboard : ℕ → List Effect
handle_keyboard scancode = print_bytes key_pressed ∷ print_hex scancode ∷ print_string "\n" ∷ []

-- What the handlers of three exceptions print before their endless loop; `cr2` is the address that
-- the processor has stored there.
unfoldable pub handle_divide_error : InterruptContext → List Effect
handle_divide_error context = print_bytes division_by_zero ∷ print_interrupt_info context

unfoldable pub handle_page_fault : ℕ → InterruptContext → List Effect
handle_page_fault cr2 context =
    print_bytes page_fault_at ∷ print_hex cr2 ∷ print_string "\n" ∷ print_interrupt_info context

unfoldable pub handle_general_protection_fault : InterruptContext → List Effect
handle_general_protection_fault context =
    print_bytes protection_fault ∷ print_interrupt_info context
