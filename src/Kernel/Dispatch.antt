-- ===== src/Kernel/Dispatch.antt =====
-- kernel/interrupt.c: `isr_handler` and `irq_handler`, which call the handler in the table. The
-- handler of interrupt 0x80, `syscall_entry`, is assembly: its action is a parameter. A handler
-- gets the byte that the keyboard's data port gives, and the address in the register CR2. The C table
-- has 256 entries and is indexed without a check; here it is a function of the number, and what lies
-- past it in memory is not modelled.
use os_simple.Base.{ℕ, ◌+◌, ◌-◌, ◌%◌, List, [], ◌∷◌, Option, none, some, add32}
use os_simple.Base.Effects.{Effect, print_string, print_bytes, print_hex}
use os_simple.Base.Outcome.{Outcome, returns, hangs, unfinished, ◌>>◌, emit}
use os_simple.Interrupt.Handlers.{
  Handler, divide_error_handler, page_fault_handler, general_protection_fault_handler,
  timer_handler, keyboard_handler, keyboard_interrupt_handler, syscall_entry,
}
use os_simple.Interrupt.Gates.{send_eoi}
use os_simple.Interrupt.Messages.{unhandled_exception}
use os_simple.Interrupt.Service.{
  Interrupts, InterruptContext, print_interrupt_info, handle_timer, handle_keyboard,
  handle_divide_error, handle_page_fault, handle_general_protection_fault,
}
use os_simple.Task.Table.{Tasks}
use os_simple.Keyboard.Driver.{keyboard_interrupt}
use os_simple.Kernel.{Kernel}

-- What the devices give during one interrupt.
pub record Devices : Type 0 where
  pub data_port : ℕ
  pub cr2 : ℕ

abbrev pub ticked : Kernel → Option (Interrupts × Tasks × List Effect) → Outcome Kernel
ticked k none = unfinished
ticked k (some (s, t, out)) = returns (record k { interrupts = s; tasks = t }) out

abbrev pub SystemEntry : Type 0
SystemEntry = InterruptContext → Kernel → Outcome Kernel

unfoldable pub run_handler :
    SystemEntry → Handler → InterruptContext → Devices → Kernel → Outcome Kernel
run_handler entry divide_error_handler c d k = hangs (handle_divide_error c)
run_handler entry page_fault_handler c d k = hangs (handle_page_fault d.cr2 c)
run_handler entry general_protection_fault_handler c d k = hangs (handle_general_protection_fault c)
run_handler entry timer_handler c d k = ticked k (handle_timer k.interrupts k.tasks)
run_handler entry keyboard_handler c d k = returns k (handle_keyboard d.data_port)
run_handler entry keyboard_interrupt_handler c d k =
    let (keyboard, out) = keyboard_interrupt k.keyboard d.data_port in
    returns (record k { keyboard = keyboard }) out
run_handler entry syscall_entry c d k = entry c k

-- `interrupt_count++`.
abbrev pub count_interrupt : Kernel → Kernel
count_interrupt k = record k {
  interrupts = record k.interrupts { interrupt_count = add32 k.interrupts.interrupt_count 1 };
}

abbrev pub run_exception :
    SystemEntry → Option Handler → InterruptContext → Devices → Kernel → Outcome Kernel
run_exception entry none c d k = returns k (
    print_bytes unhandled_exception
    ∷ print_hex c.int_no
    ∷ print_string "\n"
    ∷ print_interrupt_info c)
run_exception entry (some h) c d k = run_handler entry h c d k

unfoldable pub isr_handler : SystemEntry → InterruptContext → Devices → Kernel → Outcome Kernel
isr_handler entry c d k =
    run_exception entry (k.interrupts.interrupt_handlers c.int_no) c d (count_interrupt k)

abbrev pub run_irq :
    SystemEntry → Option Handler → InterruptContext → Devices → Kernel → Outcome Kernel
run_irq entry none c d k = returns k []
run_irq entry (some h) c d k = run_handler entry h c d k

-- The argument of `send_eoi` is a `uint8_t`.
unfoldable pub irq_handler : SystemEntry → InterruptContext → Devices → Kernel → Outcome Kernel
irq_handler entry c d k = do
  emit (send_eoi ((c.int_no + 256 - 32) % 256))
  run_irq entry (k.interrupts.interrupt_handlers c.int_no) c d (count_interrupt k)
