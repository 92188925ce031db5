-- ===== src/Interrupt/Handlers.antt =====
-- kernel/interrupt.c: the table of interrupt handlers. A handler is known by its name; the table is
-- a function of the interrupt number, and `none` is the null pointer.
use os_simple.Base.{ℕ, ◌%◌, Option, some, update}

pub data Handler : Type 0 where
  divide_error_handler : Handler
  page_fault_handler : Handler
  general_protection_fault_handler : Handler
  timer_handler : Handler
  keyboard_handler : Handler
  keyboard_interrupt_handler : Handler
  syscall_entry : Handler

abbrev pub Handlers : Type 0
Handlers = ℕ → Option Handler

-- The number is a `uint8_t`.
unfoldable pub register_interrupt_handler : Handlers → ℕ → Handler → Handlers
register_interrupt_handler t num h = update t (num % 256) (some h)
