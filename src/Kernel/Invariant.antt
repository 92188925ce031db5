-- ===== src/Kernel/Invariant.antt =====
-- What holds of the kernel between its calls, and that no interrupt changes it.
use os_simple.Base.{
  ℕ, ◌%◌, ◌≤◌, ◌<◌, ◌≡◌, ◌≢◌, Bool, true, false, List, [], ◌∷◌, Option, none, some, ◌==◌, inl, inr,
  Bool-cases, add32,
}
use os_simple.Base.Outcome.{Returns, after_effects-Returns, bind-Returns}
use os_simple.Interrupt.Handlers.{
  Handler, divide_error_handler, page_fault_handler, general_protection_fault_handler,
  timer_handler, keyboard_handler, keyboard_interrupt_handler, syscall_entry,
}
use os_simple.Interrupt.Service.{InterruptContext, on_tick, handle_timer}
use os_simple.Task.Keeping.{IsTasks, schedule-IsTasks}
use os_simple.Memory.Manager.Invariant as Heap
use os_simple.Keyboard.Buffer.Refine as Buffer
use os_simple.Keyboard.Driver.Typing.{keyboard_interrupt-IsValid}
use os_simple.Syscall.Dispatch.{IsBalanced}
use os_simple.Kernel.{Kernel}
use os_simple.Kernel.Dispatch.{
  Devices, SystemEntry, ticked, run_handler, count_interrupt, run_irq, irq_handler,
}
use os_simple.Kernel.Boot.{Image, Arrival, deliver}

-- A handler that returns.
abbrev pub calm : Option Handler → Bool
calm none = true
calm (some divide_error_handler) = false
calm (some page_fault_handler) = false
calm (some general_protection_fault_handler) = false
calm (some timer_handler) = true
calm (some keyboard_handler) = true
calm (some keyboard_interrupt_handler) = true
calm (some syscall_entry) = false

-- The handler is the assembly entry for system calls.
abbrev pub enters : Option Handler → Bool
enters none = false
enters (some divide_error_handler) = false
enters (some page_fault_handler) = false
enters (some general_protection_fault_handler) = false
enters (some timer_handler) = false
enters (some keyboard_handler) = false
enters (some keyboard_interrupt_handler) = false
enters (some syscall_entry) = true

-- Each component is in order, the entry for system calls has no number but its own, and the lines of the first controller have no handler but the
-- timer's and the two of the keyboard.
pub record IsKernel (k : Kernel) : Type 0 where
  pub listed : (xs : List ℕ) × IsTasks k.tasks xs
  pub keyboard : Buffer.IsValid k.keyboard.buffer
  pub memory : Heap.IsValid k.memory
  pub calls : IsBalanced k.syscalls.syscall_stats
  pub lines : (n : ℕ) → 32 ≤ n → n < 40 → calm (k.interrupts.interrupt_handlers n) ≡ true
  pub entry : (n : ℕ) → n < 256 → n ≢ 0x80 → enters (k.interrupts.interrupt_handlers n) ≡ false

-- An interrupt of the first controller's eight lines, the only ones with a gate.
abbrev pub IsLine : InterruptContext → Type 0
IsLine c = (32 ≤ c.int_no) × (c.int_no < 40)

abbrev pub AllLines : List Arrival → Type 0
AllLines [] = Unit {0}
AllLines (a ∷ arrivals) = IsLine a.context × AllLines arrivals

pub tick-IsKernel :
    (k : Kernel) (ticks : ℕ)
    → IsKernel k
    → Returns (ticked k (on_tick k.interrupts k.tasks ticks)) IsKernel
tick-IsKernel k ticks v = elim (Bool-cases (ticks % 10 == 0)) [
  | inl tenth ↦
      let run = schedule-IsTasks k.tasks v.listed.0 v.listed.1 in
      rw (tenth, run.1)
        (record {
          listed = (v.listed.0, run.2);
          keyboard = v.keyboard;
          memory = v.memory;
          calls = v.calls;
          lines = v.lines;
          entry = v.entry;
        })
  | inr other ↦ rw other (record {
    listed = v.listed;
    keyboard = v.keyboard;
    memory = v.memory;
    calls = v.calls;
    lines = v.lines;
    entry = v.entry;
  })
]

run_irq-IsKernel :
    (entry : SystemEntry) (h : Option Handler) (c : InterruptContext) (d : Devices) (k : Kernel)
    → calm h ≡ true
    → IsKernel k
    → Returns (run_irq entry h c d k) IsKernel
unfolding run_handler handle_timer
run_irq-IsKernel entry none c d k e v = v
run_irq-IsKernel entry (some divide_error_handler) c d k e v = cc
run_irq-IsKernel entry (some page_fault_handler) c d k e v = cc
run_irq-IsKernel entry (some general_protection_fault_handler) c d k e v = cc
run_irq-IsKernel entry (some timer_handler) c d k e v =
    tick-IsKernel k (add32 k.interrupts.timer_ticks 1) v
run_irq-IsKernel entry (some keyboard_handler) c d k e v = v
run_irq-IsKernel entry (some keyboard_interrupt_handler) c d k e v = record {
  listed = v.listed;
  keyboard = keyboard_interrupt-IsValid k.keyboard d.data_port v.keyboard;
  memory = v.memory;
  calls = v.calls;
  lines = v.lines;
  entry = v.entry;
}
run_irq-IsKernel entry (some syscall_entry) c d k e v = cc

-- In a kernel in order, an interrupt of one of the eight lines is handled to its end, and leaves the
-- kernel in order.
pub irq_handler-IsKernel :
    (entry : SystemEntry) (c : InterruptContext) (d : Devices) (k : Kernel)
    → IsLine c
    → IsKernel k
    → Returns (irq_handler entry c d k) IsKernel
unfolding irq_handler
irq_handler-IsKernel entry c d k l v = after_effects-Returns IsKernel _ _ (
    run_irq-IsKernel entry (k.interrupts.interrupt_handlers c.int_no) c d (count_interrupt k)
      (v.lines c.int_no l.0 l.1)
      (record {
        listed = v.listed;
        keyboard = v.keyboard;
        memory = v.memory;
        calls = v.calls;
        lines = v.lines;
        entry = v.entry;
      }))

-- So are any number of them, in any order.
pub deliver-IsKernel :
    (image : Image) (arrivals : List Arrival) (k : Kernel)
    → AllLines arrivals
    → IsKernel k
    → Returns (deliver image arrivals k) IsKernel
unfolding deliver
deliver-IsKernel image [] k l v = v
deliver-IsKernel image (a ∷ arrivals) k l v =
    bind-Returns IsKernel IsKernel (irq_handler image.system_entry a.context a.devices k)
      (deliver image arrivals) (irq_handler-IsKernel image.system_entry a.context a.devices k l.0 v)
      (λ k' v'. deliver-IsKernel image arrivals k' l.1 v')
