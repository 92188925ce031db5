-- ===== src/Machine/Stubs/Misread.antt =====
-- What a line's interrupt comes to when the C function reads its context from empty memory.
use os_simple.Base.{ℕ, ◌+◌, ◌≤◌, ◌≡◌, ◌-◌, ◌%◌, refl, ap, ◌∙◌, [], ◌∷◌, List, some, arith}
use os_simple.Base.Effects.{Effect, outb, print_bytes}
use os_simple.Base.Outcome.{returns, hangs, after_effects, ◌>>=◌}
use os_simple.Interrupt.Handlers.{divide_error_handler, register_interrupt_handler}
use os_simple.Interrupt.Gates.{send_eoi}
use os_simple.Interrupt.Messages.{division_by_zero}
use os_simple.Interrupt.Service.{InterruptContext, print_interrupt_info, handle_divide_error}
use os_simple.Syscall.{init_syscalls}
use os_simple.Kernel.{Kernel}
use os_simple.Kernel.Dispatch.{
  Devices, SystemEntry, count_interrupt, run_handler, run_irq, irq_handler,
}
use os_simple.Kernel.Boot.{Image, start_devices}
use os_simple.Kernel.Exceptions.{init_interrupts-exception}
use os_simple.Machine.Cpu.{Cpu, Leaves}
use os_simple.Machine.Depth.{HasRoom}
use os_simple.Machine.Stubs.{line_stub}
use os_simple.Machine.Stubs.Resume.{goes_on, memory_context, given_address, line_stub_lem}

-- `irq_handler` with a context whose number is 0.
irq_handler_zero :
    (entry : SystemEntry) (x : InterruptContext) (d : Devices) (k : Kernel)
    → x.int_no ≡ 0
    → k.interrupts.interrupt_handlers 0 ≡ some divide_error_handler
    → irq_handler entry x d k
      ≡ hangs
          (outb 0xA0 0x20 ∷ outb 0x20 0x20 ∷ print_bytes division_by_zero ∷ print_interrupt_info x)
unfolding irq_handler run_handler handle_divide_error send_eoi
irq_handler_zero entry x d k e h =
    ap
      (λ n.
        after_effects (send_eoi ((n + 256 - 32) % 256))
          (run_irq entry (k.interrupts.interrupt_handlers n) x d (count_interrupt k)))
      e
    ∙ ap (λ o. after_effects (send_eoi 224) (run_irq entry o x d (count_interrupt k))) h

-- From every state `start_devices` returns, with the interrupt of any line, from a program whose stack
-- has room and lies above the address that the C function gets for its context: if the word of
-- memory in the place of the context's number is 0, the kernel acknowledges the line at both
-- controllers, reports a division by zero, and never returns.
pub line_stub_stops :
    (image : Image) (d : Devices) (value line : ℕ) (l : Leaves) (c : Cpu) (k : Kernel)
    → HasRoom c
    → given_address c + 120 ≤ c.esp
    → c.memory (given_address c + 32) ≡ 0
    → (k' : Kernel) × (out : List Effect) × (start_devices image k ≡ returns k' out)
      × (line_stub image.system_entry d value line l c k'
          ≡ hangs (
              outb 0xA0 0x20
              ∷ outb 0x20 0x20
              ∷ print_bytes division_by_zero
              ∷ print_interrupt_info (memory_context c (given_address c))))
unfolding start_devices init_syscalls register_interrupt_handler
line_stub_stops image d value line l c k v above e = (
  _,
  _,
  refl,
  line_stub_lem image.system_entry d value line l c _ v above
      ∙ ap (λ o. o >>= λ k'. returns (goes_on l c, k') [])
          (irq_handler_zero image.system_entry (memory_context c (given_address c)) d _ e
            (init_interrupts-exception image k 0 (omega arith))),
)
