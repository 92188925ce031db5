-- ===== src/Machine/Examples.antt =====
-- The assembly's theorems on small inputs: a program at a stack of 64 KiB with some values in its
-- registers, and a memory of zeros below it.
use os_simple.Base.{List, ◌+◌, ◌≡◌, refl, [], ◌∷◌, none, ◌==◌, if◌then◌else◌, arith}
use os_simple.Base.Int.{negsuc}
use os_simple.Base.Effects.{Effect, outb, print_bytes}
use os_simple.Base.Outcome.{returns, hangs, ◌>>=◌}
use os_simple.Interrupt.Messages.{division_by_zero}
use os_simple.Interrupt.Service.{print_interrupt_info}
use os_simple.Syscall.{handle_syscall, init_syscalls}
use os_simple.Syscall.Examples.{start}
use os_simple.Kernel.{Kernel}
use os_simple.Kernel.Dispatch.{Devices, irq_handler}
use os_simple.Kernel.Boot.{start_devices}
use os_simple.Kernel.Examples.{image, loaded}
use os_simple.Machine.Cpu.{Cpu, Leaves}
use os_simple.Machine.Depth.{HasRoom}
use os_simple.Machine.Entry.{system_call, dispatched, resumed, system_call_lem}
use os_simple.Machine.Programs.{write, user_call, refused, user_call-refused}
use os_simple.Machine.Stubs.{line_stub}
use os_simple.Machine.Stubs.Resume.{goes_on, memory_context, given_address, line_stub_lem}
use os_simple.Machine.Stubs.Misread.{line_stub_stops}
use os_simple.Machine.Printing.{syscall_print}
use os_simple.Machine.Printing.Text.{printed, print_params, syscall_print_lem}

abbrev program : Cpu
program = record {
  eax = 4;
  ecx = 2;
  edx = 3;
  ebx = 1;
  ebp = 0x90010;
  esi = 5;
  edi = 6;
  esp = 0x90000;
  ds = 16;
  es = 16;
  fs = 16;
  gs = 16;
  eip = 0x104000;
  cs = 8;
  eflags = 0x202;
  idt_limit = 0;
  idt_base = 0;
  stack = λ n. n + 100;
  memory = λ a. 0;
}

program-HasRoom : HasRoom program
program-HasRoom = record {
  low = omega arith;
  high = omega arith;
  code = omega arith;
  data_segment = omega arith;
  extra_segment = omega arith;
}

abbrev scratch : Leaves
scratch = record { ecx = 77; edx = 78; argument = 16; back = 0x105000 }

abbrev devices : Devices
devices = record { data_port = 0x1E; cr2 = 0x5000 }

system_call_example :
    system_call 9 scratch program start
    ≡ resumed program (handle_syscall 9 start (dispatched program))
system_call_example = system_call_lem 9 scratch program start program-HasRoom

user_call-refused_example :
    (c' : Cpu) × (user_call
        (system_call 9 scratch)
        (write 1 5000 2)
        program
        (init_syscalls start (λ n. none)).0
      ≡ returns (negsuc 0, c', refused (init_syscalls start (λ n. none)).0) [])
user_call-refused_example =
    user_call-refused 9 scratch (write 1 5000 2) program start (λ n. none) program-HasRoom

line_stub_example : line_stub image.system_entry devices 50 1 scratch program loaded ≡ (
    irq_handler image.system_entry (memory_context program (given_address program)) devices loaded
    >>= λ k'. returns (goes_on scratch program, k') [])
line_stub_example =
    line_stub_lem image.system_entry devices 50 1 scratch program loaded program-HasRoom
      (omega arith)

line_stub_stops_example :
    (k' : Kernel) × (out : List Effect) × (start_devices image loaded ≡ returns k' out)
    × (line_stub image.system_entry devices 50 1 scratch program k'
        ≡ hangs (
            outb 0xA0 0x20
            ∷ outb 0x20 0x20
            ∷ print_bytes division_by_zero
            ∷ print_interrupt_info (memory_context program (given_address program))))
line_stub_stops_example =
    line_stub_stops image devices 50 1 scratch program loaded program-HasRoom (omega arith) refl

-- The same program calls `syscall_print` with the address of `Hi`.
abbrev caller : Cpu
caller = record program { stack = λ n. if n == 0 then 0x104050 else 5000 }

caller-HasRoom : HasRoom caller
caller-HasRoom = record {
  low = omega arith;
  high = omega arith;
  code = omega arith;
  data_segment = omega arith;
  extra_segment = omega arith;
}

syscall_print_example :
    syscall_print (system_call 9 scratch) 10 caller start
    ≡ printed caller 2 (handle_syscall 9 start (print_params caller 2))
syscall_print_example =
    syscall_print_lem 9 10 scratch caller start (b'H' ∷ b'i' ∷ []) caller-HasRoom (omega arith)
      (omega arith) (omega arith) (refl, omega arith, (refl, omega arith, tt)) refl (omega arith)
      (omega arith)
