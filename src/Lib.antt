-- ===== src/Lib.antt =====
-- os-simple: the model of a small 32-bit kernel in C, and what is proved of it.
--
-- The parts, each with the source it translates:
--   Keyboard   kernel/keyboard.c: the ring buffer of typed characters (Buffer), modifiers and
--              translation (Keys), the interrupt handler and the waiting read (Driver).
--   Memory     kernel/memory.c: the heap's block list (Blocks), `kmalloc` and its kin (Manager),
--              the byte routines (Bytes), addresses (Align), and the page allocator (Pages).
--   Screen     kernel/kernel.c, and `print_hex` of kernel/interrupt.c: the text buffer and cursor.
--   Task       kernel/task.c: the task table (Table), `create_task` (Creating), `schedule` and the
--              changes of state (Switching), `find_task` (Lookup), and the listings (Listing).
--   Scheduler  kernel/scheduler.c: its state (State), the tick (Ticking), the queue (Entries), the
--              policies (Choice), priorities and time slices (Priority).
--   Syscall    kernel/syscall.c: the table of system calls, the dispatcher and the handlers.
--   Interrupt  kernel/interrupt.c: the handler table (Handlers), the descriptor table, `init_pic`
--              and `send_eoi` (Gates), the initialisation and the handlers (Service).
--   Kernel     what joins them: `isr_handler` and `irq_handler` of kernel/interrupt.c (Dispatch),
--              which run the handlers of three other parts, and `kernel_main` of kernel/kernel.c
--              (Boot). Its record is the state of all the parts.
--   Machine    the assembly: `syscall_entry`, `syscall_print` and `test_syscalls` of
--              kernel/syscall_asm.s (Entry, Printing), the functions for programs of
--              kernel/syscall.h (Programs), the stubs and `load_idt` of kernel/interrupt_asm.s
--              (Stubs, Table), and boot/boot.asm (Sector), on a model of the processor (Cpu, Depth).
-- Base has the shared numbers, lists, words, effects and outcomes.
--
-- A C function is the definition of the same name (`keyboard_interrupt_handler` is
-- `keyboard_interrupt`; `timer_handler` and the other handlers of kernel/interrupt.c are
-- `handle_timer` and so on, as the plain names are the entries of the handler table); it takes the
-- static variables of its file as a record and returns the new record, with its result and what it
-- prints or sends to a port as a list of effects. The scheduler acts on the task manager's state as
-- well, since its queue is linked by the same `next`. A call that may stay in an endless loop has
-- an outcome: a return, a hang, or a walk that has not ended (Base.Outcome).
--
-- Interrupts. What the devices give and which interrupts arrive is an input: a list for each of the
-- points between the calls of `kernel_main`, and one for each round of its loop. In the model of
-- `kernel_main` the context that `irq_handler` is called with is an input too, and the action of
-- `syscall_entry` is a parameter. The stubs of the repository pass the saved data segment in place of
-- the context's address: Machine has the assembly between an interrupt and its C function,
-- Kernel.Anyhow takes contexts with any number below 256 but 0x80, and what assumes that a context
-- has its line's number (Kernel.Running, Input, Timer, Starvation) is a contract of the C code alone.
--
-- Machine. An instruction acts on the registers and on the stack, which is the words by their
-- distance from the stack pointer; other memory is words by address, and only read. A program of
-- assembly is a list of instructions before a call of a C function and one after it; the C function
-- is that of the other parts, acts on the state of those parts, and leaves in `ecx`, `edx` and the
-- word of its argument what it likes. Interrupt 0x80 is taken to have a gate to `syscall_entry`. A
-- segment register takes any value, and the flags that sums and comparisons set are left out. The
-- loop of `syscall_print` and that of the boot sector take the rounds they may run.
--
-- Pointers. A pointer to a task is its index in the task table, with `none` for null. The list of
-- memory blocks is a list in the order of `next`, each block with its header's address and its
-- `prev`; memory is a function from addresses to bytes. The words of a header are not among these bytes, so
-- a write past the end of a block does not change the next header, as it does in C. `kcalloc` and
-- `krealloc` make one for a size of 2^32 - 3 or more: the results on sequences of calls leave such
-- sizes out.
--
-- Words. `uint32_t` sums, differences and products wrap at 2^32 as written (Base.Words); C's `int`
-- is an integer, and a PID is not bounded.
--
-- Loops. Counted loops are recursion on the rounds left. Walks along `next` take fuel: 65 rounds for
-- a walk to the end of a list, 128 for the search of `schedule`; `none` means that the walk has not
-- ended, and the theorems on such walks show that it ends on a list of at most 64 entries.
-- `keyboard_getchar` takes the interrupts that are to come, and `none` means that it still waits.
-- The endless loop of `kernel_main` is run for any number of rounds.
--
-- Not modelled: an interrupt in the middle of a call, but for a read and a flush of the keyboard's
-- buffer (Keyboard.Buffer.Interleaving), where each C statement is one step; `idle_task_function`,
-- which halts in a loop; functions with an empty body; `outb` and `inb`, which are effects and inputs;
-- the contents of `idt_ptr`, and which table `load_idt` loads; a handler's number past 255, for which
-- the C code reads beyond its table; a pointer of a system call into the kernel's variables; the linker script and the build files.
pub mod Base
pub mod Interrupt
pub mod Kernel
pub mod Machine
pub mod Keyboard
pub mod Memory
pub mod Scheduler
pub mod Screen
pub mod Syscall
pub mod Task
