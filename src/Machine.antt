-- ===== src/Machine.antt =====
-- The code in assembly, kernel/interrupt_asm.s and kernel/syscall_asm.s, and the programs of
-- kernel/syscall.h: how an interrupt reaches the C code, and how the interrupted program goes on.
pub mod Cpu
pub mod Depth
pub mod Entry
pub mod Programs
pub mod Printing
pub mod Table
pub mod Sector
pub mod Stubs
pub mod Examples
