-- ===== src/Interrupt.antt =====
-- kernel/interrupt.c and interrupt.h: the table of handlers, the interrupt descriptor table, what is
-- sent to the interrupt controllers, and the handlers of the timer, the keyboard and the exceptions.
-- The dispatch to a handler, which may be another component's, is in Kernel.Dispatch.
pub mod Handlers
pub mod Gates
pub mod Messages
pub mod Service
pub mod Examples
