-- ===== src/Scheduler.antt =====
-- kernel/scheduler.c and scheduler.h: the scheduler's state, its queue, its policies and its tick. The
-- queue is linked by the same `next` as the task list, so the operations act on the task table and on
-- the scheduler. A walk takes fuel, and `none` as the result of a function is a walk that has not
-- ended. The idle task's function, `hlt` in a loop, and the functions with an empty body are left out.
pub mod State
pub mod Ticking
pub mod Entries
pub mod Choice
pub mod Priority
pub mod Policy
pub mod Highest
pub mod Slices
pub mod Preempting
pub mod Sharing
pub mod Splice
pub mod Queue
pub mod Examples
