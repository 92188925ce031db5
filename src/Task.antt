-- ===== src/Task.antt =====
-- kernel/task.c and task.h: the task table, the list of tasks, and switching between them. A pointer
-- to a task is its index in `tasks`, and `none` is the null pointer; the table is a function of the
-- index. Loops along `next` take fuel, and `none` as the result of a function is a loop that has
-- not ended. PIDs are not bounded: the C `int` would overflow after 2^31 creations.
pub mod Table
pub mod Creating
pub mod Switching
pub mod Lookup
pub mod Chain
pub mod Linking
pub mod Creation
pub mod Rotation
pub mod Keeping
pub mod Turns
pub mod Calls
pub mod Start
pub mod Listing
pub mod Examples
