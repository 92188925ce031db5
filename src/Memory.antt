-- ===== src/Memory.antt =====
-- kernel/memory.c and memory.h: the heap, the bytes in it, and the pages.
pub mod Align
pub mod Blocks
pub mod Bytes
pub mod Manager
pub mod Pages
pub mod Examples
