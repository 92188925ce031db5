-- ===== src/Keyboard.antt =====
-- kernel/keyboard.c and keyboard.h: the buffer of typed characters, the keys, and the driver.
pub mod Buffer
pub mod Keys
pub mod Driver
pub mod Examples
