-- ===== src/Keyboard/Buffer.antt =====
-- kernel/keyboard.c: the ring buffer of typed characters (`keyboard_buffer_t` and its functions).
-- The array is a function of the index; a function that changes it returns the new buffer.
pub mod Queue
pub mod Refine
pub mod View
pub mod Interleaving
use os_simple.Base.{
  ℕ, ◌+◌, ◌-◌, ◌%◌, Bool, true, false, not, ◌==◌, leb, if◌then◌else◌, update, add32, sub32,
}

abbrev pub keyboard_buffer_size : ℕ
keyboard_buffer_size = 256

pub record KeyboardBuffer : Type 0 where
  pub buffer : ℕ → ℕ
  pub head : ℕ
  pub tail : ℕ
  pub count : ℕ

unfoldable pub keyboard_buffer_is_empty : KeyboardBuffer → Bool
keyboard_buffer_is_empty b = b.count == 0

unfoldable pub keyboard_buffer_is_full : KeyboardBuffer → Bool
keyboard_buffer_is_full b = leb keyboard_buffer_size b.count

unfoldable pub keyboard_has_input : KeyboardBuffer → Bool
unfolding keyboard_buffer_is_empty
keyboard_has_input b = not (keyboard_buffer_is_empty b)

unfoldable pub keyboard_flush_buffer : KeyboardBuffer → KeyboardBuffer
keyboard_flush_buffer b = record b { head = 0; tail = 0; count = 0 }

-- The Boolean is what the C function returns.
unfoldable pub keyboard_buffer_put : KeyboardBuffer → ℕ → Bool × KeyboardBuffer
unfolding keyboard_buffer_is_full
keyboard_buffer_put b c = if keyboard_buffer_is_full b then (false, b) else (
  true,
  record b {
    buffer = update b.buffer b.head c;
    head = add32 b.head 1 % keyboard_buffer_size;
    count = add32 b.count 1;
  },
)

unfoldable pub keyboard_buffer_get : KeyboardBuffer → ℕ × KeyboardBuffer
unfolding keyboard_buffer_is_empty
keyboard_buffer_get b = if keyboard_buffer_is_empty b then (0, b) else (
  b.buffer b.tail,
  record b { tail = add32 b.tail 1 % keyboard_buffer_size; count = sub32 b.count 1 },
)

-- The calls that clients and the interrupt handler make, and the answers that they see.
pub data BufferOp : Type 0 where
  put : ℕ → BufferOp
  get : BufferOp
  flush : BufferOp
  has_input : BufferOp

pub data Reply : Type 0 where
  flag : Bool → Reply
  char : ℕ → Reply
  done : Reply

unfoldable pub call : KeyboardBuffer → BufferOp → Reply × KeyboardBuffer
unfolding keyboard_buffer_put keyboard_buffer_get keyboard_flush_buffer keyboard_has_input
call b (put c) = let (r, b') = keyboard_buffer_put b c in (flag r, b')
call b get = let (c, b') = keyboard_buffer_get b in (char c, b')
call b flush = (done, keyboard_flush_buffer b)
call b has_input = (flag (keyboard_has_input b), b)
