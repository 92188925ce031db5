-- ===== src/Keyboard/Buffer/Interleaving.antt =====
-- kernel/keyboard.c: `keyboard_buffer_get` and `keyboard_flush_buffer` with an interrupt that stores a
-- character between two of their statements. A statement is taken as one step.
use os_simple.Base.{
  ℕ, ◌%◌, ◌<◌, ◌≡◌, refl, Bool, true, false, ◌==◌, leb, if◌then◌else◌, add32, sub32, inl, inr,
  Bool-cases, arith,
}
use os_simple.Keyboard.Buffer.{
  KeyboardBuffer, keyboard_buffer_size, keyboard_buffer_is_empty, keyboard_buffer_is_full,
  keyboard_buffer_put, keyboard_buffer_get,
}
use os_simple.Keyboard.Buffer.Refine.{IsValid}

-- `tail = (tail + 1) % KEYBOARD_BUFFER_SIZE` and `count--`.
abbrev pub advance_tail : KeyboardBuffer → KeyboardBuffer
advance_tail b = record b { tail = add32 b.tail 1 % keyboard_buffer_size }

abbrev pub drop_count : KeyboardBuffer → KeyboardBuffer
drop_count b = record b { count = sub32 b.count 1 }

-- The statement of `keyboard_buffer_get` after which the interrupt comes; the first one is the test.
pub data GetPoint : Type 0 where
  after_test after_read after_tail : GetPoint

-- What follows the test that the buffer is not empty: the character read, what the interrupt's
-- `keyboard_buffer_put` returns, and the buffer.
abbrev pub get_rest : GetPoint → ℕ → KeyboardBuffer → ℕ × Bool × KeyboardBuffer
get_rest after_test typed b =
    let (stored, b1) = keyboard_buffer_put b typed in
    (b1.buffer b1.tail, stored, drop_count (advance_tail b1))
get_rest after_read typed b =
    let c = b.buffer b.tail in
    let (stored, b1) = keyboard_buffer_put b typed in (c, stored, drop_count (advance_tail b1))
get_rest after_tail typed b =
    let c = b.buffer b.tail in
    let (stored, b1) = keyboard_buffer_put (advance_tail b) typed in (c, stored, drop_count b1)

abbrev pub put_then_get : ℕ → KeyboardBuffer → ℕ × Bool × KeyboardBuffer
put_then_get typed b =
    let (stored, b1) = keyboard_buffer_put b typed in
    let (c, b2) = keyboard_buffer_get b1 in (c, stored, b2)

abbrev pub get_then_put : ℕ → KeyboardBuffer → ℕ × Bool × KeyboardBuffer
get_then_put typed b =
    let (c, b1) = keyboard_buffer_get b in
    let (stored, b2) = keyboard_buffer_put b1 typed in (c, stored, b2)

-- An empty buffer is answered at once, so an interrupt after the test comes after the return.
unfoldable pub interrupted_get : GetPoint → ℕ → KeyboardBuffer → ℕ × Bool × KeyboardBuffer
interrupted_get point typed b =
    if keyboard_buffer_is_empty b then get_then_put typed b else get_rest point typed b

full_get :
    (point : GetPoint) (typed : ℕ) (b : KeyboardBuffer)
    → (b.count == 0) ≡ false
    → leb 256 b.count ≡ true
    → get_rest point typed b ≡ put_then_get typed b
unfolding keyboard_buffer_is_empty keyboard_buffer_is_full keyboard_buffer_put keyboard_buffer_get
full_get after_test typed b waits full = rw (full, waits) refl
full_get after_read typed b waits full = rw (full, waits) refl
full_get after_tail typed b waits full = rw (full, waits) refl

-- With room, the interrupt stores at another place than the one that is read.
room_get :
    (point : GetPoint) (typed : ℕ) (b : KeyboardBuffer)
    → (b.count == 0) ≡ false
    → leb 256 b.count ≡ false
    → IsValid b
    → get_rest point typed b ≡ put_then_get typed b
unfolding keyboard_buffer_is_empty keyboard_buffer_is_full keyboard_buffer_put keyboard_buffer_get
room_get after_test typed b waits room v =
    let more : (add32 b.count 1 == 0) ≡ false = ground arith in rw (room, more) refl
room_get after_read typed b waits room v =
    let more : (add32 b.count 1 == 0) ≡ false = ground arith in
    let apart : (b.tail == b.head) ≡ false = ground arith in rw (room, more, apart) refl
room_get after_tail typed b waits room v =
    let more : (add32 b.count 1 == 0) ≡ false = ground arith in
    let apart : (b.tail == b.head) ≡ false = ground arith in rw (room, more, apart) refl

-- From a valid buffer, a `keyboard_buffer_get` that is interrupted by a `keyboard_buffer_put` between
-- any two of its statements reads the same character, stores or refuses the typed one alike, and
-- leaves the same buffer as the two calls one after the other: the get first if the buffer was
-- empty, and the put first if not.
pub interrupted_get-ordered :
    (point : GetPoint) (typed : ℕ) (b : KeyboardBuffer)
    → IsValid b
    → interrupted_get point typed b
      ≡ (if keyboard_buffer_is_empty b then get_then_put typed b else put_then_get typed b)
unfolding interrupted_get keyboard_buffer_is_empty
interrupted_get-ordered point typed b v = elim (Bool-cases (b.count == 0)) [
  | inl empty ↦ rw empty refl
  | inr waits ↦ rw waits (elim (Bool-cases (leb 256 b.count)) [
    | inl full ↦ full_get point typed b waits full
    | inr room ↦ room_get point typed b waits room v
  ])
]

-- `keyboard_flush_buffer` with the interrupt after its first statement, `head = 0`.
unfoldable pub interrupted_flush : ℕ → KeyboardBuffer → KeyboardBuffer
interrupted_flush typed b =
    let (stored, b1) = keyboard_buffer_put (record b { head = 0 }) typed in
    record b1 { tail = 0; count = 0 }

-- From a buffer that is not full, after a `keyboard_flush_buffer` that is interrupted by a typed
-- character after its first statement, the next character typed is not the next one read: a read
-- gives the earlier one, and leaves the later one in a buffer that counts as empty.
pub interrupted_flush_lags :
    (typed next : ℕ) (b : KeyboardBuffer)
    → b.count < 256
    → let (c, rest) =
        keyboard_buffer_get (keyboard_buffer_put (interrupted_flush typed b) next).1 in
      (c ≡ typed) × (keyboard_buffer_is_empty rest ≡ true)
unfolding interrupted_flush keyboard_buffer_is_empty keyboard_buffer_is_full keyboard_buffer_put
    keyboard_buffer_get
interrupted_flush_lags typed next b l =
    let room : leb 256 b.count ≡ false = ground arith in rw (interrupted_flush, room) (refl, refl)
