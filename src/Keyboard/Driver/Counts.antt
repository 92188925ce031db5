-- ===== src/Keyboard/Driver/Counts.antt =====
-- The driver's statistics add up.
use os_simple.Base.{ℕ, suc, ◌+◌, ◌^◌, ◌<◌, ◌≡◌, ◌⊎◌, true, false, List, [], ◌∷◌, arith, length}
use os_simple.Interrupt.Handlers.{Handlers}
use os_simple.Keyboard.Buffer.{KeyboardBuffer, keyboard_buffer_put}
use os_simple.Keyboard.Buffer.Refine.{IsValid}
use os_simple.Keyboard.Keys.{scancode_to_ascii}
use os_simple.Keyboard.Driver.{
  Keyboard, init_keyboard, handle_key_press, keyboard_interrupt, keyboard_interrupts,
}
use os_simple.Keyboard.Driver.Typing.{key_of, keyboard_interrupt-IsValid}

-- After `n` interrupts and no read: each was a press or a release, and each press was a special
-- key, a key with no character, a character lost to a full buffer, or one that the buffer holds.
pub record Balanced (n : ℕ) (k : Keyboard) : Type 0 where
  pub events : k.stats.total_keypresses + k.stats.total_releases ≡ n
  pub presses :
      k.stats.special_keys + k.stats.invalid_scancodes + k.stats.buffer_overflows + k.buffer.count
      ≡ k.stats.total_keypresses

put-count :
    (b : KeyboardBuffer) (c : ℕ)
    → IsValid b
    → (((keyboard_buffer_put b c).0 ≡ true) × ((keyboard_buffer_put b c).1.count ≡ b.count + 1))
      ⊎ (((keyboard_buffer_put b c).0 ≡ false) × ((keyboard_buffer_put b c).1.count ≡ b.count))
unfolding keyboard_buffer_put
put-count b c v = ground arith

keyboard_interrupt-Balanced :
    (n : ℕ) (k : Keyboard) (d : ℕ)
    → suc n < 2 ^ 32
    → IsValid k.buffer
    → Balanced n k
    → Balanced (suc n) (keyboard_interrupt k d).0
unfolding keyboard_interrupt handle_key_press
keyboard_interrupt-Balanced n k d h v b =
    ground (arith, put-count k.buffer (scancode_to_ascii k.state (key_of d)) v)

keyboard_interrupts-Balanced :
    (n m : ℕ) (k : Keyboard) (ds : List ℕ)
    → n + length ds ≡ m
    → m < 2 ^ 32
    → IsValid k.buffer
    → Balanced n k
    → Balanced m (keyboard_interrupts k ds)
unfolding keyboard_interrupts
keyboard_interrupts-Balanced n m k [] e h v b = omega arith
keyboard_interrupts-Balanced n m k (d ∷ ds) e h v b =
    keyboard_interrupts-Balanced (suc n) m (keyboard_interrupt k d).0 ds (omega arith) h
      (keyboard_interrupt-IsValid k d v) (keyboard_interrupt-Balanced n k d (omega arith) v b)

init_keyboard-IsValid : (k : Keyboard) (t : Handlers) → IsValid (init_keyboard k t).0.buffer
unfolding init_keyboard
init_keyboard-IsValid k t = omega arith

init_keyboard-Balanced : (k : Keyboard) (t : Handlers) → Balanced 0 (init_keyboard k t).0
unfolding init_keyboard
init_keyboard-Balanced k t = omega arith

-- From `init_keyboard`, after fewer than 2^32 interrupts with no read between: presses and releases
-- add up to the interrupts, and each press was counted once as a special key, as a key with no
-- character, as lost to a full buffer, or is held in the buffer.
pub init_keyboard-keyboard_interrupts :
    (k : Keyboard) (t : Handlers) (ds : List ℕ)
    → length ds < 2 ^ 32
    → Balanced (length ds) (keyboard_interrupts (init_keyboard k t).0 ds)
init_keyboard-keyboard_interrupts k t ds h =
    keyboard_interrupts-Balanced 0 (length ds) (init_keyboard k t).0 ds (omega arith) h
      (init_keyboard-IsValid k t) (init_keyboard-Balanced k t)
