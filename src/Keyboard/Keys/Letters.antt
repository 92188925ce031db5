-- ===== src/Keyboard/Keys/Letters.antt =====
-- What Shift and Caps Lock do to each key.
use os_simple.Base.{
  ℕ, ◌-◌, ◌<◌, ◌≡◌, ◌↔◌, refl, Bool, true, false, not, ◌||◌, ◌==◌, ==_iff, if◌then◌else◌, get_or,
  arith,
}
use os_simple.Base.Bits.{all_below, all_below_sound}
use os_simple.Keyboard.Keys.{
  KeyboardState, scancode_to_ascii, scancode_to_ascii_table, shifted_chars, is_lower, apply_shift,
}

-- The character of a key with no modifier.
abbrev pub plain : ℕ → ℕ
plain s = get_or scancode_to_ascii_table s 0

-- The upper-case letter of a lower-case one.
abbrev pub upper : ℕ → ℕ
upper c = c - 32

abbrev letter_test : ℕ → Bool
letter_test s = if is_lower (plain s) then apply_shift s (plain s) == upper (plain s) else true

letter_table : all_below 128 letter_test ≡ true
unfolding all_below apply_shift scancode_to_ascii_table shifted_chars
letter_table = refl

shifted_letter :
    (s : ℕ) → s < 128 → is_lower (plain s) ≡ true → apply_shift s (plain s) ≡ upper (plain s)
shifted_letter s h l = (==_iff _ _).0 (rw l at (all_below_sound 128 letter_test s letter_table h))

-- On a letter key, Shift and Caps Lock, alone or together, give the upper-case letter.
pub scancode_to_ascii_letter :
    (k : KeyboardState) (s : ℕ)
    → s < 128
    → is_lower (plain s) ≡ true
    → scancode_to_ascii k s ≡ (if k.shift_pressed || k.caps_lock then upper (plain s) else plain s)
unfolding scancode_to_ascii
scancode_to_ascii_letter k s h l = ground (arith, shifted_letter s h l)

abbrev dead_test : ℕ → Bool
dead_test s = if plain s == 0 then apply_shift s 0 == 0 else not (apply_shift s (plain s) == 0)

dead_table : all_below 128 dead_test ≡ true
unfolding all_below apply_shift scancode_to_ascii_table shifted_chars
dead_table = refl

-- A key gives no character under some modifiers exactly when it gives none without modifiers.
pub scancode_to_ascii_dead :
    (k : KeyboardState) (s : ℕ) → s < 128 → (scancode_to_ascii k s ≡ 0) ↔ (plain s ≡ 0)
unfolding scancode_to_ascii
scancode_to_ascii_dead k s h = ground (arith, all_below_sound 128 dead_test s dead_table h)

-- On a key that is no letter, Caps Lock makes no difference.
pub scancode_to_ascii_caps :
    (k : KeyboardState) (s : ℕ)
    → s < 128
    → is_lower (plain s) ≡ false
    → scancode_to_ascii (record k { caps_lock = true }) s
      ≡ scancode_to_ascii (record k { caps_lock = false }) s
unfolding scancode_to_ascii
scancode_to_ascii_caps k s h l = ground arith
