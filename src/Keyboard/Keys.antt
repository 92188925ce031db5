-- ===== src/Keyboard/Keys.antt =====
-- kernel/keyboard.c and keyboard.h: the modifier state, the two translation tables, the special
-- keys, and the translation of a scan code to a character (8, 9, 10, 27, 32, 39 and 92 are
-- backspace, tab, newline, escape, space, quote and backslash).
pub mod Letters
use os_simple.Base.{
  ℕ, Bool, true, false, not, ◌&&◌, ◌||◌, List, [], ◌∷◌, ◌==◌, leb, ltb, if◌then◌else◌, get_or,
}

abbrev pub key_ctrl : ℕ
key_ctrl = 0x1d

abbrev pub key_lshift : ℕ
key_lshift = 0x2a

abbrev pub key_rshift : ℕ
key_rshift = 0x36

abbrev pub key_alt : ℕ
key_alt = 0x38

abbrev pub key_caps : ℕ
key_caps = 0x3a

pub record KeyboardState : Type 0 where
  pub shift_pressed : Bool
  pub ctrl_pressed : Bool
  pub alt_pressed : Bool
  pub caps_lock : Bool
  pub num_lock : Bool
  pub scroll_lock : Bool

unfoldable pub scancode_to_ascii_table : List ℕ
scancode_to_ascii_table =
    0 ∷ 27 ∷ b'1' ∷ b'2' ∷ b'3' ∷ b'4' ∷ b'5' ∷ b'6' ∷ b'7' ∷ b'8' ∷ b'9' ∷ b'0' ∷ b'-' ∷ b'=' ∷ 8
    ∷ 9 ∷ b'q' ∷ b'w' ∷ b'e' ∷ b'r' ∷ b't' ∷ b'y' ∷ b'u' ∷ b'i' ∷ b'o' ∷ b'p' ∷ b'[' ∷ b']' ∷ 10 ∷ 0
    ∷ b'a' ∷ b's' ∷ b'd' ∷ b'f' ∷ b'g' ∷ b'h' ∷ b'j' ∷ b'k' ∷ b'l' ∷ b';' ∷ 39 ∷ b'`' ∷ 0 ∷ 92
    ∷ b'z' ∷ b'x' ∷ b'c' ∷ b'v' ∷ b'b' ∷ b'n' ∷ b'm' ∷ b',' ∷ b'.' ∷ b'/' ∷ 0 ∷ b'*' ∷ 0 ∷ 32 ∷ 0
    ∷ 0 ∷ 0 ∷ 0 ∷ 0 ∷ 0 ∷ 0 ∷ 0 ∷ 0 ∷ 0 ∷ 0 ∷ 0 ∷ 0 ∷ b'7' ∷ b'8' ∷ b'9' ∷ b'-' ∷ b'4' ∷ b'5' ∷ b'6'
    ∷ b'+' ∷ b'1' ∷ b'2' ∷ b'3' ∷ b'0' ∷ b'.' ∷ 0 ∷ 0 ∷ 0 ∷ 0 ∷ 0 ∷ 0 ∷ 0 ∷ 0 ∷ 0 ∷ 0 ∷ 0 ∷ 0 ∷ 0
    ∷ 0 ∷ 0 ∷ 0 ∷ 0 ∷ 0 ∷ 0 ∷ 0 ∷ 0 ∷ 0 ∷ 0 ∷ 0 ∷ 0 ∷ 0 ∷ 0 ∷ 0 ∷ 0 ∷ 0 ∷ 0 ∷ 0 ∷ 0 ∷ 0 ∷ 0 ∷ 0 ∷ 0
    ∷ 0 ∷ 0 ∷ 0 ∷ 0 ∷ 0 ∷ 0 ∷ 0 ∷ []

unfoldable pub shifted_chars : List ℕ
shifted_chars =
    0 ∷ 27 ∷ b'!' ∷ b'@' ∷ b'#' ∷ b'$' ∷ b'%' ∷ b'^' ∷ b'&' ∷ b'*' ∷ b'(' ∷ b')' ∷ b'_' ∷ b'+' ∷ 8
    ∷ 9 ∷ b'Q' ∷ b'W' ∷ b'E' ∷ b'R' ∷ b'T' ∷ b'Y' ∷ b'U' ∷ b'I' ∷ b'O' ∷ b'P' ∷ b'{' ∷ b'}' ∷ 10 ∷ 0
    ∷ b'A' ∷ b'S' ∷ b'D' ∷ b'F' ∷ b'G' ∷ b'H' ∷ b'J' ∷ b'K' ∷ b'L' ∷ b':' ∷ b'"' ∷ b'~' ∷ 0 ∷ b'|'
    ∷ b'Z' ∷ b'X' ∷ b'C' ∷ b'V' ∷ b'B' ∷ b'N' ∷ b'M' ∷ b'<' ∷ b'>' ∷ b'?' ∷ 0 ∷ b'*' ∷ 0 ∷ 32 ∷ 0
    ∷ 0 ∷ 0 ∷ 0 ∷ 0 ∷ 0 ∷ 0 ∷ 0 ∷ 0 ∷ 0 ∷ 0 ∷ 0 ∷ 0 ∷ b'7' ∷ b'8' ∷ b'9' ∷ b'-' ∷ b'4' ∷ b'5' ∷ b'6'
    ∷ b'+' ∷ b'1' ∷ b'2' ∷ b'3' ∷ b'0' ∷ b'.' ∷ 0 ∷ 0 ∷ 0 ∷ 0 ∷ 0 ∷ 0 ∷ 0 ∷ 0 ∷ 0 ∷ 0 ∷ 0 ∷ 0 ∷ 0
    ∷ 0 ∷ 0 ∷ 0 ∷ 0 ∷ 0 ∷ 0 ∷ 0 ∷ 0 ∷ 0 ∷ 0 ∷ 0 ∷ 0 ∷ 0 ∷ 0 ∷ 0 ∷ 0 ∷ 0 ∷ 0 ∷ 0 ∷ 0 ∷ 0 ∷ 0 ∷ 0 ∷ 0
    ∷ 0 ∷ 0 ∷ 0 ∷ 0 ∷ 0 ∷ 0 ∷ 0 ∷ []

-- A `switch` over the two Shift keys.
abbrev pub is_shift : ℕ → Bool
is_shift s = s == key_lshift || s == key_rshift

unfoldable pub is_special_key : ℕ → Bool
is_special_key s = is_shift s || s == key_ctrl || s == key_alt || s == key_caps

unfoldable pub handle_special_key : KeyboardState → ℕ → KeyboardState
handle_special_key k s =
    if is_shift s
    then record k { shift_pressed = true }
    else if s == key_ctrl
    then record k { ctrl_pressed = true }
    else if s == key_alt
    then record k { alt_pressed = true }
    else if s == key_caps
    then record k { caps_lock = not k.caps_lock }
    else k

unfoldable pub handle_key_release : KeyboardState → ℕ → KeyboardState
handle_key_release k s =
    if is_shift s
    then record k { shift_pressed = false }
    else if s == key_ctrl
    then record k { ctrl_pressed = false }
    else if s == key_alt
    then record k { alt_pressed = false }
    else k

abbrev pub is_lower : ℕ → Bool
is_lower c = leb b'a' c && leb c b'z'

-- The shifted character, unless the table has none.
unfoldable pub apply_shift : ℕ → ℕ → ℕ
apply_shift s ascii =
    if ltb s 128
    then (let shifted = get_or shifted_chars s 0 in if shifted == 0 then ascii else shifted)
    else ascii

unfoldable pub scancode_to_ascii : KeyboardState → ℕ → ℕ
unfolding apply_shift
scancode_to_ascii k s =
    if leb 128 s
    then 0
    else (let ascii = get_or scancode_to_ascii_table s 0 in
        if k.shift_pressed || (k.caps_lock && is_lower ascii) then apply_shift s ascii else ascii)
