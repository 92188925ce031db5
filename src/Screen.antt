-- ===== src/Screen.antt =====
-- kernel/kernel.c: the VGA text screen and the print functions; kernel/interrupt.c: `print_hex`.
-- The text buffer is a function of the cell's index; the cursor never leaves the non-negative
-- numbers. A C string is the list of its bytes before the terminator.
pub mod Scrolling
pub mod Cursor
pub mod Digits
pub mod Examples
use Prim.Native.Char.{code}
use Prim.Native.String.{String}
use os_simple.Base.{
  ℕ, zero, suc, ◌+◌, ◌-◌, ◌*◌, ◌/◌, ◌%◌, Bool, List, [], ◌∷◌, Option, none, some, ◌==◌, ltb, leb,
  if◌then◌else◌, update, get_or, bit_and, bit_or,
}
use os_simple.Base.Effects.{
  Effect, outb, print_string as effect_string, print_bytes, print_name, print_char as effect_char,
  print_hex as effect_hex, print_number as effect_number,
}

abbrev pub vga_width : ℕ
vga_width = 80

abbrev pub vga_height : ℕ
vga_height = 25

pub record Screen : Type 0 where
  pub vga_buffer : ℕ → ℕ
  pub cursor_x : ℕ
  pub cursor_y : ℕ

-- The loop of `clear_screen`, with `left` rounds to go from index `i`.
unfoldable pub clear_loop : ℕ → ℕ → (ℕ → ℕ) → ℕ → ℕ
clear_loop zero i vga = vga
clear_loop (suc left) i vga = clear_loop left (i + 1) (update vga i (bit_or (0 * 256) b' '))

unfoldable pub clear_screen : Screen → Screen
clear_screen s = record {
  vga_buffer = clear_loop (vga_width * vga_height) 0 s.vga_buffer;
  cursor_x = 0;
  cursor_y = 0;
}

-- The inner loop of `scroll_screen` copies what is left of a row to the row above.
unfoldable pub copy_row : ℕ → ℕ → ℕ → (ℕ → ℕ) → ℕ → ℕ
copy_row zero col row vga = vga
copy_row (suc left) col row vga =
    copy_row left (col + 1) row
      (update vga ((row - 1) * vga_width + col) (vga (row * vga_width + col)))

unfoldable pub copy_rows : ℕ → ℕ → (ℕ → ℕ) → ℕ → ℕ
copy_rows zero row vga = vga
copy_rows (suc left) row vga = copy_rows left (row + 1) (copy_row vga_width 0 row vga)

unfoldable pub blank_row : ℕ → ℕ → (ℕ → ℕ) → ℕ → ℕ
blank_row zero col vga = vga
blank_row (suc left) col vga =
    blank_row left (col + 1)
      (update vga ((vga_height - 1) * vga_width + col) (bit_or b' ' (7 * 256)))

unfoldable pub scroll_screen : Screen → Screen
scroll_screen s = record {
  vga_buffer = blank_row vga_width 0 (copy_rows (vga_height - 1) 1 s.vga_buffer);
  cursor_x = 0;
  cursor_y = vga_height - 1;
}

-- `(uint16_t)c | (VGA_COLOR_WHITE << 8)`: the target's `char` is signed, so that a byte from 128 on
-- is extended by ones.
unfoldable pub char_cell : ℕ → ℕ
char_cell c = bit_or (if ltb c 128 then c else c + 0xff00) (0x0f * 256)

-- The next line, with a scroll at the bottom of the screen.
abbrev pub next_line : Screen → Screen
next_line s =
    if leb vga_height (s.cursor_y + 1)
    then scroll_screen (record s { cursor_x = 0; cursor_y = vga_height - 1 })
    else record s { cursor_x = 0; cursor_y = s.cursor_y + 1 }

unfoldable pub print_char : Screen → ℕ → Screen
print_char s c =
    if c == 10
    then next_line s
    else (let written = record s {
      vga_buffer = update s.vga_buffer (s.cursor_y * vga_width + s.cursor_x) (char_cell c);
      cursor_x = s.cursor_x + 1;
    } in
        if leb vga_width written.cursor_x then next_line written else written)

unfoldable pub print_string : Screen → List ℕ → Screen
print_string s [] = s
print_string s (c ∷ cs) = print_string (print_char s c) cs

-- The loop of `print_number` that fills the buffer of 12 characters, the digit stored last first.
-- `left` is the room left; `none` is a write past the end of the buffer.
unfoldable pub number_digits : ℕ → ℕ → List ℕ → Option (List ℕ)
number_digits zero num buffer = if num == 0 then some buffer else none
number_digits (suc left) num buffer =
    let more = number_digits left (num / 10) ((b'0' + num % 10) ∷ buffer) in
    if num == 0 then some buffer else more

-- What `print_number` prints.
unfoldable pub number_text : ℕ → Option (List ℕ)
number_text num = if num == 0 then some (b'0' ∷ []) else number_digits 12 num []

unfoldable pub print_number : Screen → ℕ → Option Screen
print_number s num = elim (number_text num) [ none ↦ none | some text ↦ some (print_string s text) ]

abbrev pub hex_chars : List ℕ
hex_chars =
    b'0' ∷ b'1' ∷ b'2' ∷ b'3' ∷ b'4' ∷ b'5' ∷ b'6' ∷ b'7' ∷ b'8' ∷ b'9' ∷ b'A' ∷ b'B' ∷ b'C' ∷ b'D'
    ∷ b'E' ∷ b'F' ∷ []

-- The loop of `print_hex`, from the last of the eight characters to the first.
unfoldable pub hex_digits : ℕ → ℕ → List ℕ → List ℕ
hex_digits zero value buffer = buffer
hex_digits (suc left) value buffer =
    hex_digits left (value / 16) (get_or hex_chars (bit_and value 0xf) 0 ∷ buffer)

unfoldable pub hex_text : ℕ → List ℕ
hex_text value = b'0' ∷ b'x' ∷ hex_digits 8 value []

unfoldable pub print_hex : Screen → ℕ → Screen
print_hex s value = print_string s (hex_text value)
