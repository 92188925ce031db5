-- ===== src/Screen/Cursor.antt =====
-- Printing keeps the cursor on the screen, writes no word past it, and shows what is printed.
use os_simple.Base.{
  ℕ, zero, suc, ◌+◌, ◌-◌, ◌*◌, ◌≤◌, ◌<◌, ◌≡◌, ◌≢◌, refl, ap, ◌∙◌, Bool, true, false, ◌&&◌, List, [],
  ◌∷◌, ◌==◌, ltb, leb, if◌then◌else◌, update, get_or, length, arith,
}
use os_simple.Base.Bits.{all_below, all_below_sound}
use os_simple.Screen.{Screen, scroll_screen, char_cell, next_line, print_char, print_string}
use os_simple.Screen.Scrolling.{scroll_screen_lem}

pub record OnScreen (s : Screen) : Type 0 where
  pub column : s.cursor_x < 80
  pub row : s.cursor_y < 25

print_char-OnScreen : (s : Screen) (c : ℕ) → OnScreen s → OnScreen (print_char s c)
unfolding print_char scroll_screen
print_char-OnScreen s c v = ground arith

-- Printing any text keeps the cursor on the screen.
pub print_string-OnScreen : (s : Screen) (cs : List ℕ) → OnScreen s → OnScreen (print_string s cs)
unfolding print_string
print_string-OnScreen s [] v = v
print_string-OnScreen s (c ∷ cs) v =
    print_string-OnScreen (print_char s c) cs (print_char-OnScreen s c v)

next_line_past : (s : Screen) (a : ℕ) → 2000 ≤ a → (next_line s).vga_buffer a ≡ s.vga_buffer a
next_line_past s a h =
    ground (arith, scroll_screen_lem (record s { cursor_x = 0; cursor_y = 24 }) a)

print_char_past :
    (s : Screen) (c a : ℕ) → OnScreen s → 2000 ≤ a → (print_char s c).vga_buffer a ≡ s.vga_buffer a
unfolding print_char
print_char_past s c a v h = ground (
  arith,
  scroll_screen_lem (record s { cursor_x = 0; cursor_y = 24 }) a,
  scroll_screen_lem
      (record s {
        vga_buffer = update s.vga_buffer (s.cursor_y * 80 + s.cursor_x) (char_cell c);
        cursor_x = 0;
        cursor_y = 24;
      })
      a,
)

-- With the cursor on the screen, printing any text writes no word of memory past the 2000 cells.
pub print_string_past :
    (s : Screen) (cs : List ℕ) (a : ℕ)
    → OnScreen s
    → 2000 ≤ a
    → (print_string s cs).vga_buffer a ≡ s.vga_buffer a
unfolding print_string
print_string_past s [] a v h = refl
print_string_past s (c ∷ cs) a v h =
    print_string_past (print_char s c) cs a (print_char-OnScreen s c v) h
    ∙ print_char_past s c a v h

-- No line feed in the text.
abbrev pub OneLine : List ℕ → Type 0
OneLine [] = Unit {0}
OneLine (c ∷ cs) = (c ≢ 10) × OneLine cs

print_char_here :
    (s : Screen) (c : ℕ)
    → c ≢ 10
    → s.cursor_x + 1 < 80
    → print_char s c ≡ record s {
      vga_buffer = update s.vga_buffer (s.cursor_y * 80 + s.cursor_x) (char_cell c);
      cursor_x = s.cursor_x + 1;
    }
unfolding print_char
print_char_here s c ne h =
    let shown : (c == 10) ≡ false = ground arith in
    let room : leb 80 (s.cursor_x + 1) ≡ false = ground arith in rw (shown, room)

print_string_next :
    (s : Screen) (c : ℕ) (cs : List ℕ)
    → c ≢ 10
    → s.cursor_x + 1 < 80
    → print_string s (c ∷ cs)
      ≡ print_string
          (record s {
            vga_buffer = update s.vga_buffer (s.cursor_y * 80 + s.cursor_x) (char_cell c);
            cursor_x = s.cursor_x + 1;
          })
          cs
unfolding print_string
print_string_next s c cs ne h = ap (λ t. print_string t cs) (print_char_here s c ne h)

get_or-later : (c : ℕ) (cs : List ℕ) (n m : ℕ) → n ≡ suc m → get_or (c ∷ cs) n 0 ≡ get_or cs m 0
get_or-later c cs n m e = rw e

-- The cells by `char_cell`.
print_string_cells :
    (s : Screen) (cs : List ℕ)
    → OneLine cs
    → s.cursor_x + length cs < 80
    → ((a : ℕ)
        → (print_string s cs).vga_buffer a ≡ (
            if leb (s.cursor_y * 80 + s.cursor_x) a
              && ltb a (s.cursor_y * 80 + s.cursor_x + length cs)
            then char_cell (get_or cs (a - (s.cursor_y * 80 + s.cursor_x)) 0)
            else s.vga_buffer a))
      × ((print_string s cs).cursor_x ≡ s.cursor_x + length cs)
      × ((print_string s cs).cursor_y ≡ s.cursor_y)
unfolding print_string
print_string_cells s [] o h = (λ a. ground arith, omega arith, refl)
print_string_cells s (c ∷ cs) o h =
    let next = record s {
      vga_buffer = update s.vga_buffer (s.cursor_y * 80 + s.cursor_x) (char_cell c);
      cursor_x = s.cursor_x + 1;
    } in
    let ih = print_string_cells next cs o.1 (omega arith) in
    rw (print_string_next s c cs o.0 (omega arith)) (
      (λ a.
          ih.0 a
          ∙ ground (
            arith,
            get_or-later c cs (a - (s.cursor_y * 80 + s.cursor_x))
                (a - (s.cursor_y * 80 + (s.cursor_x + 1))),
          )),
      omega (arith, ih.1),
      ih.2,
    )

abbrev cell_test : ℕ → Bool
cell_test c = char_cell c == (if ltb c 128 then 0x0f00 + c else 0xff00 + c)

cell_table : all_below 256 cell_test ≡ true
unfolding all_below char_cell
cell_table = refl

-- A byte below 128 is shown in white on black; a byte from 128 on gets the attribute 0xff instead.
pub char_cell_lem : (c : ℕ) → c < 256 → char_cell c ≡ (if ltb c 128 then 0x0f00 + c else 0xff00 + c)
char_cell_lem c h = let test = all_below_sound 256 cell_test c cell_table h in ground arith

-- Every character is a byte.
abbrev pub Bytes : List ℕ → Type 0
Bytes [] = Unit {0}
Bytes (c ∷ cs) = (c < 256) × Bytes cs

get_or-Bytes : (cs : List ℕ) (i : ℕ) → Bytes cs → get_or cs i 0 < 256
get_or-Bytes [] i b = omega arith
get_or-Bytes (c ∷ cs) zero b = b.0
get_or-Bytes (c ∷ cs) (suc i) b = get_or-Bytes cs i b.1

-- A text of bytes in one line that ends before the right margin goes into the row of the cursor, from
-- its column on: a byte below 128 with the attribute 0x0f, white on black, and any other with 0xff.
-- Every other cell is as it was, and the cursor stands behind the text.
pub print_string_row :
    (s : Screen) (cs : List ℕ)
    → OneLine cs
    → Bytes cs
    → s.cursor_x + length cs < 80
    → ((a : ℕ)
        → (print_string s cs).vga_buffer a ≡ (
            let i = a - (s.cursor_y * 80 + s.cursor_x) in
            if leb (s.cursor_y * 80 + s.cursor_x) a
              && ltb a (s.cursor_y * 80 + s.cursor_x + length cs)
            then (if ltb (get_or cs i 0) 128
                then 0x0f00 + get_or cs i 0
                else 0xff00 + get_or cs i 0)
            else s.vga_buffer a))
      × ((print_string s cs).cursor_x ≡ s.cursor_x + length cs)
      × ((print_string s cs).cursor_y ≡ s.cursor_y)
print_string_row s cs o b h =
    let cells = print_string_cells s cs o h in
    (
      λ a.
          cells.0 a
          ∙ rw
              (char_cell_lem (get_or cs (a - (s.cursor_y * 80 + s.cursor_x)) 0)
                (get_or-Bytes cs (a - (s.cursor_y * 80 + s.cursor_x)) b))
              refl,
      cells.1,
      cells.2,
    )
