-- ===== src/Screen/Examples.antt =====
-- The screen's theorems on small inputs: the text `Hi` on a blank screen.
use os_simple.Base.{
  ℕ, true, ◌≢◌, ◌+◌, ◌-◌, ◌≤◌, ◌≡◌, ◌&&◌, some, List, [], ◌∷◌, length, get_or, if◌then◌else◌, ltb,
  leb, arith,
}
use os_simple.Screen.{Screen, print_string, number_text}
use os_simple.Screen.Cursor.{OnScreen, OneLine, print_string-OnScreen, print_string_row}
use os_simple.Screen.Digits.{decimal_value, all_digits, NoLeadingZero, number_text_lem}

abbrev blank : Screen
blank = record { vga_buffer = λ a. 32; cursor_x = 3; cursor_y = 2 }

abbrev hi : List ℕ
hi = b'H' ∷ b'i' ∷ []

hi-OneLine : OneLine hi
hi-OneLine = (omega arith, (omega arith, tt))

print_string-OnScreen_example : OnScreen (print_string blank hi)
print_string-OnScreen_example = print_string-OnScreen blank hi (omega arith)

print_string_row_example :
    ((a : ℕ)
      → (print_string blank hi).vga_buffer a ≡ (
          if leb 163 a && ltb a 165
          then (if ltb (get_or hi (a - 163) 0) 128
              then 0x0f00 + get_or hi (a - 163) 0
              else 0xff00 + get_or hi (a - 163) 0)
          else 32))
    × ((print_string blank hi).cursor_x ≡ 5)
    × ((print_string blank hi).cursor_y ≡ 2)
print_string_row_example =
    print_string_row blank hi hi-OneLine (omega arith, (omega arith, tt)) (omega arith)

number_text_example :
    (text : List ℕ) × (number_text 1024 ≡ some text)
    × (all_digits text ≡ true)
    × (decimal_value 0 text ≡ 1024)
    × (◌≢◌ {A = ℕ} 1024 0 → NoLeadingZero text)
    × (length text ≤ 10)
number_text_example = number_text_lem 1024 (omega arith)
