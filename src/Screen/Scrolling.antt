-- ===== src/Screen/Scrolling.antt =====
-- What the loops over the text buffer leave in each cell.
use os_simple.Base.{
  ℕ, zero, suc, ◌+◌, ◌-◌, ◌*◌, ◌≤◌, ◌<◌, ◌≡◌, refl, ◌∙◌, Bool, ◌&&◌, ltb, leb, if◌then◌else◌,
  update, arith,
}
use os_simple.Screen.{
  Screen, clear_loop, clear_screen, copy_row, copy_rows, blank_row, scroll_screen,
}

abbrev between : ℕ → ℕ → ℕ → Bool
between lo hi a = leb lo a && ltb a hi

clear_loop_lem :
    (left i : ℕ) (vga : ℕ → ℕ) (a : ℕ)
    → clear_loop left i vga a ≡ (if between i (i + left) a then 32 else vga a)
unfolding clear_loop
clear_loop_lem zero i vga a = ground arith
clear_loop_lem (suc left) i vga a = clear_loop_lem left (i + 1) (update vga i 32) a ∙ ground arith

copy_row_lem :
    (left col row : ℕ) (vga : ℕ → ℕ) (a : ℕ)
    → 0 < row
    → col + left ≤ 80
    → copy_row left col row vga a ≡ (
        if between ((row - 1) * 80 + col) ((row - 1) * 80 + col + left) a
        then vga (a + 80)
        else vga a)
unfolding copy_row
copy_row_lem zero col row vga a pos fit = ground arith
copy_row_lem (suc left) col row vga a pos fit =
    copy_row_lem left (col + 1) row (update vga ((row - 1) * 80 + col) (vga (row * 80 + col))) a pos
      (omega arith)
    ∙ ground arith

copy_rows_lem :
    (left row : ℕ) (vga : ℕ → ℕ) (a : ℕ)
    → 0 < row
    → copy_rows left row vga a
      ≡ (if between ((row - 1) * 80) ((row - 1 + left) * 80) a then vga (a + 80) else vga a)
unfolding copy_rows
copy_rows_lem zero row vga a pos = ground arith
copy_rows_lem (suc left) row vga a pos =
    copy_rows_lem left (row + 1) (copy_row 80 0 row vga) a (omega arith)
    ∙ ground (
      arith,
      copy_row_lem 80 0 row vga a pos (omega arith),
      copy_row_lem 80 0 row vga (a + 80) pos (omega arith),
    )

blank_row_lem :
    (left col : ℕ) (vga : ℕ → ℕ) (a : ℕ)
    → blank_row left col vga a
      ≡ (if between (1920 + col) (1920 + col + left) a then 0x720 else vga a)
unfolding blank_row
blank_row_lem zero col vga a = ground arith
blank_row_lem (suc left) col vga a =
    blank_row_lem left (col + 1) (update vga (1920 + col) 0x720) a ∙ ground arith

-- `clear_screen` puts a space in each of the 2000 cells, writes no other word, and homes the cursor.
pub clear_screen_lem :
    (s : Screen) (a : ℕ)
    → ((clear_screen s).vga_buffer a ≡ (if ltb a 2000 then 32 else s.vga_buffer a))
      × ((clear_screen s).cursor_x ≡ 0)
      × ((clear_screen s).cursor_y ≡ 0)
unfolding clear_screen
clear_screen_lem s a = (clear_loop_lem 2000 0 s.vga_buffer a ∙ ground arith, refl, refl)

-- `scroll_screen` moves each row up by one, fills the last row with grey spaces, writes no word
-- past the screen, and puts the cursor at the start of the last row.
pub scroll_screen_lem :
    (s : Screen) (a : ℕ)
    → ((scroll_screen s).vga_buffer a ≡ (
        if ltb a 1920 then s.vga_buffer (a + 80) else if ltb a 2000 then 0x720 else s.vga_buffer a))
      × ((scroll_screen s).cursor_x ≡ 0)
      × ((scroll_screen s).cursor_y ≡ 24)
unfolding scroll_screen
scroll_screen_lem s a = (
  blank_row_lem 80 0 (copy_rows 24 1 s.vga_buffer) a
      ∙ ground (arith, copy_rows_lem 24 1 s.vga_buffer a (omega arith)),
  refl,
  refl,
)
