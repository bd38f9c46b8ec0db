-- ===== src/Screen/Cursor.antt =====
-- Printing a character: where the cursor goes, and what is written.
use pony_os.Base.{
  List, [], ◌∷◌, ℕ, ◌+◌, ◌-◌, ◌*◌, ◌^◌, ◌≤◌, ◌<◌, ◌≡◌, ◌≢◌, ◌⊎◌, inl, inr, ◌∙◌, arith,
  if◌then◌else◌, false, Bool-cases, ◌==◌,
}
use pony_os.Screen.{
  next_row, puts_scroll, Screen, num_cols, num_rows, physical_page, video_page, shift_up_on,
  below_screen, scroll, is_newline, new_line, print, cell_index, putc_on, putc_scroll,
  putc_scroll_display, update_cursor, clear,
}
use pony_os.Screen.Cells.{num_cells, put_cell_out, put_cell_char, shift_cells_lem}

-- A cursor stands in its row, and at most one row below the screen: the next character scrolls.
abbrev pub InRange : Screen → Type 0
InRange s = (t : ℕ) → (s.screen_x t < num_cols) × (s.screen_y t ≤ num_rows)

-- Outside the 2000 cells of a page.
abbrev pub Outside : ℕ → ℕ → Type 0
Outside page a = (a < page * 0x1000) ⊎ (page * 0x1000 + 2 * num_cells ≤ a)

-- One round of the loop is enough, whatever the row.
pub scroll_lem :
    (page t : ℕ) (s : Screen)
    → scroll 2 page t s ≡ (if below_screen (s.screen_y t) then shift_up_on page t s else s)
unfolding scroll shift_up_on
scroll_lem page t s = ground arith

scroll-InRange : (page t : ℕ) (s : Screen) → InRange s → InRange (scroll 2 page t s)
unfolding shift_up_on
scroll-InRange page t s h u = ground (arith, scroll_lem page t s, h u)

-- After scrolling the cursor is on the screen.
scroll_on_screen : (page t : ℕ) (s : Screen) → InRange s → (scroll 2 page t s).screen_y t < num_rows
unfolding shift_up_on
scroll_on_screen page t s h = ground (arith, scroll_lem page t s, h t)

scroll_confined :
    (page t : ℕ) (s : Screen) (a : ℕ)
    → page < 2 ^ 20
    → Outside page a
    → (scroll 2 page t s).memory a ≡ s.memory a
unfolding shift_up_on
scroll_confined page t s a low out =
    ground (arith, scroll_lem page t s, (shift_cells_lem page low s.memory).1 a out)

print-InRange :
    (page t c : ℕ) (s : Screen) → InRange s → s.screen_y t < num_rows → InRange (print page t c s)
unfolding print
print-InRange page t c s h p u = ground (arith, h u, h t)

print_confined :
    (page t c : ℕ) (s : Screen) (a : ℕ)
    → page < 2 ^ 20
    → InRange s
    → s.screen_y t < num_rows
    → Outside page a
    → (print page t c s).memory a ≡ s.memory a
unfolding print
print_confined page t c s a low h p out =
    put_cell_out page low (cell_index t s) c s.memory a (omega (arith, h t)) (omega (arith, h t))

new_line-InRange : (page t : ℕ) (s : Screen) → InRange s → InRange (new_line page t s)
unfolding new_line shift_up_on
new_line-InRange page t s h u = ground (arith, scroll_lem page t (next_row t s), h u, h t)

new_line_confined :
    (page t : ℕ) (s : Screen) (a : ℕ)
    → page < 2 ^ 20
    → Outside page a
    → (new_line page t s).memory a ≡ s.memory a
unfolding new_line
new_line_confined page t s a low out = scroll_confined page t (next_row t s) a low out

pub putc_on-InRange : (page t c : ℕ) (s : Screen) → InRange s → InRange (putc_on page t c s)
unfolding putc_on
putc_on-InRange page t c s h = elim (Bool-cases (is_newline c)) [
  | inl nl ↦ rw nl (new_line-InRange page t s h)
  | inr ch ↦ rw ch (
      print-InRange page t c (scroll 2 page t s) (scroll-InRange page t s h)
        (scroll_on_screen page t s h))
]

pub putc_on_confined :
    (page t c : ℕ) (s : Screen) (a : ℕ)
    → page < 2 ^ 20
    → InRange s
    → Outside page a
    → (putc_on page t c s).memory a ≡ s.memory a
unfolding putc_on
putc_on_confined page t c s a low h out = elim (Bool-cases (is_newline c)) [
  | inl nl ↦ rw nl (new_line_confined page t s a low out)
  | inr ch ↦ rw ch (
      print_confined page t c (scroll 2 page t s) a low (scroll-InRange page t s h)
        (scroll_on_screen page t s h) out
      ∙ scroll_confined page t s a low out)
]

-- The row and the column that a printable character goes to: a cursor below the screen has
-- scrolled first.
abbrev pub print_row : ℕ → Screen → ℕ
print_row t s = if s.screen_y t == num_rows then num_rows - 1 else s.screen_y t

abbrev pub print_col : ℕ → Screen → ℕ
print_col t s = if s.screen_y t == num_rows then 0 else s.screen_x t

-- Scrolling puts the cursor there.
scroll-cell_index :
    (page t : ℕ) (s : Screen)
    → InRange s
    → cell_index t (scroll 2 page t s) ≡ num_cols * print_row t s + print_col t s
unfolding shift_up_on
scroll-cell_index page t s h = ground (arith, scroll_lem page t s, h t)

-- A printable character is stored at the cursor, after scrolling where the cursor is below the
-- screen, and the cursor moves on by one cell; the other cursors stay.
pub putc_on_print :
    (page t c : ℕ) (s : Screen)
    → page < 2 ^ 20
    → InRange s
    → is_newline c ≡ false
    → let s' = putc_on page t c s in
      let cell = num_cols * print_row t s + print_col t s in
      (s'.memory (page * 0x1000 + 2 * cell) ≡ c)
      × (num_cols * s'.screen_y t + s'.screen_x t ≡ cell + 1)
      × ((u : ℕ) → u ≢ t → (s'.screen_x u ≡ s.screen_x u) × (s'.screen_y u ≡ s.screen_y u))
unfolding putc_on print shift_up_on
putc_on_print page t c s low h ch = rw ch (
  rw (← scroll-cell_index page t s h)
      (put_cell_char page low (cell_index t r) c r.memory (omega (arith, on_screen, ranged))),
  ground (arith, scroll-cell_index page t s h, on_screen, ranged),
  λ u ne. (ground (arith, scroll_lem page t s), ground (arith, scroll_lem page t s)),
)
  where
    r : Screen
    r = scroll 2 page t s

    on_screen : r.screen_y t < num_rows
    on_screen = scroll_on_screen page t s h

    ranged : (r.screen_x t < num_cols) × (r.screen_y t ≤ num_rows)
    ranged = scroll-InRange page t s h t

-- Every operation that prints or clears keeps the cursors in range.
pub putc_scroll-InRange : (c : ℕ) (s : Screen) → InRange s → InRange (putc_scroll c s)
unfolding putc_scroll update_cursor
putc_scroll-InRange c s h t =
    ground (arith, putc_on-InRange (video_page s) s.active_terminal c s h t)

pub putc_scroll_display-InRange :
    (c : ℕ) (s : Screen) → InRange s → InRange (putc_scroll_display c s)
unfolding putc_scroll_display update_cursor
putc_scroll_display-InRange c s h t = putc_on-InRange physical_page s.display_terminal c s h t

pub clear-InRange : (s : Screen) → InRange s → InRange (clear s)
unfolding clear update_cursor
clear-InRange s h t = ground (arith, h t)

pub puts_scroll-InRange : (cs : List ℕ) (s : Screen) → InRange s → InRange (puts_scroll cs s)
unfolding puts_scroll
puts_scroll-InRange [] s h = h
puts_scroll-InRange (c ∷ cs) s h =
    puts_scroll-InRange cs (putc_scroll c s) (putc_scroll-InRange c s h)
