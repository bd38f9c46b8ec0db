-- ===== src/Screen/Tests.antt =====
-- A screen with three terminals, the first one displayed.
use pony_os.Base.{ℕ, ◌+◌, ◌*◌, ◌/◌, ◌<◌, ◌≤◌, ◌≡◌, ◌≢◌, ◌⊎◌, [], ◌∷◌, refl, arith}
use pony_os.Paging.{Paging, empty_table_entry, writable_dir_entry}
use pony_os.Screen.{
  Screen, putc_on, puts_scroll, set_active_terminal, set_display_terminal, shift_cells, attrib,
  physical_page,
}
use pony_os.Screen.Cells.{num_cells, shifted, shift_cells_lem}
use pony_os.Screen.Cursor.{InRange, putc_on-InRange, putc_on_print}
use pony_os.Screen.Switch.{
  set_active_terminal-IsMapped, puts_scroll_background, set_display_terminal_lem,
}

abbrev pub tables : Paging
tables = record {
  page_dir = λ i. record writable_dir_entry { aligned_address = 3072 };
  page_table = λ i. empty_table_entry;
  user_video_page_table = λ i. empty_table_entry;
}

-- The cursor of each terminal stands behind the last cell.
abbrev pub full : Screen
full = record {
  screen_x = λ t. 0;
  screen_y = λ t. 25;
  display_terminal = 0;
  active_terminal = 1;
  paging = tables;
  cursor = 0;
  memory = λ a. b'x';
}

abbrev second : Screen
second = set_active_terminal 1 full

pub full-InRange : InRange full
full-InRange t = (omega arith, omega arith)

unfoldable second-InRange : InRange second
unfolding set_active_terminal
second-InRange t = (omega arith, omega arith)

-- Printing on the full screen scrolls it first.
putc_on_print_example :
    let s' = putc_on physical_page 0 b'a' full in
    (s'.memory (physical_page * 0x1000 + 2 * 1920) ≡ b'a')
    × (80 * s'.screen_y 0 + s'.screen_x 0 ≡ 1921)
    × ((u : ℕ) → u ≢ 0 → (s'.screen_x u ≡ full.screen_x u) × (s'.screen_y u ≡ full.screen_y u))
putc_on_print_example = putc_on_print physical_page 0 b'a' full (omega arith) full-InRange refl

putc_on-InRange_example : InRange (putc_on physical_page 0 b'a' full)
putc_on-InRange_example = putc_on-InRange physical_page 0 b'a' full full-InRange

shift_cells_lem_example :
    ((j : ℕ)
      → j < num_cells
      → (shift_cells physical_page full.memory (physical_page * 0x1000 + 2 * j)
          ≡ shifted physical_page (omega arith) full.memory j)
        × (shift_cells physical_page full.memory (physical_page * 0x1000 + 2 * j + 1) ≡ attrib))
    × ((a : ℕ)
        → (a < physical_page * 0x1000) ⊎ (physical_page * 0x1000 + 2 * num_cells ≤ a)
        → shift_cells physical_page full.memory a ≡ full.memory a)
shift_cells_lem_example = shift_cells_lem physical_page (omega arith) full.memory

-- Terminal 1 prints while terminal 0 is displayed.
puts_scroll_background_example :
    (puts_scroll (b'h' ∷ b'i' ∷ []) second).memory 0xb8000 ≡ second.memory 0xb8000
unfolding set_active_terminal
puts_scroll_background_example =
    puts_scroll_background (b'h' ∷ b'i' ∷ []) second 0xb8000 second-InRange
      (set_active_terminal-IsMapped 1 full) (omega arith) (omega arith) (omega arith)

set_display_terminal_lem_example :
    let s' = set_display_terminal 2 full in
    (s'.display_terminal ≡ 2)
    × (s'.active_terminal ≡ 1)
    × ((o : ℕ)
        → o < 0x1000
        → (s'.memory (physical_page * 0x1000 + o)
            ≡ full.memory ((physical_page + 2 + 1) * 0x1000 + o))
          × (s'.memory ((physical_page + 0 + 1) * 0x1000 + o)
              ≡ full.memory (physical_page * 0x1000 + o)))
    × ((a : ℕ)
        → a / 0x1000 ≢ physical_page
        → a / 0x1000 ≢ physical_page + 0 + 1
        → s'.memory a ≡ full.memory a)
set_display_terminal_lem_example = set_display_terminal_lem 2 full (omega arith)
