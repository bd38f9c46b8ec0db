-- ===== src/Screen/Display.antt =====
-- Output on the displayed terminal leaves the terminals and their pages where they are.
use pony_os.Base.{ℕ, ◌+◌, ◌*◌, ◌<◌, ◌≡◌, refl, arith}
use pony_os.Screen.Cells.{num_cells, blank_char}
use pony_os.Screen.{
  Screen, physical_page, update_cursor, putc_scroll_display, erase_last_ch_display, erase_on, clear,
  clear_on,
}
use pony_os.Screen.Switch.{SameTerminals, putc_on-SameTerminals}

pub putc_scroll_display-SameTerminals :
    (c : ℕ) (s : Screen) → SameTerminals s (putc_scroll_display c s)
unfolding putc_scroll_display update_cursor
putc_scroll_display-SameTerminals c s = putc_on-SameTerminals physical_page s.display_terminal c s

pub erase_last_ch_display-SameTerminals : (s : Screen) → SameTerminals s (erase_last_ch_display s)
unfolding erase_last_ch_display update_cursor erase_on
erase_last_ch_display-SameTerminals s = ground arith

pub clear-SameTerminals : (s : Screen) → SameTerminals s (clear s)
unfolding clear clear_on update_cursor
clear-SameTerminals s = (refl, refl, refl)

-- The displayed page is blank after clear.
pub clear_blank :
    (s : Screen) (j : ℕ) → j < num_cells → (clear s).memory (physical_page * 0x1000 + 2 * j) ≡ b' '
unfolding clear clear_on
clear_blank s j p =
    blank_char physical_page (omega arith) num_cells 0 s.memory j (omega arith) (omega arith) p
