-- ===== src/Screen.antt =====
-- The text screen of student-distrib/lib.c: three terminals, each with a cursor and a 4 KB page of
-- character cells. The displayed terminal's cells are in the page 0xB8 of physical memory, the saved
-- cells of terminal t in the page 0xB9 + t; `video_mem` is mapped to the one or the other.
pub mod Cells
pub mod Cursor
pub mod Display
pub mod Printing
pub mod Switch
pub mod Tests
use pony_os.Base.{
  ℕ, zero, suc, ◌+◌, ◌-◌, ◌*◌, ◌/◌, ◌%◌, ◌^◌, Bool, ◌&&◌, ◌||◌, List, [], ◌∷◌, ltb, leb, ◌==◌,
  if◌then◌else◌,
}
use pony_os.Memory.{Memory}
use pony_os.Paging.{Paging, set_active_terminal_paging}

abbrev pub num_cols : ℕ
num_cols = 80

abbrev pub num_rows : ℕ
num_rows = 25

abbrev pub attrib : ℕ
attrib = 7

-- VIDEO_PHYSICAL is mapped to the displayed page, and TERMINAL_MEM[t] to page 0xB9 + t.
abbrev pub physical_page : ℕ
physical_page = 0xb8

-- `cursor` is what the CRT controller's two cursor registers hold. The rows are int32_t patterns.
pub record Screen : Type 0 where
  pub screen_x : ℕ → ℕ
  pub screen_y : ℕ → ℕ
  pub display_terminal : ℕ
  pub active_terminal : ℕ
  pub paging : Paging
  pub cursor : ℕ
  pub memory : Memory

abbrev pub update : (ℕ → ℕ) → ℕ → ℕ → ℕ → ℕ
update f p v q = if q == p then v else f q

-- What `*(uint8_t *)(page + (cell << 1)) = c` and the store of the attribute behind it do.
abbrev pub cell_address : ℕ → ℕ → ℕ
cell_address page cell = (page * 0x1000 + cell * 2) % 2 ^ 32

pub put_cell : ℕ → ℕ → ℕ → Memory → Memory
put_cell page cell c m =
    update (update m (cell_address page cell) c) (cell_address page cell + 1) attrib

-- pos = y * NUM_COLS + x as uint16_t, written a byte at a time.
pub update_cursor : ℕ → ℕ → Screen → Screen
update_cursor x y s =
    let position = (y * num_cols + x) % 2 ^ 16 in
    record s { cursor = position % 256 + 256 * (position / 256 % 256) }

-- The page behind `video_mem`.
abbrev pub video_page : Screen → ℕ
video_page s = (s.paging.page_table 0xb8).page_address

unfoldable pub set_active_terminal : ℕ → Screen → Screen
set_active_terminal t s =
    let display = if t == s.display_terminal then 1 else 0 in
    record s { paging = set_active_terminal_paging t display s.paging; active_terminal = t }

-- memcpy of a whole 4 KB page to another.
pub copy_page : ℕ → ℕ → Memory → Memory
copy_page dest src m a = if a / 0x1000 == dest then m (src * 0x1000 + a % 0x1000) else m a

pub set_display_terminal : ℕ → Screen → Screen
unfolding copy_page set_active_terminal update_cursor
set_display_terminal t s =
    let saved = copy_page (0xb9 + s.display_terminal) physical_page s.memory in
    let shown = copy_page physical_page (0xb9 + t) saved in
    let s' =
      set_active_terminal s.active_terminal (record s { memory = shown; display_terminal = t }) in
    update_cursor (s'.screen_x t) (s'.screen_y t) s'

-- `for (i = 0; i < n; i++)` over cells: put_cell of what `char` says at each, from the first on.
pub fill_cells : ℕ → (ℕ → Memory → ℕ) → ℕ → ℕ → Memory → Memory
unfolding put_cell
fill_cells page char zero i m = m
fill_cells page char (suc n) i m = fill_cells page char n (i + 1) (put_cell page i (char i m) m)

-- clear, by the page that `physical_video_mem` leads to.
pub clear_on : ℕ → Screen → Screen
unfolding update_cursor
clear_on page s =
    let t = s.display_terminal in
    let m = fill_cells page (λ i m. b' ') (num_rows * num_cols) 0 s.memory in
    update_cursor 0 0
      (record s { screen_x = update s.screen_x t 0; screen_y = update s.screen_y t 0; memory = m })

pub clear : Screen → Screen
unfolding clear_on
clear s = clear_on physical_page s

abbrev pub char_below : ℕ → ℕ → Memory → ℕ
char_below page i m = m (cell_address page (i + num_cols))

-- The double loop over the rows above the last visits the cells 0 to 80 * 24 - 1 in order.
pub shift_cells : ℕ → Memory → Memory
shift_cells page m =
    fill_cells page (λ i m. b' ') num_cols (num_cols * (num_rows - 1))
      (fill_cells page (λ i m. m (cell_address page (i + num_cols))) (num_cols * (num_rows - 1)) 0
        m)

pub shift_up_on : ℕ → ℕ → Screen → Screen
shift_up_on page t s = record s {
  memory = shift_cells page s.memory;
  screen_y = update s.screen_y t (num_rows - 1);
  screen_x = update s.screen_x t 0;
}

abbrev pub below_screen : ℕ → Bool
below_screen y = leb num_rows y && ltb y (2 ^ 31)

-- `while (y >= NUM_ROWS) shift_up();`
pub scroll : ℕ → ℕ → ℕ → Screen → Screen
scroll zero page t s = s
scroll (suc fuel) page t s =
    let rest = scroll fuel page t (shift_up_on page t s) in
    if below_screen (s.screen_y t) then rest else s

abbrev pub is_newline : ℕ → Bool
is_newline c = c == b'\n' || c == b'\r'

-- The line break, and the character at the cursor, of putc_scroll and putc_scroll_display.
abbrev pub next_row : ℕ → Screen → Screen
next_row t s = record s {
  screen_y = update s.screen_y t ((s.screen_y t + 1) % 2 ^ 32);
  screen_x = update s.screen_x t 0;
}

pub new_line : ℕ → ℕ → Screen → Screen
new_line page t s = scroll 2 page t (next_row t s)

abbrev pub cell_index : ℕ → Screen → ℕ
cell_index t s = num_cols * s.screen_y t + s.screen_x t

pub print : ℕ → ℕ → ℕ → Screen → Screen
print page t c s = record s {
  memory = put_cell page (cell_index t s) c s.memory;
  screen_y = update s.screen_y t ((s.screen_y t + (s.screen_x t + 1) / num_cols) % 2 ^ 32);
  screen_x = update s.screen_x t ((s.screen_x t + 1) % num_cols);
}

pub putc_on : ℕ → ℕ → ℕ → Screen → Screen
putc_on page t c s = if is_newline c then new_line page t s else print page t c (scroll 2 page t s)

abbrev pub show_cursor : ℕ → Screen → Screen
show_cursor t s = update_cursor (s.screen_x t) (s.screen_y t) s

pub putc_scroll : ℕ → Screen → Screen
unfolding update_cursor
putc_scroll c s =
    let s' = putc_on (video_page s) s.active_terminal c s in
    if s.active_terminal == s.display_terminal then show_cursor s.active_terminal s' else s'

pub putc_scroll_display : ℕ → Screen → Screen
unfolding update_cursor
putc_scroll_display c s =
    show_cursor s.display_terminal (putc_on physical_page s.display_terminal c s)

-- The store of a blank at a cell of the page behind a virtual address, which may lie beside the page:
-- with the cursor in the first column of the first row it is the cell before it.
abbrev pub erased_address : ℕ → ℕ → ℕ → ℕ
erased_address base page offset =
    let a = (base + offset) % 2 ^ 32 in
    if a / 0x1000 == base / 0x1000 then page * 0x1000 + a % 0x1000 else a

-- The common body of erase_last_ch and erase_last_ch_display: `base` is video_mem or
-- physical_video_mem, and `page` what it is mapped to.
pub erase_on : ℕ → ℕ → ℕ → Screen → Screen
erase_on base page t s =
    let back =
      if s.screen_x t == 0
      then record s {
        screen_x = update s.screen_x t (num_cols - 1);
        screen_y = update s.screen_y t ((s.screen_y t + (2 ^ 32 - 1)) % 2 ^ 32);
      }
      else record s { screen_x = update s.screen_x t (s.screen_x t - 1) } in
    let offset = cell_index t back * 2 in
    let m = update back.memory (erased_address base page offset) (b' ') in
    record back { memory = update m (erased_address base page (offset + 1)) attrib }

pub erase_last_ch : Screen → Screen
unfolding erase_on update_cursor
erase_last_ch s =
    let s' = erase_on 0xb8000 (video_page s) s.active_terminal s in
    if s.active_terminal == s.display_terminal then show_cursor s.active_terminal s' else s'

pub erase_last_ch_display : Screen → Screen
unfolding erase_on update_cursor
erase_last_ch_display s =
    show_cursor s.display_terminal (erase_on 0xbc000 physical_page s.display_terminal s)

-- puts_scroll(s, len) at a length that is not -1.
pub puts_scroll : List ℕ → Screen → Screen
puts_scroll [] s = s
puts_scroll (c ∷ cs) s = puts_scroll cs (putc_scroll c s)

-- `video_mem[i << 1]++` for the cells of the page behind video_mem.
pub bump_cells : ℕ → ℕ → ℕ → Memory → Memory
bump_cells page zero i m = m
bump_cells page (suc n) i m =
    bump_cells page n (i + 1)
      (update m (cell_address page i) ((m (cell_address page i) % 256 + 1) % 256))

pub test_interrupts : Screen → Screen
unfolding bump_cells
test_interrupts s = record s { memory = bump_cells (video_page s) (num_rows * num_cols) 0 s.memory }
