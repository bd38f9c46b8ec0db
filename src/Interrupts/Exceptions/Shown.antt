-- ===== src/Interrupts/Exceptions/Shown.antt =====
-- What an exception of student-distrib/idt.c leaves on the screen.
use pony_os.Base.{
  ℕ, ◌+◌, ◌*◌, ◌<◌, ◌≤◌, ◌≡◌, ◌≢◌, ◌⊎◌, refl, ap, ◌∙◌, arith, true, false, length, get_or, returns,
}
use pony_os.Screen.{clear, physical_page, num_cols, num_rows, video_page}
use pony_os.Screen.Cells.{num_cells}
use pony_os.Screen.Switch.{IsMapped}
use pony_os.Screen.Display.{clear-SameTerminals, clear_blank}
use pony_os.Console.{Console, putc_all}
use pony_os.Console.Rows.{is_text, Shown, putc_all-Shown, printf-text}
use pony_os.Interrupts.{
  Handler, exception_de, exception_db, exception_nmi, exception_bp, exception_of, exception_br,
  exception_ud, exception_nm, exception_df, exception_cs, exception_ts, exception_np, exception_ss,
  exception_gp, exception_pf, exception_rs, exception_mf, exception_ac, exception_mc, exception_xf,
  general_handler_wrapper, keyboard_handler_wrapper, rtc_handler_wrapper, pit_handler_wrapper,
}
use pony_os.Interrupts.Exceptions.{Cpu, message, report, exception}

message-is_text : (h : Handler) → is_text (message h) ≡ true
unfolding message
message-is_text exception_de = refl
message-is_text exception_db = refl
message-is_text exception_nmi = refl
message-is_text exception_bp = refl
message-is_text exception_of = refl
message-is_text exception_br = refl
message-is_text exception_ud = refl
message-is_text exception_nm = refl
message-is_text exception_df = refl
message-is_text exception_cs = refl
message-is_text exception_ts = refl
message-is_text exception_np = refl
message-is_text exception_ss = refl
message-is_text exception_gp = refl
message-is_text exception_pf = refl
message-is_text exception_rs = refl
message-is_text exception_mf = refl
message-is_text exception_ac = refl
message-is_text exception_mc = refl
message-is_text exception_xf = refl
message-is_text general_handler_wrapper = refl
message-is_text keyboard_handler_wrapper = refl
message-is_text rtc_handler_wrapper = refl
message-is_text pit_handler_wrapper = refl

cleared : Cpu → Console
cleared cpu = record (cpu.console) { screen = clear cpu.console.screen }

module _ (task conv_buf : ℕ) (stack : ℕ → ℕ) (h : Handler) (cpu : Cpu)
    (x : cpu.console.screen_x < num_cols) (y : cpu.console.screen_y < num_rows)
    (fits : cpu.console.screen_x + length (message h) ≤ num_cols)
    (mapped : IsMapped cpu.console.screen) where
  abbrev pub start : ℕ
  start = num_cols * cpu.console.screen_y + cpu.console.screen_x

  after : Cpu
  after = record { interrupts = false; console = putc_all (message h) (cleared cpu) }

  exception_ends : exception task conv_buf stack h cpu ≡ returns after
  unfolding exception report cleared after
  exception_ends =
      rw (printf-text task conv_buf stack (message h) (cleared cpu) (message-is_text h)) refl

  printed : Shown (message h) (cleared cpu)
  unfolding cleared
  printed = putc_all-Shown (message h) (cleared cpu) (message-is_text h) x y fits

  page : video_page (cleared cpu).screen ≡ video_page cpu.console.screen
  unfolding cleared
  page = (clear-SameTerminals cpu.console.screen).2

  -- When the process that faults is on the displayed terminal, video_mem is mapped as the switches map
  -- it, printf's cursor is in one of the 80 columns and 25 rows and the message fits in its row: the
  -- handler reaches its endless loop with interrupts off, the message stands on the displayed screen
  -- from that cursor on, and every other cell is blank.
  pub exception_shown :
      cpu.console.screen.active_terminal ≡ cpu.console.screen.display_terminal
      → (cpu' : Cpu) × (exception task conv_buf stack h cpu ≡ returns cpu')
        × (cpu'.interrupts ≡ false)
        × ((i : ℕ)
            → i < length (message h)
            → cpu'.console.screen.memory (physical_page * 0x1000 + 2 * (start + i))
              ≡ get_or (message h) i 0)
        × ((j : ℕ)
            → j < num_cells
            → (j < start) ⊎ (start + length (message h) ≤ j)
            → cpu'.console.screen.memory (physical_page * 0x1000 + 2 * j) ≡ b' ')
  unfolding after cleared
  exception_shown same = (
    after,
    exception_ends,
    refl,
    λ i p.
        ap (putc_all (message h) (cleared cpu)).screen.memory (ground (arith, page))
        ∙ printed.0 i p,
    λ j p out. printed.1 _ (ground (arith, page)) ∙ clear_blank cpu.console.screen j p,
  )

  -- When it is on a terminal that is not displayed, video_mem is mapped as the switches map it, printf's
  -- cursor is in one of the 80 columns and 25 rows and the message fits in its row: the handler reaches
  -- its endless loop with interrupts off, and every cell of the displayed screen is blank.
  pub exception_hidden :
      cpu.console.screen.active_terminal ≢ cpu.console.screen.display_terminal
      → (cpu' : Cpu) × (exception task conv_buf stack h cpu ≡ returns cpu')
        × (cpu'.interrupts ≡ false)
        × ((j : ℕ)
            → j < num_cells
            → cpu'.console.screen.memory (physical_page * 0x1000 + 2 * j) ≡ b' ')
  unfolding after cleared
  exception_hidden other = (
    after,
    exception_ends,
    refl,
    λ j p. printed.1 _ (ground (arith, page, fits)) ∙ clear_blank cpu.console.screen j p,
  )
