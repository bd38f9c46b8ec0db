-- ===== src/Keyboard.antt =====
-- The keyboard of student-distrib/keyboard.c: from scan codes to the line buffer of the displayed
-- terminal.
pub mod Tables
pub mod Convert
pub mod Line
pub mod Codes
pub mod ReadLine
pub mod Tests
use pony_os.Base.{
  List, [], ◌∷◌, ℕ, zero, suc, ◌+◌, ◌-◌, ◌*◌, ◌%◌, ◌^◌, Bool, true, false, not, ◌&&◌, ◌||◌, Option,
  none, some, ltb, leb, ◌==◌, if◌then◌else◌, Outcome, returns, and_then,
}
use pony_os.Screen.{update, putc_scroll_display, erase_last_ch_display, clear, set_display_terminal}
use pony_os.Terminal.{Terminals, keyboard_size, line_limit, print_size, update_row}
use pony_os.Process.{Kernel, get_empty_pid}
use pony_os.Scheduler.{Registers}
use pony_os.Execute.{result, Control, execute_with_terminal_num}
use pony_os.Pic.{send_eoi, Pic, enable_irq}
use Tables.{scancodes_map, special_convert_map}

-- pressed_key, cap_status, hold_num as an int32_t pattern, and which terminals have their shell.
pub record Keys : Type 0 where
  pub pressed_key : ℕ → ℕ
  pub cap_status : ℕ
  pub hold_num : ℕ
  pub terminal_2_running : ℕ
  pub terminal_3_running : ℕ

abbrev pub cleared : (ℕ → ℕ) → ℕ → ℕ → ℕ
cleared f n i = if ltb i n then 0 else f i

unfoldable pub keyboard_init : Keys → Terminals → Pic → Keys × Terminals × Pic
keyboard_init keys ts pic = (
  record keys { pressed_key = cleared keys.pressed_key 128; cap_status = 0; hold_num = 0 },
  record ts {
    keyboard_buffer =
        λ t. if ltb t 3 then cleared (ts.keyboard_buffer t) keyboard_size else ts.keyboard_buffer t;
    cursor_ind = cleared ts.cursor_ind 3;
    terminal_read_ready = cleared ts.terminal_read_ready 3;
  },
  enable_irq 1 pic,
)

unfoldable pub is_shifted : Keys → Bool
is_shifted keys = keys.pressed_key 42 == 1 || (keys.pressed_key 54 == 1)

unfoldable pub character_convert : Keys → ℕ → ℕ
character_convert keys c =
    let plain = scancodes_map c in
    let caps =
      if keys.cap_status == 1 && leb (b'a') plain && leb plain (b'z')
      then special_convert_map plain
      else plain in
    if plain == 0 then 0 else if is_shifted keys then special_convert_map caps else caps

-- A line is complete: it goes to the print buffer of its terminal, whose reader may go on.
pub enter : Kernel → Kernel
enter k =
    let t = k.screen.display_terminal in
    let row = t * print_size in
    let ts = k.terminals in
    let printed = λ (b : ℕ).
      if leb row b && ltb b (row + print_size)
      then if ltb (b - row) keyboard_size then ts.keyboard_buffer t (b - row) else 0
      else ts.print_buffer b in
    record k {
      terminals = record ts {
        print_buffer = printed;
        keyboard_buffer =
            update_row ts.keyboard_buffer t (cleared (ts.keyboard_buffer t) keyboard_size);
        terminal_read_ready = update ts.terminal_read_ready t 1;
        cursor_ind = update ts.cursor_ind t 0;
      };
    }

pub backspace : Kernel → Kernel
backspace k =
    let t = k.screen.display_terminal in
    let ts = k.terminals in
    let at = ts.cursor_ind t - 1 in
    if ts.cursor_ind t == 0 then k else record k {
      terminals = record ts {
        keyboard_buffer = update_row ts.keyboard_buffer t (update (ts.keyboard_buffer t) at 0);
        cursor_ind = update ts.cursor_ind t at;
      };
      screen = erase_last_ch_display k.screen;
    }

pub type_character : ℕ → Kernel → Kernel
type_character ch k =
    let t = k.screen.display_terminal in
    let ts = k.terminals in
    let at = ts.cursor_ind t in
    if leb line_limit at then k else record k {
      terminals = record ts {
        keyboard_buffer = update_row ts.keyboard_buffer t (update (ts.keyboard_buffer t) at ch);
        cursor_ind = update ts.cursor_ind t (at + 1);
      };
      screen = putc_scroll_display ch k.screen;
    }

-- Ctrl and L.
pub clear_line : Kernel → Kernel
clear_line k =
    let t = k.screen.display_terminal in
    let ts = k.terminals in
    record k {
      terminals = record ts {
        keyboard_buffer =
            update_row ts.keyboard_buffer t (cleared (ts.keyboard_buffer t) keyboard_size);
        cursor_ind = update ts.cursor_ind t 0;
      };
      screen = clear k.screen;
    }

abbrev pub show : ℕ → Kernel → Kernel
show t k = record k { screen = set_display_terminal t k.screen }

pub press : ℕ → Keys → Keys
press c keys = record keys {
  pressed_key = update keys.pressed_key c 1;
  hold_num = (keys.hold_num + 1) % 2 ^ 32;
  cap_status = if c == 58 then (2 ^ 32 + 1 - keys.cap_status) % 2 ^ 32 else keys.cap_status;
}

pub release : ℕ → Keys → Keys
release c keys = record keys {
  pressed_key = update keys.pressed_key (c - 128) 0;
  hold_num = (keys.hold_num + (2 ^ 32 - 1)) % 2 ^ 32;
}

-- What the two last tests of scancode_processing do.
pub edit : ℕ → Kernel → Kernel
edit c k = if c == 28 then enter k else if c == 14 then backspace k else k

-- `name` is where the string "shell" of the file lies; `none` when no program was started.
module _ (fname temp_buf shell_name name : ℕ) where
  pub start_shell :
      ℕ → ℕ → Keys → Keys → Registers → Kernel → Outcome (Option Control × Keys × Kernel)
  start_shell c t keys marked r k = elim (get_empty_pid k) [
    | none ↦ returns (none, keys, k)
    | some pid ↦
        and_then (execute_with_terminal_num fname temp_buf shell_name name t 1 r k)
          λ (control, k'). returns (some control, marked, edit c k')
  ]

  -- Alt and F1, F2 or F3.
  pub switch_key : ℕ → Keys → Registers → Kernel → Outcome (Option Control × Keys × Kernel)
  switch_key c keys r k =
      if c == 59
      then returns (none, keys, edit c (show 0 k))
      else if c == 60
      then (if keys.terminal_2_running == 0
          then start_shell c 1 keys (record keys { terminal_2_running = 1 }) r (show 1 k)
          else returns (none, keys, edit c (show 1 k)))
      else if c == 61
      then (if keys.terminal_3_running == 0
          then start_shell c 2 keys (record keys { terminal_3_running = 1 }) r (show 2 k)
          else returns (none, keys, edit c (show 2 k)))
      else returns (none, keys, edit c k)

  pub press_key : ℕ → Keys → Registers → Kernel → Outcome (Option Control × Keys × Kernel)
  press_key c keys r k =
      if c == 38 && (keys.pressed_key 29 == 1)
      then returns (none, keys, edit c (clear_line k))
      else if keys.pressed_key 56 == 1
      then switch_key c keys r k
      else if scancodes_map c == 0
      then returns (none, keys, edit c k)
      else returns (none, keys, edit c (type_character (character_convert keys c) k))

  pub scancode_processing : ℕ → Keys → Registers → Kernel → Outcome (Option Control × Keys × Kernel)
  scancode_processing c keys r k =
      if ltb 127 c then returns (none, release c keys, edit c k) else press_key c (press c keys) r k

  -- The loop over the bytes that the controller has ready. A program that was started enters user
  -- mode, and the loop does not go on.
  pub read_codes : List ℕ → Keys → Registers → Kernel → Outcome (Option Control × Keys × Kernel)
  read_codes [] keys r k = returns (none, keys, k)
  read_codes (c ∷ codes) keys r k =
      and_then (scancode_processing c keys r k) λ (control, keys', k'). elim control [
        | none ↦ read_codes codes keys' r k'
        | some (result res) ↦ read_codes codes keys' r k'
        | some other ↦ returns (some other, keys', k')
      ]

  pub keyboard_interrupt_handler :
      List ℕ → Pic → Keys → Registers → Kernel → Outcome (Pic × Option Control × Keys × Kernel)
  keyboard_interrupt_handler codes pic keys r k =
      and_then (read_codes codes keys r k)
        λ (control, keys', k'). returns (send_eoi 1 pic, control, keys', k')
