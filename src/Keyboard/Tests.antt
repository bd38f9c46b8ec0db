-- ===== src/Keyboard/Tests.antt =====
-- The keys A and space, with shift held and caps lock off.
use pony_os.Base.{◌≡◌, ◌==◌, if◌then◌else◌, refl, arith}
use pony_os.Base.{ℕ, List, [], ◌∷◌, returns, zero, suc, none}
use pony_os.Memory.Copy.{kernel-Distinct}
use pony_os.Strings.{c_string}
use pony_os.Pic.{send_eoi}
use pony_os.Process.{Kernel}
use pony_os.Process.Tests.{kernel}
use pony_os.Scheduler.{Registers}
use pony_os.Screen.{Screen, set_active_terminal}
use pony_os.Terminal.{Terminals, terminal_read, get_bytes}
use pony_os.Pic.Tests.{started}
use pony_os.Terminal.Read.{AreChars}
use pony_os.Keyboard.{Keys, is_shifted, character_convert, keyboard_interrupt_handler, press}
use pony_os.Keyboard.Line.{Shows}
use pony_os.Keyboard.Codes.{
  all_after, all_actions, performs, lines, keyboard_interrupt_handler-Shows,
}
use pony_os.Keyboard.ReadLine.{read_line}
use pony_os.Keyboard.Convert.{character_convert_letter}
use pony_os.Keyboard.Tables.{scancodes_map}

abbrev pub held : Keys
held = record {
  pressed_key = λ c. if c == 42 then 1 else 0;
  cap_status = 0;
  hold_num = 1;
  terminal_2_running = 0;
  terminal_3_running = 0;
}

character_convert_letter_example : character_convert held 30 ≡ 65
unfolding scancodes_map is_shifted
character_convert_letter_example = character_convert_letter held 30 (omega arith) (omega arith)

-- The displayed terminal's line is empty.
kernel-Shows : Shows kernel []
unfolding get_bytes
kernel-Shows = record { at = refl; short = omega arith; chars = refl; zeros = λ i p q. refl }

-- Nothing is held.
abbrev idle : Keys
idle = record held { pressed_key = λ c. 0 }

abbrev registers : Registers
registers = record { esp = 0x7fbfd0; ebp = 0x7fbff0 }

-- The keys A and B are pressed, and A is released.
abbrev a_and_b : List ℕ
a_and_b = 30 ∷ 48 ∷ 158 ∷ []

keyboard_interrupt_handler-Shows_example :
    let k' = performs (all_actions a_and_b idle) kernel in
    (keyboard_interrupt_handler 0x700000 0x700040 0x700080 0x7000c0 a_and_b started idle registers
        kernel
      ≡ returns (send_eoi 1 started, none, all_after a_and_b idle, k'))
    × Shows k' (lines (all_actions a_and_b idle) [])
    × (k'.screen.display_terminal ≡ 0)
    × (k'.screen.active_terminal ≡ 1)
keyboard_interrupt_handler-Shows_example =
    keyboard_interrupt_handler-Shows 0x700000 0x700040 0x700080 0x7000c0 a_and_b started idle
      registers kernel [] (omega arith, (omega arith, (omega arith, tt))) (omega arith) kernel-Shows

-- The line "hi" on terminal 0, which is active too.
abbrev greeting : List ℕ
greeting = b'h' ∷ b'i' ∷ []

abbrev greeted : Kernel
greeted = record kernel {
  screen = set_active_terminal 0 kernel.screen;
  terminals = record (kernel.terminals) {
    keyboard_buffer = λ t i. if i == 0 then b'h' else if i == 1 then b'i' else 0;
    cursor_ind = λ t. 2;
  };
}

greeted-Shows : Shows greeted greeting
unfolding get_bytes
greeted-Shows = record {
  at = refl;
  short = omega arith;
  chars = refl;
  zeros = λ i p q. ground arith;
}

greeting-AreChars : AreChars greeting
greeting-AreChars zero p = omega arith
greeting-AreChars (suc zero) p = omega arith
greeting-AreChars (suc (suc i)) p = absurd (omega arith)

read_line_example :
    (k' : Kernel) × (keyboard_interrupt_handler 0x700000 0x700040 0x700080 0x7000c0
        (28 ∷ [])
        started
        idle
        registers
        greeted
      ≡ returns (send_eoi 1 started, none, press 28 idle, k'))
    × Shows k' []
    × (ts' : Terminals) × (s' : Screen) × (terminal_read 3072 k'.terminals k'.screen 0x710000 64
        ≡ returns (3, ts', s'))
    × (c_string 3072 64 s'.memory 0x710000 ≡ b'h' ∷ b'i' ∷ b'\n' ∷ [])
unfolding is_shifted set_active_terminal
read_line_example =
    read_line 0x700000 0x700040 0x700080 0x7000c0 3072 0x710000 64
      (kernel-Distinct 3072 0x710000 64 (omega arith)) (omega arith) started idle registers greeted
      greeting greeted-Shows greeting-AreChars (omega arith) (omega arith) refl refl
