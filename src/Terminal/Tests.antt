-- ===== src/Terminal/Tests.antt =====
-- Writes of two bytes and of 3000 bytes on terminal 1.
use native.Mathlib.Decide.{ℕ_discrete}
use pony_os.Memory.{load}
use pony_os.Memory.Copy.{user-Distinct}
use pony_os.Strings.{c_string}
use pony_os.Terminal.Read.{AreChars}
use pony_os.Terminal.Stale.{read_after_write}
use pony_os.Base.{[], ◌∷◌, refl, ℕ, ◌*◌, ◌<◌, ◌≤◌, ◌≡◌, ◌⊎◌, returns, arith}
use pony_os.FileSystem.{bytes_at}
use pony_os.Screen.{Screen, puts_scroll}
use pony_os.Screen.Tests.{full}
use pony_os.Terminal.{Terminals, print_size, terminal_write, terminal_read}
use pony_os.Terminal.Io.{after_write, terminal_write_lem, terminal_write_overrun}

abbrev pub lines : Terminals
lines = record {
  keyboard_buffer = λ t i. 0;
  print_buffer = λ i. b'p';
  cursor_ind = λ t. 0;
  terminal_read_ready = λ t. 0;
}

abbrev task : ℕ
task = 3072

abbrev text : ℕ
text = 0x8050000

terminal_write_lem_example :
    (terminal_write task lines full text 2
      ≡ returns (
        2,
        after_write task lines full text 2 2,
        puts_scroll (bytes_at task full.memory text 2) full,
      ))
    × ((i : ℕ)
        → (i < 1 * print_size) ⊎ (2 * print_size ≤ i)
        → (after_write task lines full text 2 2).print_buffer i ≡ lines.print_buffer i)
terminal_write_lem_example = terminal_write_lem task lines full text 2 (omega arith)

terminal_write_overrun_example :
    (terminal_write task lines full text 3000
      ≡ returns (
        3000,
        after_write task lines full text 3000 print_size,
        puts_scroll (bytes_at task full.memory text print_size) full,
      ))
    × ((after_write task lines full text 3000 print_size).print_buffer (2 * print_size) ≡ 0)
terminal_write_overrun_example =
    terminal_write_overrun task lines full text 3000 (omega arith) (omega arith)

-- A line waits on terminal 1, whose process writes two characters.
abbrev entered : Terminals
entered = record lines { terminal_read_ready = λ t. 1 }

read_after_write_example :
    (ts1 : Terminals) × (s1 : Screen) × (terminal_write task entered full text 2
      ≡ returns (2, ts1, s1))
    × (ts2 : Terminals) × (s2 : Screen) × (terminal_read task ts1 s1 0x8048000 100
        ≡ returns (2, ts2, s2))
    × (c_string task 100 s2.memory 0x8048000 ≡ b'x' ∷ b'x' ∷ [])
unfolding bytes_at load
read_after_write_example =
    read_after_write task entered full text 0x8048000 100 (b'x' ∷ b'x' ∷ []) refl refl two_chars
      (omega arith) (omega arith) (user-Distinct task 0x8048000 100 (omega arith) (omega arith))
  where
    two_chars : AreChars (b'x' ∷ b'x' ∷ [])
    two_chars i p = elim (ℕ_discrete i 0) [
      | yes e ↦ rw e (omega arith, omega arith)
      | no ne ↦ let e : i ≡ 1 = omega arith in rw e (omega arith, omega arith)
    ]
