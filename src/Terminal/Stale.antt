-- ===== src/Terminal/Stale.antt =====
-- A read behind a write on the same terminal: student-distrib/keyboard.c keeps the line that was
-- entered in the buffer that terminal_write copies through.
use pony_os.Base.{ℕ, ◌+◌, ◌*◌, ◌≤◌, ◌<◌, ◌≡◌, arith, List, length, get_or, returns}
use native.Mathlib.Decide.{dec_lt}
use pony_os.FileSystem.{bytes_at}
use pony_os.Memory.Copy.{Distinct}
use pony_os.Screen.{Screen, puts_scroll}
use pony_os.Screen.Printing.{puts_scroll-Steady}
use pony_os.Strings.{c_string}
use pony_os.Terminal.{
  Terminals, ended, get_bytes, print_size, put_bytes, terminal_read, terminal_write,
}
use pony_os.Terminal.Bytes.{get_bytes-put_bytes, get_or-get_bytes}
use pony_os.Terminal.Io.{after_write, terminal_write_lem}
use pony_os.Terminal.Read.{AreChars, get_or_end, terminal_read-row}

-- The row of the print buffer after a copy with its NUL.
ended_row :
    (f : ℕ → ℕ) (at : ℕ) (xs : List ℕ) (i : ℕ)
    → i ≤ length xs
    → ended f at xs (length xs) (at + i) ≡ get_or xs i 0
ended_row f at xs i p = elim (dec_lt i (length xs)) [
  | yes q ↦
      let here : get_or (get_bytes (put_bytes f at xs) at (length xs)) i 0
          ≡ put_bytes f at xs (at + i) =
        get_or-get_bytes (length xs) (put_bytes f at xs) at i q in
      ground (arith, here, get_bytes-put_bytes xs f at)
  | no q ↦ let last : i ≡ length xs = omega arith in ground (arith, last, get_or_end xs i)
]

-- On a terminal where a line waits to be read, its process writes a text without a NUL, and then
-- reads into a buffer with room for it: both calls return the length of the text, and the buffer
-- holds the text that was written. The line that was entered is gone.
pub read_after_write :
    (task : ℕ) (ts : Terminals) (s : Screen) (src buf count : ℕ) (xs : List ℕ)
    → ts.terminal_read_ready s.active_terminal ≡ 1
    → bytes_at task s.memory src (length xs) ≡ xs
    → AreChars xs
    → length xs < count
    → count ≤ print_size
    → Distinct task buf count
    → (ts1 : Terminals) × (s1 : Screen) × (terminal_write task ts s src (length xs)
        ≡ returns (length xs, ts1, s1))
      × (ts2 : Terminals) × (s2 : Screen) × (terminal_read task ts1 s1 buf count
          ≡ returns (length xs, ts2, s2))
      × (c_string task count s2.memory buf ≡ xs)
read_after_write task ts s src buf count xs ready text chars short fits distinct =
    let ts1 = after_write task ts s src (length xs) (length xs) in
    let s1 = puts_scroll (bytes_at task s.memory src (length xs)) s in
    let (done, others) = terminal_write_lem task ts s src (length xs) (omega arith) in
    let same : s1.active_terminal ≡ s.active_terminal =
      (puts_scroll-Steady (bytes_at task s.memory src (length xs)) s).1 in
    let (ts2, s2, read, string, rest) =
      terminal_read-row task buf count distinct fits ts1 s1 xs (rw same ready) short chars (λ i p.
        rw (same, text) (ended_row ts.print_buffer (s.active_terminal * print_size) xs i p)) in
    (ts1, s1, done, ts2, s2, read, string)
