-- ===== src/Terminal.antt =====
-- The line buffers of student-distrib/keyboard.c, and the terminal driver's read and write.
pub mod Bytes
pub mod Io
pub mod Read
pub mod Stale
pub mod Tests
use pony_os.Base.{
  Bool, not, ℕ, zero, suc, ◌+◌, ◌-◌, ◌*◌, ◌^◌, ◌&&◌, Option, none, some, List, [], ◌∷◌, ltb, leb,
  ◌==◌, if◌then◌else◌, Outcome, returns, waits, faults, scanned, ◌>>=◌,
}
use pony_os.Memory.{Memory, load}
use pony_os.Strings.{strlen}
use pony_os.FileSystem.{bytes_at, store_bytes}
use pony_os.Screen.{Screen, puts_scroll, update}

-- sizeof(keyboard_buffer[t]), the characters that it takes, and sizeof(print_buffer[t]).
abbrev pub keyboard_size : ℕ
keyboard_size = 129

abbrev pub line_limit : ℕ
line_limit = 128

abbrev pub print_size : ℕ
print_size = 2050

-- keyboard_buffer[t][i], print_buffer[t][i] at t * print_size + i, cursor_ind[t] and
-- terminal_read_ready[t].
pub record Terminals : Type 0 where
  pub keyboard_buffer : ℕ → ℕ → ℕ
  pub print_buffer : ℕ → ℕ
  pub cursor_ind : ℕ → ℕ
  pub terminal_read_ready : ℕ → ℕ

abbrev pub update_row : (ℕ → ℕ → ℕ) → ℕ → (ℕ → ℕ) → ℕ → ℕ → ℕ
update_row f t row u = if u == t then row else f u

-- memcpy into print_buffer from its index `at` on, and the read back of a stretch of it.
pub put_bytes : (ℕ → ℕ) → ℕ → List ℕ → ℕ → ℕ
put_bytes f at [] = f
put_bytes f at (x ∷ xs) = put_bytes (update f at x) (at + 1) xs

unfoldable pub get_bytes : (ℕ → ℕ) → ℕ → ℕ → List ℕ
get_bytes f at zero = []
get_bytes f at (suc n) = f at ∷ get_bytes f (at + 1) n

abbrev pub is_negative : ℕ → Bool
is_negative w = leb (2 ^ 31) w

-- `lim` after the test, for a count that is not negative. A negative one becomes the length of the
-- memcpy, which then runs over the kernel.
abbrev pub write_limit : ℕ → ℕ
write_limit count = if ltb count print_size then count else print_size

-- A copied stretch with a NUL behind it.
abbrev pub ended : (ℕ → ℕ) → ℕ → List ℕ → ℕ → ℕ → ℕ
ended f row bytes lim = update (put_bytes f row bytes) (row + lim) 0

module _ (task : ℕ) where
  pub terminal_write : Terminals → Screen → ℕ → ℕ → Outcome (ℕ × Terminals × Screen)
  terminal_write ts s buf count =
      let lim = write_limit count in
      let row = s.active_terminal * print_size in
      let buffer = ended ts.print_buffer row (bytes_at task s.memory buf lim) lim in
      if is_negative count
      then faults
      else returns
          (count, record ts { print_buffer = buffer }, puts_scroll (get_bytes buffer row lim) s)

  -- The busy wait ends when the keyboard interrupt sets the flag: until then the call `waits`.
  pub terminal_read : Terminals → Screen → ℕ → ℕ → Outcome (ℕ × Terminals × Screen)
  terminal_read ts s buf count =
      let t = s.active_terminal in
      let m = store_bytes task s.memory buf (get_bytes ts.print_buffer (t * print_size) count) in
      if not (ts.terminal_read_ready t == 1)
      then waits
      else if is_negative count
      then faults
      else scanned (
          strlen task m buf >>= λ l. some (
            l,
            record ts { terminal_read_ready = update ts.terminal_read_ready t 0 },
            record s { memory = m },
          ))
