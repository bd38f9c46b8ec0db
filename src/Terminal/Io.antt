-- ===== src/Terminal/Io.antt =====
-- What terminal_write prints and what terminal_read hands over.
use pony_os.Terminal.Bytes.{put_bytes_out, get_bytes-cong, get_bytes-put_bytes}
use pony_os.FileSystem.Bytes.{length-bytes_at}
use pony_os.Base.{◌⊎◌, ◌^◌, ℕ, ◌+◌, ◌*◌, ◌≤◌, ◌<◌, ◌≡◌, ◌∙◌, arith, returns}
use pony_os.FileSystem.{bytes_at}
use pony_os.Screen.{Screen, puts_scroll}
use pony_os.Terminal.{
  ended, Terminals, print_size, put_bytes, get_bytes, ended, write_limit, terminal_write,
}

module _ (task : ℕ) (ts : Terminals) (s : Screen) (buf count : ℕ) where
  -- The bytes that are printed are those that were copied: the NUL goes behind them.
  ended_bytes :
      (n : ℕ)
      → let row = s.active_terminal * print_size in
        let bytes = bytes_at task s.memory buf n in
        get_bytes (ended ts.print_buffer row bytes n) row n ≡ bytes
  ended_bytes n =
      let row = s.active_terminal * print_size in
      let bytes = bytes_at task s.memory buf n in
      get_bytes-cong n (ended ts.print_buffer row bytes n) (put_bytes ts.print_buffer row bytes) row
        (λ i p q. ground arith)
      ∙ (rw length-bytes_at at (get_bytes-put_bytes bytes ts.print_buffer row))

  abbrev pub after_write : ℕ → Terminals
  after_write n =
      let row = s.active_terminal * print_size in
      record ts { print_buffer = ended ts.print_buffer row (bytes_at task s.memory buf n) n }

  terminal_write_at :
      (n : ℕ)
      → write_limit count ≡ n
      → count < 2 ^ 31
      → terminal_write task ts s buf count
        ≡ returns (count, after_write n, puts_scroll (bytes_at task s.memory buf n) s)
  unfolding terminal_write
  terminal_write_at n e h = rw e (rw (ended_bytes n) (ground arith))

  -- A count below the size of a print buffer: the call returns it, prints just the bytes of the
  -- buffer, and leaves the other terminals' print buffers, and what is behind them, as they were.
  pub terminal_write_lem :
      count < print_size
      → (terminal_write task ts s buf count
          ≡ returns (count, after_write count, puts_scroll (bytes_at task s.memory buf count) s))
        × ((i : ℕ)
            → (i < s.active_terminal * print_size) ⊎ ((s.active_terminal + 1) * print_size ≤ i)
            → (after_write count).print_buffer i ≡ ts.print_buffer i)
  terminal_write_lem h = (
    terminal_write_at count (ground arith) (omega arith),
    λ i p. ground (
      arith,
      length-bytes_at task s.memory buf count,
      put_bytes_out (bytes_at task s.memory buf count) ts.print_buffer
          (s.active_terminal * print_size) i,
    ),
  )

  -- From the size on, the NUL behind the copied bytes goes to the next row: a long write on a
  -- terminal ends the next terminal's line before its first character, and it returns the whole
  -- count though it has printed only the size.
  pub terminal_write_overrun :
      print_size ≤ count
      → count < 2 ^ 31
      → (terminal_write task ts s buf count
          ≡ returns (
            count,
            after_write print_size,
            puts_scroll (bytes_at task s.memory buf print_size) s,
          ))
        × ((after_write print_size).print_buffer ((s.active_terminal + 1) * print_size) ≡ 0)
  terminal_write_overrun h k = (terminal_write_at print_size (ground arith) k, ground arith)
