-- ===== src/Digits.antt =====
-- itoa and strrev, of student-distrib/lib.c and, with the same text but for the names, of
-- syscalls/ece391support.c.
pub mod Reverse
pub mod Value
pub mod RoundTrip
mod Tests
use pony_os.Base.{
  ℕ, zero, suc, ◌+◌, ◌-◌, ◌/◌, ◌%◌, ◌^◌, Option, none, some, ◌>>=◌, ltb, ◌==◌, if◌then◌else◌, ℤ,
  pos,
}
use pony_os.Memory.{Memory, load, store}
use pony_os.Strings.{strlen}

-- lookup[i]. Behind its NUL the array's neighbours would be read.
unfoldable pub lookup : ℕ → ℕ
lookup i = if ltb i 10 then b'0' + i else if ltb i 36 then b'A' + (i - 10) else 0

module _ (task : ℕ) where
  -- `tmp = s[end]; s[end] = s[beg]; s[beg] = tmp;`
  pub swap : Memory → ℕ → ℕ → ℕ → Memory
  swap m s beg end =
      store task (store task m (s + end) (load task m (s + beg))) (s + beg) (load task m (s + end))

  -- `while (beg < end)`. The fuel is the length.
  pub rev_loop : ℕ → Memory → ℕ → ℕ → ℕ → Memory
  rev_loop zero m s beg end = m
  rev_loop (suc fuel) m s beg end =
      let rest = rev_loop fuel (swap m s beg end) s (beg + 1) (end - 1) in
      if ltb beg end then rest else m

  -- For the empty string `end` is -1, and the loop makes no round either way. ece391_strrev returns
  -- early then.
  pub strrev : Memory → ℕ → Option Memory
  strrev m s = strlen task m s >>= λ l. some (rev_loop l m s 0 (l - 1))

  -- `while (newval > 0)`: the memory and `newbuf` behind the loop. `none` when the fuel is out.
  pub itoa_loop : ℕ → Memory → ℕ → ℕ → ℕ → Option (Memory × ℕ)
  itoa_loop zero m newbuf newval radix = if newval == 0 then some (m, newbuf) else none
  itoa_loop (suc fuel) m newbuf newval radix =
      let rest =
        itoa_loop fuel (store task m newbuf (lookup (newval % radix))) (newbuf + 1) (newval / radix)
          radix in
      if newval == 0 then some (m, newbuf) else rest

  -- A number of 32 bits has at most 32 digits, from the radix 2 on.
  pub itoa : Memory → ℕ → ℕ → ℕ → Option Memory
  itoa m value buf radix =
      if value == 0
      then some (store task (store task m buf b'0') (buf + 1) 0)
      else itoa_loop 32 m buf value radix >>= λ (m', newbuf). strrev (store task m' newbuf 0) buf
