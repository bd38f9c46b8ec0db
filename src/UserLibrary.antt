-- ===== src/UserLibrary.antt =====
-- The string functions that the user programs share, of syscalls/ece391support.c. Their strlen,
-- itoa and strrev are those of student-distrib/lib.c.
pub mod Compare
pub mod Print
mod Tests
use pony_os.Base.{
  ℕ, zero, suc, ◌+◌, ◌-◌, ◌^◌, Option, none, some, ◌>>=◌, ◌==◌, if◌then◌else◌, ℤ, pos, sub_ℕ,
  and_then, scanned, Outcome, returns,
}
use pony_os.Memory.{Memory, load, store}
use pony_os.Strings.{strlen}
use pony_os.Process.{Kernel, task_of, memory_of}
use pony_os.SystemCall.{write}

module _ (task : ℕ) where
  -- `while ('\0' != (*dst++ = *src++));`
  pub user_strcpy_loop : ℕ → Memory → ℕ → ℕ → Option Memory
  user_strcpy_loop zero m dst src = none
  user_strcpy_loop (suc fuel) m dst src =
      let m' = store task m dst (load task m src) in
      let rest = user_strcpy_loop fuel m' (dst + 1) (src + 1) in
      if load task m src == 0 then some m' else rest

  pub user_strcpy : Memory → ℕ → ℕ → Option Memory
  user_strcpy m dst src = user_strcpy_loop (2 ^ 32) m dst src

  -- `while (*s1 == *s2)`. The characters are unsigned.
  pub strcmp_loop : ℕ → Memory → ℕ → ℕ → Option ℤ
  strcmp_loop zero m s1 s2 = none
  strcmp_loop (suc fuel) m s1 s2 =
      let rest = strcmp_loop fuel m (s1 + 1) (s2 + 1) in
      if load task m s1 == load task m s2
      then (if load task m s1 == 0 then some (pos 0) else rest)
      else some (sub_ℕ (load task m s1) (load task m s2))

  pub strcmp : Memory → ℕ → ℕ → Option ℤ
  strcmp m s1 s2 = strcmp_loop (2 ^ 32) m s1 s2

  -- The loop of ece391_strncmp, with `n` as it is counted down; it stops before 0.
  pub strncmp_loop : Memory → ℕ → ℕ → ℕ → ℤ
  strncmp_loop m s1 s2 zero = pos 0
  strncmp_loop m s1 s2 (suc n) =
      let rest = strncmp_loop m (s1 + 1) (s2 + 1) n in
      if load task m s1 == load task m s2
      then (if load task m s1 == 0 then pos 0 else rest)
      else sub_ℕ (load task m s1) (load task m s2)

  pub user_strncmp : Memory → ℕ → ℕ → ℕ → ℤ
  user_strncmp m s1 s2 n = if n == 0 then pos 0 else strncmp_loop m s1 s2 n

-- The program's call of the kernel; the result is dropped.
pub fdputs : Kernel → ℕ → ℕ → Outcome Kernel
fdputs k fd s =
    and_then (scanned (strlen (task_of k) (memory_of k) s))
      λ l. and_then (write k fd s l) λ (res, k'). returns k'
