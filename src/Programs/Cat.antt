-- ===== src/Programs/Cat.antt =====
-- syscalls/ece391cat.c.
pub mod Reading
pub mod Loop
use Prim.Native.String.{String}
use pony_os.Base.{ℕ, zero, suc, ℤ, is_zero, is_minus_one, endless, if◌then◌else◌}
use pony_os.Programs.{
  Run, ◌>>=◌, ◌>>◌, answer, put, read_call, write_call, open_call, getargs_call, bits,
}

-- Where the compiler has put each string of the program, and the array `buf`.
module _ (literal : String → ℕ) (buf : ℕ) where
  -- `while (0 != (cnt = ece391_read (fd, buf, 1024)))`. A device may never end: then no fuel is
  -- enough.
  pub cat_loop : ℕ → ℕ → Run ℕ
  cat_loop zero fd k = endless
  cat_loop (suc fuel) fd k =
      (do
        cnt ← read_call fd buf 1024
        (if is_zero cnt
            then answer 0
            else if is_minus_one cnt
            then (put (literal "file read failed\n") >> answer 3)
            else (do
              res ← write_call 1 buf (bits cnt)
              (if is_minus_one res then answer 3 else cat_loop fuel fd))))
        k

  pub cat : ℕ → Run ℕ
  unfolding cat_loop
  cat fuel = do
    args ← getargs_call buf 1024
    (if is_zero args
        then (do
          fd ← open_call buf
          (if is_minus_one fd
              then (put (literal "file not found\n") >> answer 2)
              else cat_loop fuel (bits fd)))
        else (put (literal "could not read arguments\n") >> answer 3))
