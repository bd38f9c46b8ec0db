-- ===== src/Programs/Ls.antt =====
-- syscalls/ece391ls.c.
pub mod Directory
pub mod Lines
pub mod Loop
mod Tests
use Prim.Native.String.{String}
use pony_os.Base.{ℕ, zero, suc, ◌+◌, ℤ, is_zero, is_minus_one, endless, if◌then◌else◌}
use pony_os.Programs.{Run, ◌>>=◌, ◌>>◌, answer, put, read_call, write_call, open_call, bits, poke}

-- Where the compiler has put each string of the program, and the array `buf`.
module _ (literal : String → ℕ) (buf : ℕ) where
  -- `while (0 != (cnt = ece391_read (fd, buf, SBUFSIZE-1)))`.
  pub ls_loop : ℕ → ℕ → Run ℕ
  ls_loop zero fd k = endless
  ls_loop (suc fuel) fd k =
      (do
        cnt ← read_call fd buf 32
        (if is_zero cnt
            then answer 0
            else if is_minus_one cnt
            then (put (literal "directory entry read failed\n") >> answer 3)
            else (do
              stored ← poke (buf + bits cnt) b'\n'
              res ← write_call 1 buf (bits cnt + 1)
              (if is_minus_one res then answer 3 else ls_loop fuel fd))))
        k

  pub ls : ℕ → Run ℕ
  unfolding ls_loop
  ls fuel = do
    fd ← open_call (literal ".")
    (if is_minus_one fd
        then (put (literal "directory open failed\n") >> answer 2)
        else ls_loop fuel (bits fd))
