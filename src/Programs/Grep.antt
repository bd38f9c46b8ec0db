-- ===== src/Programs/Grep.antt =====
-- syscalls/ece391grep.c.
use Prim.Native.String.{String}
use pony_os.Base.{
  ℕ, zero, suc, ◌+◌, ◌-◌, ◌==◌, not, ltb, leb, ◌&&◌, Bool, ℤ, is_zero, is_minus_one, minus_one, pos,
  endless, if◌then◌else◌, scanned, and_then, returns,
}
use pony_os.Memory.{load}
use pony_os.Process.{Kernel, task_of, memory_of, with_memory}
use pony_os.UserLibrary.{user_strcpy, user_strncmp}
use pony_os.Programs.{
  Run, ◌>>=◌, ◌>>◌, answer, put, read_call, open_call, close_call, getargs_call, bits, peek, poke,
  strlen_of,
}

-- Where the compiler has put each string of the program, and the array `data`.
module _ (literal : String → ℕ) (data_at : ℕ) where
  -- `while (line_end < last && '\n' != data[line_end])`, with the number of bytes left.
  pub find_end : Kernel → ℕ → ℕ → ℕ
  find_end k zero line_end = line_end
  find_end k (suc left) line_end =
      let rest = find_end k left (line_end + 1) in
      if load (task_of k) (memory_of k) (data_at + line_end) == b'\n' then line_end else rest

  -- The condition at a position of the line. `s` has signed characters, `data` has not.
  pub matches : Kernel → ℕ → ℕ → ℕ → Bool
  matches k s s_len check =
      let m = memory_of k in
      ltb (load (task_of k) m s) 128
      && (load (task_of k) m s == load (task_of k) m (data_at + check))
      && is_zero (user_strncmp (task_of k) m (data_at + check) s s_len)

  -- `for (check = line_start; check < line_end; check++)`, with the number of positions left.
  pub search_line : ℕ → ℕ → ℕ → ℕ → ℕ → ℕ → Run ℕ
  unfolding matches
  search_line s fname s_len line_start zero check k = answer 0 k
  search_line s fname s_len line_start (suc left) check k =
      let rest = search_line s fname s_len line_start left (check + 1) in
      if matches k s s_len check
      then (do
        named ← put fname
        parted ← put (literal ":")
        shown ← put (data_at + line_start)
        ended ← put (literal "\n")
        answer 0)
          k
      else rest k

  -- ece391_strcpy(data, data + line_start)
  pub copy_down : ℕ → Run ℕ
  copy_down line_start k =
      and_then (scanned (user_strcpy (task_of k) (memory_of k) data_at (data_at + line_start)))
        λ m. returns (0, with_memory k m)

  -- The inner loop. Its result is the new `last`.
  pub search_lines : ℕ → ℕ → ℕ → ℕ → ℤ → ℕ → ℕ → Run ℕ
  unfolding find_end search_line copy_down
  search_lines zero s fname s_len cnt last line_start k = endless
  search_lines (suc fuel) s fname s_len cnt last line_start k =
      let line_end = find_end k (last - line_start) line_start in
      let rest = search_lines fuel s fname s_len cnt last (line_end + 1) in
      (do
        c ← peek (data_at + line_end)
        stored ← poke (data_at + line_end) 0
        (if not (c == b'\n') && not (is_zero cnt) && not (line_start == 0)
            then (copy_down line_start >> answer (last - line_start))
            else (do
              searched ← search_line s fname s_len line_start (line_end - line_start) line_start
              (if leb last (line_end + 1) then answer 0 else rest))))
        k

  -- The outer loop, a round for each read. A chunk has no more lines than bytes.
  pub grep_loop : ℕ → ℕ → ℕ → ℕ → ℕ → ℕ → Run ℤ
  unfolding search_lines
  grep_loop zero s fname s_len fd last k = endless
  grep_loop (suc fuel) s fname s_len fd last k =
      let rest = grep_loop fuel s fname s_len fd in
      (do
        cnt ← read_call fd (data_at + last) (1024 - last)
        (if is_minus_one cnt then (put (literal "file read failed\n") >> answer minus_one) else (do
          last' ← search_lines 1025 s fname s_len cnt (last + bits cnt) 0
          (if is_zero cnt
              then (do
                res ← close_call fd
                (if is_minus_one res
                    then (put (literal "file close failed\n") >> answer minus_one)
                    else answer (pos 0)))
              else rest last'))))
        k

  pub do_one_file : ℕ → ℕ → ℕ → Run ℤ
  unfolding grep_loop
  do_one_file fuel s fname = do
    s_len ← strlen_of s
    fd ← open_call fname
    (if is_minus_one fd
        then (put (literal "file open failed\n") >> answer minus_one)
        else grep_loop fuel s fname s_len (bits fd) 0)

  -- The arrays `buf` and `search` of main. `fuel` bounds the rounds of each file as well.
  module _ (buf search : ℕ) where
    pub files_loop : ℕ → ℕ → ℕ → Run ℕ
    unfolding do_one_file
    files_loop rounds zero fd k = endless
    files_loop rounds (suc fuel) fd k =
        let rest = files_loop rounds fuel fd in
        (do
          cnt ← read_call fd buf 32
          (if is_zero cnt
              then answer 0
              else if is_minus_one cnt
              then (put (literal "directory entry read failed\n") >> answer 3)
              else (do
                c ← peek buf
                (if c == b'.' then rest else (do
                  stored ← poke (buf + bits cnt) 0
                  done ← do_one_file rounds search buf
                  (if is_zero done then rest else answer 3))))))
          k

    pub grep : ℕ → ℕ → Run ℕ
    unfolding files_loop
    grep rounds fuel = do
      args ← getargs_call search 1024
      (if is_zero args
          then (do
            fd ← open_call (literal ".")
            (if is_minus_one fd
                then (put (literal "directory open failed\n") >> answer 2)
                else files_loop rounds fuel (bits fd)))
          else (put (literal "could not read argument\n") >> answer 3))
