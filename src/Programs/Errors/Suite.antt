-- ===== src/Programs/Errors/Suite.antt =====
-- The tests of syscalls/ece391syserr.c succeed, one after the other.
use Prim.Native.String.{String}
use pony_os.Base.{ℕ, ◌≤◌, ◌<◌, ◌≡◌, inr, List, ◌++◌, some, pos, minus_one, returns}
use pony_os.FileSystem.{Dentry, no_dentry, read_dentry_by_name}
use pony_os.Process.{Kernel, fdt_size, memory_of, task_of}
use pony_os.Scheduler.{Registers}
use pony_os.Screen.{puts_scroll}
use pony_os.SystemCall.Files.{IsReady}
use pony_os.Programs.{Run, ◌>>=◌}
use pony_os.Programs.Errors.{run_all}
use pony_os.Programs.Errors.Opens.{err_open_lots-Passes}
use pony_os.Programs.Errors.Steady.{IsTestable, found_at, Passes, Passes-bind, start-During}
use pony_os.Programs.Errors.Each.{
  Missing, ends, err_neg_fd-Succeeds, err_big_fd-Succeeds, err_open-Succeeds, err_unopened-Succeeds,
  err_vidmap-Succeeds, err_stdin_out-Succeeds, err_syscall_num-Succeeds,
}

-- What the tests print when all of them succeed.
abbrev pub all_lines : (String → List ℕ) → List ℕ
all_lines chars =
    chars "err_neg_fd: PASS\n"
    ++ (chars "err_big_fd: PASS\n"
        ++ (chars "err_open_lots: PASS\n"
            ++ (chars "err_open: PASS\n"
                ++ (chars "err_unopened: PASS\n"
                    ++ (chars "err_vidmap: PASS\n"
                        ++ (chars "err_stdin_out: PASS\n"
                            ++ (chars "err_syscall_num: PASS\n"
                                ++ chars "\nOverall Tests: PASS\n")))))))

module _ (literal : String → ℕ) (chars : String → List ℕ) (k0 : Kernel) (p : ℕ)
    (h : IsTestable literal chars k0 p) (buf fname temp_buf shell_name ebx ecx edx : ℕ)
    (r : Registers) where
  abbrev Good : Run ℕ → List ℕ → Type 0
  Good = Passes literal chars k0 p h

  -- Each test, and then the rest of them.
  after_test :
      (run : Run ℕ) (next : ℕ → Run ℕ) (line rest : List ℕ)
      → Good run line
      → Good (next 0) rest
      → Good (run >>= next) (line ++ rest)
  after_test run next line rest = Passes-bind literal chars k0 p h run next line rest

  run_all-Succeeds :
      (f : Dentry)
      → found_at literal chars k0 p "." ≡ some (pos 0, f)
      → Missing literal chars k0 p h buf "helloo"
      → Missing literal chars k0 p h buf "shel"
      → Missing literal chars k0 p h buf ""
      → Good (run_all literal buf fname temp_buf shell_name ebx ecx edx r) (all_lines chars)
  unfolding run_all
  run_all-Succeeds f dot longer shorter empty =
      after_test _ _ _ _ (err_neg_fd-Succeeds literal chars k0 p h buf) (
        after_test _ _ _ _ (err_big_fd-Succeeds literal chars k0 p h buf) (
          after_test _ _ _ _ (err_open_lots-Passes literal chars k0 p h buf f dot) (
            after_test _ _ _ _ (err_open-Succeeds literal chars k0 p h buf longer shorter empty) (
              after_test _ _ _ _ (err_unopened-Succeeds literal chars k0 p h buf) (
                after_test _ _ _ _ (err_vidmap-Succeeds literal chars k0 p h buf) (
                  after_test _ _ _ _ (err_stdin_out-Succeeds literal chars k0 p h buf) (
                    after_test _ _ _ _
                      (err_syscall_num-Succeeds literal chars k0 p h buf fname temp_buf shell_name
                        ebx ecx edx r)
                      (ends literal chars k0 p h buf "\nOverall Tests: FAIL\n"
                        "\nOverall Tests: PASS\n"))))))))

-- For a process that has only its standard descriptors, the strings of the program in its memory
-- and off the page that is printed on, a directory with ".", and without "helloo", "shel" and "":
-- the eight tests of the system calls' errors return 0, and print just their eight lines of success
-- and the line of the whole. The standard descriptors are then open, and all others free again.
pub run_all_lem :
    (literal : String → ℕ) (chars : String → List ℕ) (k : Kernel) (p : ℕ)
    (buf fname temp_buf shell_name ebx ecx edx : ℕ) (r : Registers) (dot : Dentry)
    → IsTestable literal chars k p
    → let look =
        λ (s : String). read_dentry_by_name (task_of k) k.fs (memory_of k) (literal s) no_dentry in
      look "." ≡ some (pos 0, dot)
      → look "helloo" ≡ some (minus_one, no_dentry)
      → look "shel" ≡ some (minus_one, no_dentry)
      → look "" ≡ some (minus_one, no_dentry)
      → (k' : Kernel) × (run_all literal buf fname temp_buf shell_name ebx ecx edx r k
          ≡ returns (0, k'))
        × (k'.screen ≡ puts_scroll (all_lines chars) k.screen)
        × IsReady (k'.pcbs p).file_array
        × ((i : ℕ) → 2 ≤ i → i < fdt_size → ((k'.pcbs p).file_array i).flags ≡ 0)
run_all_lem literal chars k p buf fname temp_buf shell_name ebx ecx edx r dot h found longer shorter
      empty =
    let (k', done, d, shown) =
      run_all-Succeeds literal chars k p h buf fname temp_buf shell_name ebx ecx edx r dot found
        longer shorter empty k (start-During literal chars k p h) in
    (k', done, shown, d.ready, λ i low high. d.free i low high (inr low))
