-- ===== src/Programs/Errors.antt =====
-- syscalls/ece391syserr.c: the repository's tests of the errors of the system calls.
pub mod Steady
pub mod Slots
pub mod Opens
pub mod Each
pub mod Suite
mod Tests
use Prim.Native.String.{String}
use pony_os.Base.{
  ℕ, zero, suc, ◌+◌, ◌-◌, ◌^◌, Bool, true, false, ◌==◌, if◌then◌else◌, ℤ, pos, sub_ℕ, is_minus_one,
  returns, and_then,
}
use pony_os.Dispatch.{Reply, value, control, system_call}
use pony_os.Memory.{load}
use pony_os.Process.{task_of, memory_of}
use pony_os.Scheduler.{Registers}
use pony_os.Programs.{
  Run, ◌>>=◌, ◌>>◌, answer, put, read_call, write_call, open_call, close_call, vidmap_call,
}

abbrev pub neg_fd : ℕ
neg_fd = 2 ^ 32 - 1073741823

abbrev pub big_fd : ℕ
big_fd = 1073741823

abbrev pub big_num : ℕ
big_num = 1073741823

abbrev pub neg_num : ℕ
neg_num = 2 ^ 32 - 1073741823

-- Where the compiler has put each string of the program, and the array `buf`.
module _ (literal : String → ℕ) (buf : ℕ) where
  abbrev pub print_line : String → Run ℕ
  print_line s = put (literal s)

  -- `if (-1 != call) { fail = 2; ece391_fdputs (1, message); }`, with the new `fail`.
  pub expect : {A : Type 0} → (A → Bool) → String → Run A → ℕ → Run ℕ
  expect failed message call fail = do
    res ← call
    (if failed res then answer fail else (print_line message >> answer 2))

  abbrev pub expect_error : String → Run ℤ → ℕ → Run ℕ
  expect_error = expect is_minus_one

  -- A loop of such calls: `n` rounds from `i` on.
  pub expect_errors : String → (ℕ → Run ℤ) → ℕ → ℕ → ℕ → Run ℕ
  expect_errors message call zero i fail = answer fail
  expect_errors message call (suc n) i fail =
      expect_error message (call i) fail >>= λ fail'. expect_errors message call n (i + 1) fail'

  -- The end of a test.
  pub conclude : String → String → ℕ → Run ℕ
  conclude failure success fail =
      (if fail == 0 then print_line success else print_line failure) >> answer fail

  pub err_neg_fd : Run ℕ
  unfolding expect conclude
  err_neg_fd = do
    fail1 ← expect_error "read fail\n" (read_call neg_fd buf 31) 0
    fail2 ← expect_error "write fail\n" (write_call neg_fd buf 31) fail1
    fail3 ← expect_error "close fail\n" (close_call neg_fd) fail2
    conclude "err_neg_fd: FAIL\n" "err_neg_fd: PASS\n" fail3

  pub err_big_fd : Run ℕ
  unfolding expect conclude
  err_big_fd = do
    fail1 ← expect_error "read fail\n" (read_call big_fd buf 31) 0
    fail2 ← expect_error "write fail\n" (write_call big_fd buf 31) fail1
    fail3 ← expect_error "close fail\n" (close_call big_fd) fail2
    conclude "err_big_fd: FAIL\n" "err_big_fd: PASS\n" fail3

  -- `n` rounds of the loop that opens; `cnt` counts the failures.
  pub open_lots : ℕ → ℕ → Run ℕ
  open_lots zero cnt = answer cnt
  open_lots (suc n) cnt =
      open_call (literal ".") >>= λ fd. open_lots n (if is_minus_one fd then cnt + 1 else cnt)

  pub close_lots : ℕ → ℕ → Run ℕ
  close_lots zero i = answer 0
  close_lots (suc n) i = close_call i >>= λ res. close_lots n (i + 1)

  pub err_open_lots : Run ℕ
  unfolding open_lots close_lots
  err_open_lots = do
    cnt ← open_lots 7 0
    res ← close_lots 6 2
    (if cnt == 1
        then (print_line "err_open_lots: PASS\n" >> answer 0)
        else (print_line "err_open_lots: FAIL\n" >> answer 2))

  pub err_open : Run ℕ
  unfolding expect conclude
  err_open = do
    fail1 ← expect_error "'helloo' fail\n" (open_call (literal "helloo")) 0
    fail2 ← expect_error "'shel' fail\n" (open_call (literal "shel")) fail1
    fail3 ← expect_error "empty string fail\n" (open_call (literal "")) fail2
    conclude "err_open: FAIL\n" "err_open: PASS\n" fail3

  pub err_unopened : Run ℕ
  err_unopened = do
    fail1 ← expect_errors "close unopened or invalid fd fail\n" close_call 8 0 0
    fail2 ← expect_errors "read from unopened fd fail\n" (λ i. read_call i buf 31) 6 2 fail1
    fail3 ← expect_errors "write to unopened fd fail\n" (λ i. write_call i buf 31) 6 2 fail2
    conclude "err_unopened: FAIL\n" "err_unopened: PASS\n" fail3

  pub err_vidmap : Run ℕ
  unfolding expect conclude
  err_vidmap = do
    fail1 ← expect_error "Null pointer fail\n" (vidmap_call 0) 0
    fail2 ← expect_error "Kernel pointer fail fail\n" (vidmap_call 0x400000) fail1
    conclude "err_vidmap: FAIL\n" "err_vidmap: PASS\n" fail2

  pub err_stdin_out : Run ℕ
  unfolding expect conclude
  err_stdin_out = do
    fail1 ← expect_error "write to stdin fail\n" (write_call 0 buf 31) 0
    fail2 ← expect_error "read from stdout fail\n" (read_call 1 buf 31) fail1
    conclude "err_stdin_out: FAIL\n" "err_stdin_out: PASS\n" fail2

  -- What the kernel keeps for execute and halt, and the other registers, which call_sys leaves.
  module _ (fname temp_buf shell_name ebx ecx edx : ℕ) (r : Registers) where
    abbrev pub call_sys : ℕ → Run Reply
    call_sys num k = system_call fname temp_buf shell_name num ebx ecx edx r k

    -- -1 in eax. The tests make no call that leaves the program.
    abbrev pub is_error : Reply → Bool
    is_error (value v) = is_minus_one v
    is_error (control c) = false

    pub err_syscall_num : Run ℕ
    unfolding expect conclude
    err_syscall_num = do
      fail1 ← expect is_error "syscall 0 fail\n" (call_sys big_num) 0
      fail2 ← expect is_error "big num syscall fail\n" (call_sys neg_num) fail1
      fail3 ← expect is_error "neg num syscall fail\n" (call_sys 0) fail2
      conclude "err_syscall_num: FAIL\n" "err_syscall_num: PASS\n" fail3

    -- Case 0 of main's switch.
    pub run_all : Run ℕ
    unfolding err_neg_fd err_big_fd err_open_lots err_open
    run_all = do
      fail1 ← err_neg_fd
      fail2 ← err_big_fd
      fail3 ← err_open_lots
      fail4 ← err_open
      fail5 ← err_unopened
      fail6 ← err_vidmap
      fail7 ← err_stdin_out
      fail8 ← err_syscall_num
      conclude "\nOverall Tests: FAIL\n" "\nOverall Tests: PASS\n"
          (fail1 + fail2 + fail3 + fail4 + fail5 + fail6 + fail7 + fail8)

    -- The switch, by the first character that was read: `select` is its difference to '0'.
    pub run_selected : ℕ → Run ℕ
    unfolding run_all
    run_selected char =
        if char == b'0'
        then run_all
        else if char == b'1'
        then err_neg_fd
        else if char == b'2'
        then err_big_fd
        else if char == b'3'
        then err_open_lots
        else if char == b'4'
        then err_open
        else if char == b'5'
        then err_unopened
        else if char == b'6'
        then err_vidmap
        else if char == b'7'
        then err_stdin_out
        else if char == b'8'
        then err_syscall_num
        else (print_line "Invalid test number. Choose from tests 1-8 or 0" >> answer 0)

    abbrev pub first_char : Run ℕ
    first_char k = returns (load (task_of k) (memory_of k) buf, k)

    pub main : Run ℕ
    unfolding run_selected
    main = do
      prompted ← print_line "Choose from tests 1-8. 0 to run all: "
      cnt ← read_call 0 buf 127
      (if is_minus_one cnt
          then (print_line "Can't read test #\n" >> answer 2)
          else (do char ← first_char; run_selected char))
