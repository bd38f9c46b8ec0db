-- ===== src/Programs/Errors/Each.antt =====
-- Each test of syscalls/ece391syserr.c that changes no descriptor succeeds.
use Prim.Native.String.{String}
use pony_os.Base.{
  ℕ, ◌+◌, ◌≤◌, ◌<◌, ◌≡◌, ◌⊎◌, inl, inr, refl, ◌∙◌, arith, List, [], some, ℤ, minus_one,
  is_minus_one,
}
use native.Mathlib.Decide.{dec_lt}
use pony_os.Dispatch.{value, unknown_call}
use pony_os.FileSystem.{no_dentry}
use pony_os.Process.{Kernel, fdt_size}
use pony_os.Scheduler.{Registers}
use pony_os.SystemCall.Files.{closed_descriptor}
use pony_os.SystemCall.Refused.{standard_refused, vidmap_refused, open_refused}
use pony_os.Programs.{Run, ◌>>=◌, read_call, write_call, open_call, close_call}
use pony_os.Programs.Errors.{
  expect, expect_error, expect_errors, conclude, neg_fd, big_fd, err_neg_fd, err_big_fd, err_open,
  err_unopened, err_vidmap, err_stdin_out, err_syscall_num, call_sys, is_error,
}
use pony_os.Programs.Errors.Steady.{
  IsTestable, During, found_at, lookup, Passes, Fails, Passes-bind, expect-Passes,
  expect_errors-Passes, conclude-Passes,
}

module _ (literal : String → ℕ) (chars : String → List ℕ) (k0 : Kernel) (p : ℕ)
    (h : IsTestable literal chars k0 p) (buf : ℕ) where
  abbrev pub Succeeds : Run ℕ → List ℕ → Type 0
  Succeeds = Passes literal chars k0 p h

  abbrev Refused : Run ℤ → Type 0
  Refused = Fails literal chars k0 p h

  closed-Refused :
      (fd : ℕ)
      → (fdt_size ≤ fd) ⊎ ((2 ≤ fd) × (fd < fdt_size))
      → Refused (read_call fd buf 31) × Refused (write_call fd buf 31) × Refused (close_call fd)
  closed-Refused fd no_file = (
    λ k d. (closed_descriptor k p d.current fd buf 31 (unused k d)).0,
    λ k d. (closed_descriptor k p d.current fd buf 31 (unused k d)).1,
    λ k d. (closed_descriptor k p d.current fd buf 31 (unused k d)).2,
  )
    where
      unused :
          (k : Kernel)
          → During literal chars k0 p 2 2 k
          → (fdt_size ≤ fd) ⊎ (((k.pcbs p).file_array fd).flags ≡ 0)
      unused k d = elim no_file [
        | inl q ↦ inl q
        | inr (low, high) ↦ inr (d.free fd low high (inr low))
      ]

  expect-Succeeds :
      (message : String) (call : Run ℤ)
      → Refused call
      → Succeeds (expect_error literal buf message call 0) []
  expect-Succeeds message call refused =
      expect-Passes literal chars k0 p h buf is_minus_one message call minus_one refused refl

  -- A call that is refused, before the rest of a test.
  after_refusal :
      (message : String) (call : Run ℤ) (next : ℕ → Run ℕ) (text : List ℕ)
      → Refused call
      → Succeeds (next 0) text
      → Succeeds (expect_error literal buf message call 0 >>= next) text
  after_refusal message call next text refused =
      Passes-bind literal chars k0 p h (expect_error literal buf message call 0) next [] text
        (expect-Succeeds message call refused)

  -- The same of a loop of such calls.
  after_refusals :
      (message : String) (call : ℕ → Run ℤ) (n i : ℕ) (next : ℕ → Run ℕ) (text : List ℕ)
      → ((j : ℕ) → i ≤ j → j < i + n → Refused (call j))
      → Succeeds (next 0) text
      → Succeeds (expect_errors literal buf message call n i 0 >>= next) text
  after_refusals message call n i next text refused =
      Passes-bind literal chars k0 p h (expect_errors literal buf message call n i 0) next [] text
        (expect_errors-Passes literal chars k0 p h buf message call n i refused)

  pub ends :
      (failure success : String) → Succeeds (conclude literal buf failure success 0) (chars success)
  ends failure success = conclude-Passes literal chars k0 p h buf failure success

  pub err_neg_fd-Succeeds : Succeeds (err_neg_fd literal buf) (chars "err_neg_fd: PASS\n")
  unfolding err_neg_fd
  err_neg_fd-Succeeds =
      let (no_read, no_write, no_close) = closed-Refused neg_fd (inl (omega arith)) in
      after_refusal _ _ _ _ no_read (
        after_refusal _ _ _ _ no_write
          (after_refusal _ _ _ _ no_close (ends "err_neg_fd: FAIL\n" "err_neg_fd: PASS\n")))

  pub err_big_fd-Succeeds : Succeeds (err_big_fd literal buf) (chars "err_big_fd: PASS\n")
  unfolding err_big_fd
  err_big_fd-Succeeds =
      let (no_read, no_write, no_close) = closed-Refused big_fd (inl (omega arith)) in
      after_refusal _ _ _ _ no_read (
        after_refusal _ _ _ _ no_write
          (after_refusal _ _ _ _ no_close (ends "err_big_fd: FAIL\n" "err_big_fd: PASS\n")))

  pub err_unopened-Succeeds : Succeeds (err_unopened literal buf) (chars "err_unopened: PASS\n")
  unfolding err_unopened
  err_unopened-Succeeds = after_refusals _ _ _ _ _ _ no_close (
      after_refusals _ _ _ _ _ _ (λ i q r. (unused i q r).0)
        (after_refusals _ _ _ _ _ _ (λ i q r. (unused i q r).1)
          (ends "err_unopened: FAIL\n" "err_unopened: PASS\n")))
    where
      unused :
          (i : ℕ)
          → 2 ≤ i
          → i < 8
          → Refused (read_call i buf 31) × Refused (write_call i buf 31) × Refused (close_call i)
      unused i q r = closed-Refused i (inr (q, r))

      no_close : (i : ℕ) → 0 ≤ i → i < 8 → Refused (close_call i)
      no_close i q r = elim (dec_lt i 2) [
        | yes low ↦ λ k d. (standard_refused k buf 31).2 i low
        | no high ↦ (unused i (omega arith) r).2
      ]

  pub err_vidmap-Succeeds : Succeeds (err_vidmap literal buf) (chars "err_vidmap: PASS\n")
  unfolding err_vidmap
  err_vidmap-Succeeds =
      after_refusal _ _ _ _ (λ k d. vidmap_refused k 0 (inl (omega arith)))
        (after_refusal _ _ _ _ (λ k d. vidmap_refused k 0x400000 (inl (omega arith)))
          (ends "err_vidmap: FAIL\n" "err_vidmap: PASS\n"))

  pub err_stdin_out-Succeeds : Succeeds (err_stdin_out literal buf) (chars "err_stdin_out: PASS\n")
  unfolding err_stdin_out
  err_stdin_out-Succeeds =
      after_refusal _ _ _ _ (λ k d. (standard_refused k buf 31).1)
        (after_refusal _ _ _ _ (λ k d. (standard_refused k buf 31).0)
          (ends "err_stdin_out: FAIL\n" "err_stdin_out: PASS\n"))

  abbrev pub Missing : String → Type 0
  Missing s = found_at literal chars k0 p s ≡ some (minus_one, no_dentry)

  pub err_open-Succeeds :
      Missing "helloo"
      → Missing "shel"
      → Missing ""
      → Succeeds (err_open literal buf) (chars "err_open: PASS\n")
  unfolding err_open
  err_open-Succeeds longer shorter empty = after_refusal _ _ _ _ (no_open "helloo" longer) (
      after_refusal _ _ _ _ (no_open "shel" shorter)
        (after_refusal _ _ _ _ (no_open "" empty) (ends "err_open: FAIL\n" "err_open: PASS\n")))
    where
      no_open : (s : String) → Missing s → Refused (open_call (literal s))
      no_open s missing k d =
          open_refused k (literal s) (lookup literal chars k0 p h 2 2 k d s ∙ missing)

  module _ (fname temp_buf shell_name ebx ecx edx : ℕ) (r : Registers) where
    after_call :
        (message : String) (num : ℕ) (next : ℕ → Run ℕ) (text : List ℕ)
        → (num ≡ 0) ⊎ (8 < num)
        → Succeeds (next 0) text
        → Succeeds
            (expect literal buf
                (is_error literal buf fname temp_buf shell_name ebx ecx edx r)
                message
                (call_sys literal buf fname temp_buf shell_name ebx ecx edx r num)
                0
              >>= next)
            text
    after_call message num next text unknown = Passes-bind literal chars k0 p h _ next [] text (
        expect-Passes literal chars k0 p h buf
          (is_error literal buf fname temp_buf shell_name ebx ecx edx r) message
          (call_sys literal buf fname temp_buf shell_name ebx ecx edx r num) (value minus_one)
          (λ k d. unknown_call fname temp_buf shell_name num ebx ecx edx r k unknown) refl)

    pub err_syscall_num-Succeeds :
        Succeeds
          (err_syscall_num literal buf fname temp_buf shell_name ebx ecx edx r)
          (chars "err_syscall_num: PASS\n")
    unfolding err_syscall_num
    err_syscall_num-Succeeds = after_call _ _ _ _ (inr (omega arith)) (
        after_call _ _ _ _ (inr (omega arith)) (
          after_call _ _ _ _ (inl refl) (ends "err_syscall_num: FAIL\n" "err_syscall_num: PASS\n")))
