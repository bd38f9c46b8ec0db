-- ===== src/Dispatch.antt =====
-- The system call entry of student-distrib/interrupt_handler_wrapper.S: a check of the number in
-- eax, and the jump through system_call_jumptable.
use pony_os.Base.{
  ◌<◌, ◌≡◌, arith, inr, inl, ◌⊎◌, ℕ, ◌-◌, ◌^◌, ◌||◌, ltb, leb, ◌==◌, if◌then◌else◌, ℤ, pos, negsuc,
  minus_one, Outcome, returns, and_then,
}
use pony_os.Execute.{Control, execute, halt}
use pony_os.Process.{Kernel}
use pony_os.Scheduler.{Registers}
use pony_os.SystemCall.{Call, open_file, read, write, close, getargs, vidmap, do_nothing}

-- A call comes back with a value for eax, or the processor goes elsewhere.
pub data Reply : Type 0 where
  value : ℤ → Reply
  control : Control → Reply

abbrev pub int32 : ℕ → ℤ
int32 w = if ltb w (2 ^ 31) then pos w else negsuc (2 ^ 32 - 1 - w)

abbrev pub valued : Call → Outcome (Reply × Kernel)
valued call = and_then call λ (res, k). returns (value res, k)

abbrev pub controlled : Outcome (Control × Kernel) → Outcome (Reply × Kernel)
controlled call = and_then call λ (c, k). returns (control c, k)

-- `fname`, `temp_buf` and `shell_name` are those of Execute; ebx, ecx and edx are on the stack.
module _ (fname temp_buf shell_name : ℕ) where
  -- The entries of system_call_jumptable. The first one is behind the check.
  pub jump : ℕ → ℕ → ℕ → ℕ → Registers → Kernel → Outcome (Reply × Kernel)
  jump eax ebx ecx edx r k =
      if eax == 0
      then returns (value do_nothing, k)
      else if eax == 1
      then controlled (halt fname temp_buf shell_name (int32 ebx) k)
      else if eax == 2
      then controlled (execute fname temp_buf shell_name ebx r k)
      else if eax == 3
      then valued (read k ebx ecx edx)
      else if eax == 4
      then valued (write k ebx ecx edx)
      else if eax == 5
      then valued (open_file k ebx)
      else if eax == 6
      then valued (close k ebx)
      else if eax == 7
      then valued (getargs k ebx ecx)
      else valued (vidmap k ebx)

  -- `cmpl $8, %eax; jg invalid_eax; cmpl $0, %eax; jle invalid_eax`, on signed numbers.
  pub system_call : ℕ → ℕ → ℕ → ℕ → Registers → Kernel → Outcome (Reply × Kernel)
  unfolding jump
  system_call eax ebx ecx edx r k =
      if eax == 0 || leb (2 ^ 31) eax || ltb 8 eax
      then returns (value minus_one, k)
      else jump eax ebx ecx edx r k

  -- A number outside of 1 to 8, as a signed one, returns -1 and changes nothing.
  pub unknown_call :
      (eax ebx ecx edx : ℕ) (r : Registers) (k : Kernel)
      → (eax ≡ 0) ⊎ (8 < eax)
      → system_call eax ebx ecx edx r k ≡ returns (value minus_one, k)
  unfolding system_call
  unknown_call eax ebx ecx edx r k (inl h) = ground arith
  unknown_call eax ebx ecx edx r k (inr h) = ground arith
