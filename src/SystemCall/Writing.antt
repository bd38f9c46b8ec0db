-- ===== src/SystemCall/Writing.antt =====
-- A write on the standard output.
use pony_os.Base.{
  ℕ, ◌<◌, ◌≡◌, refl, ◌∙◌, arith, Option, some, none, faults, pos, returns, false, ◌==◌,
}
use pony_os.FileSystem.{bytes_at}
use pony_os.Process.{Pcb, Kernel, terminal_write_wrapper, memory_of, task_of}
use pony_os.Screen.{puts_scroll}
use pony_os.SystemCall.{Call, call_write, write_open, write}
use pony_os.SystemCall.Files.{IsReady}
use pony_os.Terminal.{print_size}
use pony_os.Terminal.Io.{after_write, terminal_write_lem}

module _ (k : Kernel) (p : ℕ) (current : k.current_pid ≡ some p) (buf count : ℕ) where
  -- The kernel after the bytes of the buffer are printed.
  abbrev pub printed : Kernel
  printed = record k {
    terminals = after_write (task_of k) k.terminals k.screen buf count count;
    screen = puts_scroll (bytes_at (task_of k) (memory_of k) buf count) k.screen;
  }

  served :
      ((k.pcbs p).file_array 1).write ≡ terminal_write_wrapper
      → count < print_size
      → call_write ((k.pcbs p).file_array 1).write k buf count ≡ returns (pos count, printed)
  unfolding call_write
  served terminal short =
      let (done, others) = terminal_write_lem (task_of k) k.terminals k.screen buf count short in
      rw terminal (rw done refl)

  chosen :
      (f : ℕ → Pcb → Call) (o : Option ℕ)
      → o ≡ some p
      → elim o [ none ↦ faults | some q ↦ f q (k.pcbs q) ] ≡ f p (k.pcbs p)
  chosen f o e = rw e refl

  pub write_terminal :
      IsReady (k.pcbs p).file_array
      → count < print_size
      → write k 1 buf count ≡ returns (pos count, printed)
  unfolding write write_open
  write_terminal ready short =
      let used : (((k.pcbs p).file_array 1).flags == 0) ≡ false =
        ground (arith, ready.stdout_open) in
      chosen (write_open k 1 buf count) k.current_pid current
      ∙ rw used (served ready.stdout_write short)
