-- ===== src/UserLibrary/Print.antt =====
-- ece391_fdputs of syscalls/ece391support.c, from the program's string to the screen.
use pony_os.Base.{ℕ, ◌+◌, ◌^◌, ◌<◌, ◌≡◌, refl, ap, arith, some, List, [], ◌∷◌, length, returns}
use pony_os.FileSystem.{bytes_at}
use pony_os.Memory.{Memory}
use pony_os.Process.{Kernel, memory_of, task_of}
use pony_os.Screen.{puts_scroll}
use pony_os.Strings.{strlen}
use pony_os.Strings.Names.{strlen_lem}
use pony_os.SystemCall.Files.{IsReady}
use pony_os.SystemCall.Writing.{printed, write_terminal}
use pony_os.Terminal.{print_size}
use pony_os.UserLibrary.{fdputs}
use pony_os.UserLibrary.Compare.{IsString, IsString-tail, head_char}

IsString-bytes_at :
    (task : ℕ) (m : Memory) (a : ℕ) (xs : List ℕ)
    → IsString task m a xs
    → bytes_at task m a (length xs) ≡ xs
unfolding bytes_at
IsString-bytes_at task m a [] s = refl
IsString-bytes_at task m a (x ∷ xs) s =
    let rest = IsString-bytes_at task m (a + 1) xs (IsString-tail task m a x xs s) in
    rw ((head_char task m a x xs s).0, rest) refl

pub IsString-strlen :
    (task : ℕ) (m : Memory) (a : ℕ) (xs : List ℕ)
    → IsString task m a xs
    → length xs < 2 ^ 32
    → strlen task m a ≡ some (length xs)
IsString-strlen task m a xs s p =
    strlen_lem task m (length xs) a p s.end
      (λ i q e. absurd (omega (arith, s.held i q, s.chars i q)))

-- What of the kernel changes.
pub fdputs-printed :
    (k : Kernel) (p s : ℕ) (xs : List ℕ) (current : k.current_pid ≡ some p)
    → IsReady (k.pcbs p).file_array
    → IsString (task_of k) (memory_of k) s xs
    → length xs < print_size
    → fdputs k 1 s
      ≡ returns (record (printed k p current s (length xs)) { screen = puts_scroll xs k.screen })
unfolding fdputs
fdputs-printed k p s xs current ready string short =
    rw (IsString-strlen (task_of k) (memory_of k) s xs string (omega arith)) (
      rw (write_terminal k p current s (length xs) ready short) (
        ap
          (λ (ys : List ℕ).
            returns
              (record (printed k p current s (length xs)) { screen = puts_scroll ys k.screen }))
          (IsString-bytes_at (task_of k) (memory_of k) s xs string)))

-- For a process with its standard output, and a string that is shorter than a print buffer: fdputs
-- returns, has printed just the characters of the string on the process's terminal, and leaves
-- every process as it was.
pub fdputs_lem :
    (k : Kernel) (p s : ℕ) (xs : List ℕ)
    → k.current_pid ≡ some p
    → IsReady (k.pcbs p).file_array
    → IsString (task_of k) (memory_of k) s xs
    → length xs < print_size
    → (k' : Kernel) × (fdputs k 1 s ≡ returns k')
      × (k'.screen ≡ puts_scroll xs k.screen)
      × (k'.pcbs ≡ k.pcbs)
fdputs_lem k p s xs current ready string short =
    (_, fdputs-printed k p s xs current ready string short, refl, refl)
