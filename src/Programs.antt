-- ===== src/Programs.antt =====
-- User programs of syscalls/ as sequences of system calls. A call runs to its end before the next
-- step of the program; the interrupts that come between are not part of a program.
pub mod Cat
pub mod Errors
pub mod Ls
pub mod Hello
pub mod Grep
mod Tests
use pony_os.Base.{ℕ, ◌+◌, ◌-◌, ◌%◌, ◌^◌, ℤ, pos, negsuc, Outcome, returns, scanned, and_then}
use pony_os.Digits.{itoa}
use pony_os.Memory.{load, store}
use pony_os.Process.{Kernel, task_of, memory_of, with_memory}
use pony_os.Strings.{strlen}
use pony_os.SystemCall.{open_file, read, write, close, getargs, vidmap}
use pony_os.UserLibrary.{fdputs}

-- A program's step: its result and the kernel behind it, or how it fails to return.
abbrev pub Run : Type 0 → Type 0
Run A = Kernel → Outcome (A × Kernel)

infixl 5 ◌>>=◌ ◌>>◌
abbrev pub ◌>>=◌ : {A B : Type 0} → Run A → (A → Run B) → Run B
◌>>=◌ m f k = and_then (m k) λ (a, k'). f a k'

abbrev pub ◌>>◌ : {A B : Type 0} → Run A → Run B → Run B
m >> n = m >>= λ _. n

abbrev pub answer : {A : Type 0} → A → Run A
answer a k = returns (a, k)

-- ece391_fdputs on the standard output, of the string at an address.
pub put : ℕ → Run ℕ
put s k = and_then (fdputs k 1 s) λ k'. returns (0, k')

-- The other calls, as steps.
abbrev pub read_call : ℕ → ℕ → ℕ → Run ℤ
read_call fd buf nbytes k = read k fd buf nbytes

abbrev pub write_call : ℕ → ℕ → ℕ → Run ℤ
write_call fd buf nbytes k = write k fd buf nbytes

abbrev pub open_call : ℕ → Run ℤ
open_call filename k = open_file k filename

abbrev pub close_call : ℕ → Run ℤ
close_call fd k = close k fd

abbrev pub getargs_call : ℕ → ℕ → Run ℤ
getargs_call buf nbytes k = getargs k buf nbytes

abbrev pub vidmap_call : ℕ → Run ℤ
vidmap_call screenstart k = vidmap k screenstart

-- An int32_t result as an argument of the next call.
abbrev pub bits : ℤ → ℕ
bits (pos n) = n % 2 ^ 32
bits (negsuc n) = (2 ^ 32 - 1 - n) % 2 ^ 32

-- The program's own loads and stores of a byte, and its calls of the string functions.
pub peek : ℕ → Run ℕ
peek a k = returns (load (task_of k) (memory_of k) a, k)

pub poke : ℕ → ℕ → Run ℕ
poke a v k = returns (v, with_memory k (store (task_of k) (memory_of k) a v))

pub strlen_of : ℕ → Run ℕ
strlen_of s k = and_then (scanned (strlen (task_of k) (memory_of k) s)) λ l. returns (l, k)

-- ece391_itoa into a buffer, and ece391_fdputs of it.
pub print_number : ℕ → ℕ → Run ℕ
unfolding put
print_number n buf k =
    and_then (scanned (itoa (task_of k) (memory_of k) n buf 10)) λ m. put buf (with_memory k m)
