-- ===== src/Terminal/Read.antt =====
-- What terminal_read hands over of a line in the print buffer.
use pony_os.Base.{
  ℕ, zero, suc, ◌+◌, ◌*◌, ◌%◌, ◌≤◌, ◌<◌, ◌≡◌, refl, ap, ◌∙◌, arith, List, [], ◌∷◌, length, get_or,
  some, returns,
}
use pony_os.Memory.{Memory, load}
use pony_os.Memory.Copy.{Distinct}
use pony_os.Strings.{strlen, c_string}
use pony_os.Strings.Names.{strlen_lem}
use pony_os.FileSystem.{store_bytes}
use pony_os.FileSystem.Bytes.{store_bytes_in}
use pony_os.Screen.{Screen, update}
use pony_os.Terminal.{Terminals, print_size, get_bytes, terminal_read}
use pony_os.Terminal.Bytes.{length-get_bytes, get_or-get_bytes}

-- The characters of a C string.
abbrev pub AreChars : List ℕ → Type 0
AreChars xs = (i : ℕ) → i < length xs → (0 < get_or xs i 0) × (get_or xs i 0 < 256)

pub c_string_lem :
    (task : ℕ) (m : Memory) (xs : List ℕ) (n a : ℕ)
    → length xs < n
    → AreChars xs
    → ((i : ℕ) → i < length xs → load task m (a + i) ≡ get_or xs i 0)
    → load task m (a + length xs) ≡ 0
    → c_string task n m a ≡ xs
unfolding c_string
c_string_lem task m [] zero a p chars same end = absurd (omega arith)
c_string_lem task m [] (suc n) a p chars same end = ground arith
c_string_lem task m (x ∷ xs) zero a p chars same end = absurd (omega arith)
c_string_lem task m (x ∷ xs) (suc n) a p chars same end =
    let rest =
      c_string_lem task m xs n (a + 1) (omega arith) (λ i q. chars (suc i) (omega arith))
        (λ i q. ground (arith, same (suc i))) (ground arith) in
    ground (arith, rest, same 0, chars 0)

pub get_or_end : (xs : List ℕ) (i : ℕ) → length xs ≤ i → get_or xs i 0 ≡ 0
get_or_end [] i h = refl
get_or_end (x ∷ xs) zero h = absurd (omega arith)
get_or_end (x ∷ xs) (suc i) h = get_or_end xs i (omega arith)

module _ (task buf count : ℕ) (distinct : Distinct task buf count) (fits : count ≤ print_size) where
  -- A row of the print buffer with a line and a NUL behind it, and its terminal's process: the read
  -- ends, returns the line's length, and leaves the line in the process's buffer.
  pub terminal_read-row :
      (ts : Terminals) (s : Screen) (xs : List ℕ)
      → ts.terminal_read_ready s.active_terminal ≡ 1
      → length xs < count
      → AreChars xs
      → ((i : ℕ)
          → i ≤ length xs
          → ts.print_buffer (s.active_terminal * print_size + i) ≡ get_or xs i 0)
      → (ts' : Terminals) × (s' : Screen) × (terminal_read task ts s buf count
          ≡ returns (length xs, ts', s'))
        × (c_string task count s'.memory buf ≡ xs)
        × (ts'.terminal_read_ready s.active_terminal ≡ 0)
  unfolding terminal_read
  terminal_read-row ts s xs ready short chars row = (
    record ts { terminal_read_ready = update ts.terminal_read_ready s.active_terminal 0 },
    record s { memory = m },
    rw measured (ground arith),
    c_string_lem task m xs count buf short chars inside end,
    ground arith,
  )
    where
      at : ℕ
      at = s.active_terminal * print_size

      bytes : List ℕ
      bytes = get_bytes ts.print_buffer at count

      m : Memory
      m = store_bytes task s.memory buf bytes

      size : length bytes ≡ count
      size = length-get_bytes count ts.print_buffer at

      stored : (i : ℕ) → i ≤ length xs → load task m (buf + i) ≡ get_or xs i 0 % 256
      stored i p =
          store_bytes_in task bytes s.memory buf i (rw size distinct) (omega (arith, size))
          ∙ ap (λ (b : ℕ). b % 256)
              (get_or-get_bytes count ts.print_buffer at i (omega arith) ∙ row i p)

      inside : (i : ℕ) → i < length xs → load task m (buf + i) ≡ get_or xs i 0
      inside i p = omega (arith, stored i (omega arith), chars i p)

      end : load task m (buf + length xs) ≡ 0
      end = omega (arith, stored (length xs) (omega arith), get_or_end xs (length xs) (omega arith))

      measured : strlen task m buf ≡ some (length xs)
      measured =
          strlen_lem task m (length xs) buf (omega arith) end
            (λ i p e. absurd (omega (arith, inside i p, chars i p)))
