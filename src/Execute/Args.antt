-- ===== src/Execute/Args.antt =====
-- The argument of a program: what execute keeps of the command, and what getargs hands over.
use pony_os.Paging.{update_at}
use pony_os.FileSystem.Bytes.{length-bytes_at}
use pony_os.Terminal.Bytes.{put_bytes_out, get_bytes-cong, get_bytes-put_bytes}
use native.Mathlib.Decide.{ℕ_discrete}
use pony_os.Terminal.{put_bytes, get_bytes, ended}
use pony_os.FileSystem.{bytes_at}
use pony_os.Memory.{Memory, load}
use pony_os.Process.{Kernel, task_of, memory_of, max_pid, max_arg_size}
use pony_os.Base.{
  length, List, true, false, returns, ◌⊎◌, ℕ, zero, suc, ◌+◌, ◌-◌, ◌*◌, ◌≤◌, ◌<◌, ◌≡◌, ◌≢◌, refl,
  ◌∙◌, arith, ◌==◌, if◌then◌else◌,
}
use pony_os.Execute.{with_args, after_spaces}

-- The second loop stops at the first character that is no space, or at the end.
after_spaces_lem :
    (char : ℕ → ℕ) (n i : ℕ)
    → (i ≤ after_spaces char n i)
      × (after_spaces char n i ≤ i + n)
      × ((j : ℕ) → i ≤ j → j < after_spaces char n i → char j ≡ b' ')
      × (after_spaces char n i < i + n → char (after_spaces char n i) ≢ b' ')
unfolding after_spaces
after_spaces_lem char zero i =
    (omega arith, omega arith, λ j p q. absurd (omega arith), λ p. absurd (omega arith))
after_spaces_lem char (suc n) i = elim (ℕ_discrete (char i) (b' ')) [
  | yes space ↦
      let (low, high, before, stop) = after_spaces_lem char n (i + 1) in
      let on : char i == b' ' ≡ true = ground arith in
      rw on (
        omega arith,
        omega arith,
        λ j p q. elim (ℕ_discrete j i) [
          | yes same ↦ rw same space
          | no other ↦ before j (omega arith) q
        ],
        λ p. stop (omega arith),
      )
  | no other ↦
      let off : char i == b' ' ≡ false = ground arith in
      rw off (omega arith, omega arith, λ j p q. absurd (omega arith), λ p. other)
]

first_byte :
    (task : ℕ) (m : Memory) (f : ℕ → ℕ) (at a n : ℕ)
    → 0 < n
    → get_bytes f at n ≡ bytes_at task m a n
    → f at ≡ load task m a
unfolding get_bytes bytes_at
first_byte task m f at a zero some_left e = absurd (omega arith)
first_byte task m f at a (suc n) some_left e = cc

module _ (pid command l i : ℕ) (k : Kernel) where
  abbrev begin : ℕ
  begin = after_spaces (λ j. load (task_of k) (memory_of k) (command + j)) (l - i) i

  abbrev argument : List ℕ
  argument = bytes_at (task_of k) (memory_of k) (command + begin) (l - begin)

  -- The same with the source's own search for the end of the spaces.
  with_args-begin :
      i ≤ l
      → pid < max_pid
      → l < max_arg_size
      → ((j : ℕ) → j < l → load (task_of k) (memory_of k) (command + j) ≢ 0)
      → (k' : Kernel) × (with_args pid command l i k ≡ returns k')
        × (get_bytes k'.arg_buf (pid * max_arg_size) (l - begin) ≡ argument)
        × (k'.arg_buf (pid * max_arg_size + (l - begin)) ≡ 0)
        × ((b : ℕ)
            → (b < pid * max_arg_size) ⊎ ((pid + 1) * max_arg_size ≤ b)
            → k'.arg_buf b ≡ k.arg_buf b)
        × (k'.arg_available pid ≡ (if l - begin == 0 then 0 else 1))
  unfolding with_args
  with_args-begin le low short ends = (
    record k {
      arg_buf = buffer;
      arg_available = update_at k.arg_available pid (if buffer row == 0 then 0 else 1);
    },
    ground (arith, bounds),
    copied,
    ground arith,
    λ b out. others b out,
    ground (arith, available),
  )
    where
      row : ℕ
      row = pid * max_arg_size

      buffer : ℕ → ℕ
      buffer = ended k.arg_buf row argument (l - begin)

      bounds : (i ≤ begin) × (begin ≤ l)
      bounds =
          let (low', high, before, stop) =
            after_spaces_lem (λ j. load (task_of k) (memory_of k) (command + j)) (l - i) i in
          (low', omega arith)

      size : length argument ≡ l - begin
      size = length-bytes_at (task_of k) (memory_of k) (command + begin) (l - begin)

      others :
          (b : ℕ)
          → (b < pid * max_arg_size) ⊎ ((pid + 1) * max_arg_size ≤ b)
          → buffer b ≡ k.arg_buf b
      others b out =
          let inside : row + (l - begin) < (pid + 1) * max_arg_size = omega (arith, bounds) in
          let apart : (b < row) ⊎ (row + length argument ≤ b) = omega (arith, size) in
          ground (arith, put_bytes_out argument k.arg_buf row b apart)

      copied : get_bytes buffer row (l - begin) ≡ argument
      copied =
          get_bytes-cong (l - begin) buffer (put_bytes k.arg_buf row argument) row
            (λ j p q. ground arith)
          ∙ (rw size at (get_bytes-put_bytes argument k.arg_buf row))

      available : ◌≡◌ {A = ℕ} (if buffer row == 0 then 0 else 1) (if l - begin == 0 then 0 else 1)
      available = elim (ℕ_discrete (l - begin) 0) [
        | yes nothing ↦ let nul : buffer row ≡ 0 = ground arith in rw (nul, nothing) refl
        | no something ↦
            let head : buffer row ≡ load (task_of k) (memory_of k) (command + begin) =
              first_byte (task_of k) (memory_of k) buffer row (command + begin) (l - begin)
                (omega arith) copied in
            ground (arith, head, ends begin (omega arith))
      ]

  -- For a process number below 8 and a command of `l` characters, `l` below 4096, without a NUL, whose
  -- program name ends at `i`: the argument starts at the first character from `i` on that is no space,
  -- or at the end when there is none; with_args copies it to the row of the process with a NUL behind
  -- it, leaves the other rows, and marks the argument as there exactly when it has a character.
  pub with_args_lem :
      i ≤ l
      → pid < max_pid
      → l < max_arg_size
      → ((j : ℕ) → j < l → load (task_of k) (memory_of k) (command + j) ≢ 0)
      → (start : ℕ) × (i ≤ start)
        × (start ≤ l)
        × ((j : ℕ) → i ≤ j → j < start → load (task_of k) (memory_of k) (command + j) ≡ b' ')
        × (start < l → load (task_of k) (memory_of k) (command + start) ≢ b' ')
        × (k' : Kernel) × (with_args pid command l i k ≡ returns k')
        × (get_bytes k'.arg_buf (pid * max_arg_size) (l - start)
            ≡ bytes_at (task_of k) (memory_of k) (command + start) (l - start))
        × (k'.arg_buf (pid * max_arg_size + (l - start)) ≡ 0)
        × ((b : ℕ)
            → (b < pid * max_arg_size) ⊎ ((pid + 1) * max_arg_size ≤ b)
            → k'.arg_buf b ≡ k.arg_buf b)
        × (k'.arg_available pid ≡ (if l - start == 0 then 0 else 1))
  with_args_lem le low short ends =
      let (from, to, spaces, stop) =
        after_spaces_lem (λ j. load (task_of k) (memory_of k) (command + j)) (l - i) i in
      let (k', done, copied, ended_it, others, marked) = with_args-begin le low short ends in
      let stopped : begin < l → load (task_of k) (memory_of k) (command + begin) ≢ b' ' =
        λ q. stop (omega arith) in
      (begin, from, omega arith, spaces, stopped, k', done, copied, ended_it, others, marked)
