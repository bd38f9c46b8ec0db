-- ===== src/Programs/Hello.antt =====
-- syscalls/ece391hello.c and syscalls/ece391counter.c.
use Prim.Native.String.{String}
use pony_os.Base.{ℕ, zero, suc, ◌+◌, ◌==◌, ltb, ◌||◌, ◌&&◌, is_minus_one, if◌then◌else◌}
use pony_os.Programs.{
  Run, ◌>>=◌, ◌>>◌, answer, put, read_call, bits, peek, poke, strlen_of, print_number,
}

-- Where the compiler has put each string of the program, and the array `buf`.
module _ (literal : String → ℕ) (buf : ℕ) where
  pub hello : Run ℕ
  hello = do
    asked ← put (literal "Hi, what's your name? ")
    cnt ← read_call 0 buf 1023
    (if is_minus_one cnt
        then (put (literal "Can't read name from keyboard.\n") >> answer 3)
        else (do
          stored ← poke (buf + bits cnt) 0
          greeted ← put (literal "Hello, ")
          named ← put buf
          answer 0))

  -- `max`, by the character that was typed.
  abbrev pub max_of : ℕ → ℕ
  max_of c = if c == b'0' then 100 else if c == b'1' then 10000 else if c == b'2' then 100000 else 0

  -- `n` rounds of the loop that counts, from `i` on.
  pub count_loop : ℕ → ℕ → Run ℕ
  count_loop zero i = answer 0
  count_loop (suc n) i = do
    numbered ← print_number (i + 1) buf
    ended ← put (literal "\n")
    count_loop n (i + 1)

  pub counter : Run ℕ
  unfolding count_loop
  counter = do
    asked ← put (literal "Enter the Test Number: (0): 100, (1): 10000, (2): 100000\n")
    cnt ← read_call 0 buf 1023
    (if is_minus_one cnt
        then (put (literal "Can't read the number from keyboard.\n") >> answer 3)
        else (do
          stored ← poke (buf + bits cnt) 0
          len ← strlen_of buf
          c ← peek buf
          (if ltb 2 len || ((len == 2) && (ltb c b'0' || ltb b'2' c))
              then (put (literal "Wrong Choice!\n") >> answer 0)
              else count_loop (max_of c) 0)))
