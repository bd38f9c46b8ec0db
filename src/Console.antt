-- ===== src/Console.antt =====
-- The kernel's own messages: putc, puts and printf of student-distrib/lib.c. They keep a cursor of
-- their own, `screen_x` and `screen_y`, beside those of the terminals, and never scroll.
pub mod Rows
mod Tests
use pony_os.Base.{
  ℕ, zero, suc, ◌+◌, ◌-◌, ◌*◌, ◌/◌, ◌%◌, ◌^◌, Option, none, some, ◌>>=◌, ◌||◌, List, [], ◌∷◌, ltb,
  ◌==◌, if◌then◌else◌, Outcome, returns, faults, and_then, scanned,
}
use pony_os.Memory.{Memory, load, store}
use pony_os.Memory.Set.{memset}
use pony_os.Strings.{strlen}
use pony_os.Digits.{itoa}
use pony_os.Screen.{Screen, num_cols, num_rows, attrib, is_newline, update, video_page}

-- The cursor is two int32_t patterns.
pub record Console : Type 0 where
  pub screen_x : ℕ
  pub screen_y : ℕ
  pub screen : Screen

abbrev pub with_memory : Console → Memory → Console
with_memory con m = record con { screen = record (con.screen) { memory = m } }

-- `%` and `/` of an int32_t by a small positive number, which round to zero.
abbrev pub rem : ℕ → ℕ → ℕ
rem a n = if ltb a (2 ^ 31) then a % n else (2 ^ 32 - (2 ^ 32 - a) % n) % 2 ^ 32

abbrev pub quot : ℕ → ℕ → ℕ
quot a n = if ltb a (2 ^ 31) then a / n else (2 ^ 32 - (2 ^ 32 - a) / n) % 2 ^ 32

-- The page of `video_mem` is mapped to the active terminal's, the page 0xBC of `physical_video_mem` to
-- the displayed one; the pages between them, and those behind, are mapped to themselves.
abbrev pub video_address : Screen → ℕ → ℕ
video_address s offset =
    let a = (0xb8000 + offset) % 2 ^ 32 in
    if a / 0x1000 == 0xb8
    then video_page s * 0x1000 + a % 0x1000
    else if a / 0x1000 == 0xbc
    then 0xb8000 + a % 0x1000
    else a

unfoldable pub putc : ℕ → Console → Console
putc c con =
    let s = con.screen in
    let offset = (num_cols * con.screen_y + con.screen_x) * 2 in
    let m = update s.memory (video_address s offset) c in
    let column = rem ((con.screen_x + 1) % 2 ^ 32) num_cols in
    if is_newline c
    then record con { screen_y = (con.screen_y + 1) % 2 ^ 32; screen_x = 0 }
    else record con {
      screen = record s { memory = update m (video_address s (offset + 1)) attrib };
      screen_x = column;
      screen_y = rem ((con.screen_y + quot column num_cols) % 2 ^ 32) num_rows;
    }

abbrev pub putc_all : List ℕ → Console → Console
putc_all [] con = con
putc_all (c ∷ cs) con = putc_all cs (putc c con)

-- `task` is the current task's page, `conv_buf` the address of printf's array on the stack, and
-- `stack` holds the words behind the format on it.
module _ (task : ℕ) where
  -- `while (s[index] != '\0')`; `none` when there is no end in the whole address space.
  pub puts_loop : ℕ → ℕ → ℕ → Console → Option (ℕ × Console)
  unfolding putc
  puts_loop zero s index con = none
  puts_loop (suc fuel) s index con =
      let c = load task con.screen.memory (s + index) in
      let rest = puts_loop fuel s (index + 1) (putc c con) in
      if c == 0 then some (index, con) else rest

  pub puts : ℕ → Console → Option (ℕ × Console)
  puts s con = puts_loop (2 ^ 32) s 0 con

  module _ (conv_buf : ℕ) where
    -- itoa into the array at `at`, and puts of the string at `from` in what it leaves.
    pub put_number : ℕ → ℕ → ℕ → ℕ → Console → Option Console
    put_number value at from radix con = itoa task con.screen.memory value at radix >>= λ m.
        puts from (with_memory con m) >>= λ (count, con'). some con'

    -- Eight digits: the array is filled up with '0' from the digits' number on.
    pub put_padded : ℕ → Console → Option Console
    put_padded value con = itoa task con.screen.memory value (conv_buf + 8) 16 >>= λ m.
        strlen task m (conv_buf + 8) >>= λ starting_index.
        puts (conv_buf + starting_index)
          (with_memory con (memset task m (conv_buf + starting_index) b'0' (8 - starting_index)))
        >>= λ (count, con'). some con'

    -- The array is at `conv_buf` in each of the conversions.
    pub put_signed : ℕ → Console → Option Console
    put_signed value con =
        if ltb value (2 ^ 31)
        then put_number value conv_buf conv_buf 10 con
        else put_number (2 ^ 32 - value) (conv_buf + 1) conv_buf 10
            (with_memory con (store task con.screen.memory conv_buf b'-'))

    -- What `%c` does with the next word, and whether it takes the word.
    pub convert : ℕ → ℕ → ℕ → Console → Option Console
    unfolding putc
    convert alternate c word con =
        if c == b'%'
        then some (putc b'%' con)
        else if c == b'x'
        then if alternate == 0
          then put_number word conv_buf conv_buf 16 con
          else put_padded word con
        else if c == b'u'
        then put_number word conv_buf conv_buf 10 con
        else if c == b'd'
        then put_signed word con
        else if c == b'c'
        then some (putc (word % 256) con)
        else if c == b's'
        then (puts word con >>= λ (count, con'). some con')
        else some con

    abbrev pub words_taken : ℕ → ℕ
    words_taken c = if c == b'x' || c == b'u' || c == b'd' || c == b'c' || c == b's' then 1 else 0

    -- Where the scan of the format stands: behind a '%' with its `alternate`, or not.
    pub data Mode : Type 0 where
      plain : Mode
      directive : ℕ → Mode

    -- A format that ends behind a '%' is read past its end.
    pub printf_loop : Mode → List ℕ → ℕ → (ℕ → ℕ) → ℕ → Console → Outcome (ℕ × Console)
    unfolding putc
    printf_loop plain [] count stack esp con = returns (count, con)
    printf_loop (directive alternate) [] count stack esp con = faults
    printf_loop plain (c ∷ cs) count stack esp con =
        if c == b'%'
        then printf_loop (directive 0) cs (count + 1) stack esp con
        else printf_loop plain cs (count + 1) stack esp (putc c con)
    printf_loop (directive alternate) (c ∷ cs) count stack esp con =
        if c == b'#'
        then printf_loop (directive 1) cs (count + 1) stack esp con
        else and_then (scanned (convert alternate c (stack esp) con))
            λ con'. printf_loop plain cs (count + 1) stack (esp + words_taken c) con'

    -- The format is the list of its characters.
    pub printf : List ℕ → (ℕ → ℕ) → Console → Outcome (ℕ × Console)
    printf format stack con = printf_loop plain format 0 stack 0 con
