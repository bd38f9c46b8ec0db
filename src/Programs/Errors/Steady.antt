-- ===== src/Programs/Errors/Steady.antt =====
-- What the tests of syscalls/ece391syserr.c keep: all but the screen, the index of directory reads
-- and the descriptors from 2 on.
use Prim.Native.String.{String}
use pony_os.Base.{
  ℕ, zero, suc, ◌+◌, ◌*◌, ◌/◌, ◌%◌, ◌≤◌, ◌<◌, ◌≡◌, ◌≢◌, ◌⊎◌, refl, ap, ◌∙◌, arith, Bool, true, List,
  [], ◌++◌, length, Option, some, ℤ, minus_one, is_minus_one, returns, and_then, Outcome, sym,
}
use pony_os.Memory.{translate, load}
use pony_os.FileSystem.{Dentry, no_dentry, count_of, read_dentry_by_name}
use pony_os.FileSystem.Entries.{read_dentry_by_name-kept}
use pony_os.Paging.{Paging}
use pony_os.Process.{Kernel, fdt_size, memory_of, task_of}
use pony_os.Screen.{puts_scroll, video_page}
use pony_os.Screen.Cursor.{InRange, puts_scroll-InRange}
use pony_os.Screen.Printing.{
  puts_scroll-Steady, puts_scroll_page, page_of, puts_scroll-nil, puts_scroll-append,
}
use pony_os.Strings.{strlen}
use pony_os.SystemCall.Files.{IsReady}
use pony_os.SystemCall.Writing.{printed}
use pony_os.UserLibrary.Compare.{IsString}
use pony_os.UserLibrary.Print.{fdputs-printed, IsString-strlen}
use pony_os.Programs.{Run, ◌>>=◌, answer, put}
use pony_os.Programs.Errors.{expect, expect_errors, conclude}

-- Where the strings of the program are, what they are, and the kernel that the program starts in.
module _ (literal : String → ℕ) (chars : String → List ℕ) (k0 : Kernel) (p : ℕ) where
  abbrev pub task : ℕ
  task = task_of k0

  abbrev pub page : ℕ
  page = video_page k0.screen

  abbrev pub found_at : String → Option (ℤ × Dentry)
  found_at s = read_dentry_by_name task k0.fs (memory_of k0) (literal s) no_dentry

  -- The byte is not on the page that the terminal prints on.
  abbrev pub Off : ℕ → Type 0
  Off a = translate task a / 0x1000 ≢ page

  -- The process has its standard descriptors only; the strings of the program and the entries of
  -- the directory are not on the page that is printed on.
  pub record IsTestable : Type 0 where
    pub current : k0.current_pid ≡ some p
    pub ready : IsReady (k0.pcbs p).file_array
    pub free : (i : ℕ) → 2 ≤ i → i < fdt_size → ((k0.pcbs p).file_array i).flags ≡ 0
    pub range : InRange k0.screen
    pub low : page < 0x8000
    pub strings : (s : String) → IsString task (memory_of k0) (literal s) (chars s)
    pub short : (s : String) → length (chars s) < 64
    pub strings_off : (s : String) (i : ℕ) → i < 64 → Off (literal s + i)
    pub names_end :
        (j : ℕ)
        → j < count_of k0.fs.num_dir_entry
        → (l : ℕ) × (l < 64) × (strlen task (memory_of k0) (k0.fs.dir_table + 64 * j) ≡ some l)
    pub entries_off :
        (j i : ℕ) → j < count_of k0.fs.num_dir_entry → i < 64 → Off (k0.fs.dir_table + 64 * j + i)

  -- A kernel during the tests, with the descriptors from `from` to `to` in use.
  pub record During (from to : ℕ) (k : Kernel) : Type 0 where
    pub current : k.current_pid ≡ some p
    pub index : ℕ
    pub fs : k.fs ≡ record (k0.fs) { current_dir_read_index = index }
    pub paging : k.screen.paging ≡ k0.screen.paging
    pub ready : IsReady (k.pcbs p).file_array
    pub free :
        (i : ℕ) → 2 ≤ i → i < fdt_size → (i < from) ⊎ (to ≤ i) → ((k.pcbs p).file_array i).flags ≡ 0
    pub busy : (i : ℕ) → from ≤ i → i < to → ((k.pcbs p).file_array i).flags ≢ 0
    pub range : InRange k.screen
    pub kept : (b : ℕ) → Off b → load task (memory_of k) b ≡ load task (memory_of k0) b

  module _ (h : IsTestable) where
    pub start-During : During 2 2 k0
    start-During = record {
      current = h.current;
      index = k0.fs.current_dir_read_index;
      fs = refl;
      paging = refl;
      ready = h.ready;
      free = λ i q r e. h.free i q r;
      busy = λ i q r. absurd (omega arith);
      range = h.range;
      kept = λ b off. refl;
    }

    module _ (from to : ℕ) (k : Kernel) (d : During from to k) where
      same_task : task_of k ≡ task
      same_task = ap (λ (q : Paging). (q.page_dir 32).aligned_address) d.paging

      pub lookup :
          (s : String)
          → read_dentry_by_name (task_of k) k.fs (memory_of k) (literal s) no_dentry ≡ found_at s
      lookup s =
          rw (same_task, d.fs)
            (read_dentry_by_name-kept task (memory_of k0) (memory_of k) k0.fs d.index (literal s)
              (length (chars s)) no_dentry
              (IsString-strlen task (memory_of k0) (literal s) (chars s) (h.strings s)
                (omega (arith, h.short s)))
              (h.short s) (λ i q. d.kept _ (h.strings_off s i q)) h.names_end
              (λ j q i r. d.kept _ (h.entries_off j i q r)))

      print_kept :
          (xs : List ℕ) (b : ℕ)
          → Off b
          → load task (puts_scroll xs k.screen).memory b ≡ load task (memory_of k) b
      unfolding load
      print_kept xs b off =
          let same_page : video_page k.screen ≡ page = page_of k0.screen k.screen d.paging in
          ap (λ (v : ℕ). v % 256)
            (puts_scroll_page xs k.screen (translate task b) (omega (arith, h.low)) d.range
              (rw same_page off))

      literal-IsString : (s : String) → IsString (task_of k) (memory_of k) (literal s) (chars s)
      literal-IsString s =
          let old = h.strings s in
          let room = h.short s in
          rw same_task (record {
            chars = old.chars;
            held = λ i q. d.kept _ (h.strings_off s i (omega arith)) ∙ old.held i q;
            end = d.kept _ (h.strings_off s (length (chars s)) room) ∙ old.end;
          })

      -- A line is printed.
      pub put_step :
          (s : String)
          → (k' : Kernel) × (put (literal s) k ≡ returns (0, k'))
            × During from to k'
            × (k'.screen ≡ puts_scroll (chars s) k.screen)
      unfolding put
      put_step s = (
        record (printed k p d.current (literal s) (length (chars s))) {
          screen = puts_scroll (chars s) k.screen;
        },
        ap (λ (o : Outcome Kernel). and_then o λ k'. returns (0, k'))
            (fdputs-printed k p (literal s) (chars s) d.current d.ready (literal-IsString s)
              (omega (arith, h.short s))),
        record {
          current = d.current;
          index = d.index;
          fs = d.fs;
          paging = (puts_scroll-Steady (chars s) k.screen).0 ∙ d.paging;
          ready = d.ready;
          free = d.free;
          busy = d.busy;
          range = puts_scroll-InRange (chars s) k.screen d.range;
          kept = λ b off. print_kept (chars s) b off ∙ d.kept b off;
        },
        refl,
      )

    -- From its standard descriptors only, a run returns 0, prints the text, and is back.
    abbrev pub Passes : Run ℕ → List ℕ → Type 0
    Passes run text =
        (k : Kernel)
        → During 2 2 k
        → (k' : Kernel) × (run k ≡ returns (0, k'))
          × During 2 2 k'
          × (k'.screen ≡ puts_scroll text k.screen)

    -- A call that fails, and leaves the kernel as it was.
    abbrev pub Fails : Run ℤ → Type 0
    Fails call = (k : Kernel) → During 2 2 k → call k ≡ returns (minus_one, k)

    pub Passes-bind :
        (run : Run ℕ) (next : ℕ → Run ℕ) (xs ys : List ℕ)
        → Passes run xs
        → Passes (next 0) ys
        → Passes (run >>= next) (xs ++ ys)
    Passes-bind run next xs ys first second k d =
        let (k1, once, d1, shown1) = first k d in
        let (k2, twice, d2, shown2) = second k1 d1 in
        (
          k2,
          rw once twice,
          d2,
          shown2 ∙ ap (puts_scroll ys) shown1 ∙ sym (puts_scroll-append xs ys k.screen),
        )

    pub answer-Passes : Passes (answer 0) []
    answer-Passes k d = (k, refl, d, sym (puts_scroll-nil k.screen))

    pub put-Passes : (s : String) → Passes (put (literal s)) (chars s)
    put-Passes s k d = put_step 2 2 k d s

    pub expect-Passes :
        {A : Type 0} (buf : ℕ) (failed : A → Bool) (message : String) (call : Run A) (res : A)
        → ((k : Kernel) → During 2 2 k → call k ≡ returns (res, k))
        → failed res ≡ true
        → Passes (expect literal buf failed message call 0) []
    unfolding expect
    expect-Passes buf failed message call res refused e k d =
        (k, rw (refused k d, e) refl, d, sym (puts_scroll-nil k.screen))

    pub expect_errors-Passes :
        (buf : ℕ) (message : String) (call : ℕ → Run ℤ) (n i : ℕ)
        → ((j : ℕ) → i ≤ j → j < i + n → Fails (call j))
        → Passes (expect_errors literal buf message call n i 0) []
    unfolding expect_errors
    expect_errors-Passes buf message call zero i refused = answer-Passes
    expect_errors-Passes buf message call (suc n) i refused =
        Passes-bind (expect literal buf is_minus_one message (call i) 0)
          (λ fail. expect_errors literal buf message call n (i + 1) fail) [] []
          (expect-Passes buf is_minus_one message (call i) minus_one
            (refused i (omega arith) (omega arith)) refl)
          (expect_errors-Passes buf message call n (i + 1)
            (λ j q r. refused j (omega arith) (omega arith)))

    pub conclude-Passes :
        (buf : ℕ) (failure success : String)
        → Passes (conclude literal buf failure success 0) (chars success)
    unfolding conclude
    conclude-Passes buf failure success k d =
        let (k', printed_it, d', shown) = put-Passes success k d in
        (k', rw printed_it refl, d', shown)
