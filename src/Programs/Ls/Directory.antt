-- ===== src/Programs/Ls/Directory.antt =====
-- What the loop of syscalls/ece391ls.c keeps, and its read of the next entry of the directory.
use pony_os.Base.{
  ℕ, zero, suc, ◌+◌, ◌*◌, ◌/◌, ◌≤◌, ◌<◌, ◌≡◌, ◌≢◌, refl, ap, ◌∙◌, arith, List, [], ◌∷◌, ◌++◌,
  length, some, pos, returns,
}
use pony_os.Memory.{Memory, translate, load}
use pony_os.Memory.Copy.{Apart, Distinct}
use pony_os.FileSystem.{FileSystem, count_of, dir_read}
use pony_os.FileSystem.Dir.{dir_read_lem, dir_read_end, named}
use pony_os.FileSystem.Lookup.{dir_name}
use pony_os.Paging.{Paging}
use pony_os.Process.{Kernel, dir_read_wrapper, fdt_size, memory_of, task_of}
use pony_os.Screen.{Screen, video_page}
use pony_os.Screen.Cursor.{InRange}
use pony_os.Screen.Printing.{with_memory, Agree, Alike}
use pony_os.Strings.{c_string}
use pony_os.Strings.Names.{c_string-cong}
use pony_os.SystemCall.{read}
use pony_os.SystemCall.Files.{IsReady}
use pony_os.SystemCall.Listing.{read_directory}

module _ (buf : ℕ) (k0 : Kernel) (p fd : ℕ) where
  abbrev pub task : ℕ
  task = task_of k0

  abbrev pub m0 : Memory
  m0 = memory_of k0

  abbrev pub page : ℕ
  page = video_page k0.screen

  abbrev pub first : ℕ
  first = k0.fs.current_dir_read_index

  abbrev pub total : ℕ
  total = count_of k0.fs.num_dir_entry

  -- The names of `n` entries from the `i`-th on, a line for each.
  abbrev pub listing : ℕ → ℕ → List ℕ
  listing i zero = []
  listing i (suc n) = (dir_name task k0.fs m0 i ++ (b'\n' ∷ [])) ++ listing (i + 1) n

  -- The process runs with its standard output, the descriptor is open on the directory, whose names
  -- are not empty, and the entries, the buffer and the page that the terminal prints on are apart.
  pub record IsListable : Type 0 where
    pub current : k0.current_pid ≡ some p
    pub ready : IsReady (k0.pcbs p).file_array
    pub own : 2 ≤ fd
    pub numbered : fd < fdt_size
    pub used : ((k0.pcbs p).file_array fd).flags ≢ 0
    pub directory : ((k0.pcbs p).file_array fd).read ≡ dir_read_wrapper
    pub range : InRange k0.screen
    pub low : page < 0x8000
    pub distinct : Distinct task buf 33
    pub named_entries : (j : ℕ) → j < total → 0 < length (dir_name task k0.fs m0 j)
    pub entries_apart :
        (j i : ℕ) → j < total → i < 32 → Apart task buf 33 (k0.fs.dir_table + 64 * j + i)
    pub entries_off :
        (j i : ℕ)
        → j < total
        → i < 32
        → translate task (k0.fs.dir_table + 64 * j + i) / 0x1000 ≢ page
    pub buf_off : (i : ℕ) → i < 33 → translate task (buf + i) / 0x1000 ≢ page

  -- The kernel when `n` more entries have been read, and `s` would show on the terminal.
  pub record At (n : ℕ) (s : Screen) (k : Kernel) : Type 0 where
    pub current : k.current_pid ≡ some p
    pub fs : k.fs ≡ record (k0.fs) { current_dir_read_index = first + n }
    pub paging : k.screen.paging ≡ k0.screen.paging
    pub used : ((k.pcbs p).file_array fd).flags ≢ 0
    pub directory : ((k.pcbs p).file_array fd).read ≡ dir_read_wrapper
    pub ready : IsReady (k.pcbs p).file_array
    pub range : InRange k.screen
    pub kept :
        (b : ℕ)
        → Apart task buf 33 b
        → translate task b / 0x1000 ≢ page
        → load task (memory_of k) b ≡ load task m0 b
    pub shown : Alike page s k.screen

  module _ (h : IsListable) where
    pub start-At : At 0 k0.screen k0
    start-At = record {
      current = h.current;
      fs = ap (λ (j : ℕ). record (k0.fs) { current_dir_read_index = j }) (omega arith);
      paging = refl;
      used = h.used;
      directory = h.directory;
      ready = h.ready;
      range = h.range;
      kept = λ b out off. refl;
      shown = (refl, λ a q. refl);
    }

    -- A byte of the page is not one of the buffer.
    page-Apart : (a : ℕ) → a / 0x1000 ≡ page → Apart task buf 33 a
    unfolding translate
    page-Apart a q i r e = h.buf_off i r (ground (arith, h.low))

    pub page-Agree :
        (m m' : Memory)
        → ((b : ℕ) → Apart task buf 33 b → load task m' b ≡ load task m b)
        → Agree page m m'
    unfolding load translate
    page-Agree m m' same a q = let e = same a (page-Apart a q) in ground (arith, h.low)

    module _ (n : ℕ) (s : Screen) (k : Kernel) (at : At n s k) where
      pub same_task : task_of k ≡ task
      same_task = ap (λ (q : Paging). (q.page_dir 32).aligned_address) at.paging

      name_same :
          first + n < total
          → dir_name task k0.fs (memory_of k) (first + n) ≡ dir_name task k0.fs m0 (first + n)
      name_same q =
          c_string-cong task (memory_of k) m0 32 (k0.fs.dir_table + 64 * (first + n))
            (k0.fs.dir_table + 64 * (first + n))
            (λ i r. at.kept _ (h.entries_apart (first + n) i q r) (h.entries_off (first + n) i q r))

      -- A read changes the descriptor's position, the index and the buffer.
      after_read :
          (n' l : ℕ) (fs' : FileSystem) (m' : Memory)
          → dir_read task k.fs (memory_of k) buf ≡ some (pos l, fs', m')
          → fs' ≡ record (k0.fs) { current_dir_read_index = first + n' }
          → ((b : ℕ) → Apart task buf 33 b → load task m' b ≡ load task (memory_of k) b)
          → (k' : Kernel) × (read k fd buf 32 ≡ returns (pos l, k'))
            × At n' s k'
            × (memory_of k' ≡ m')
      after_read n' l fs' m' done index same =
          let (pcbs', done', moved, others) =
            read_directory k p at.current fd buf 32 l fs' m' h.own h.numbered at.used at.directory
              (rw same_task done) in
          let f0 = others 0 (λ e. absurd (omega (arith, h.own))) in
          let f1 = others 1 (λ e. absurd (omega (arith, h.own))) in
          let old = at.ready in
          (
            record k { fs = fs'; pcbs = pcbs'; screen = record (k.screen) { memory = m' } },
            done',
            record {
              current = at.current;
              fs = index;
              paging = at.paging;
              used = rw moved at.used;
              directory = rw moved at.directory;
              ready = record {
                stdin_open = rw f0 old.stdin_open;
                stdin_read = rw f0 old.stdin_read;
                stdout_open = rw f1 old.stdout_open;
                stdout_write = rw f1 old.stdout_write;
              };
              range = at.range;
              kept = λ b out off. same b out ∙ at.kept b out off;
              shown = (
                ap (λ (z : Screen). with_memory z m') at.shown.0,
                λ a q. at.shown.1 a q ∙ page-Agree (memory_of k) m' same a q,
              );
            },
            refl,
          )

      pub read_end :
          total ≤ first + n
          → (k' : Kernel) × (read k fd buf 32 ≡ returns (pos 0, k'))
            × At n s k'
            × (memory_of k' ≡ memory_of k)
      read_end q =
          after_read n 0 k.fs (memory_of k)
            (rw at.fs (
              dir_read_end task (record (k0.fs) { current_dir_read_index = first + n })
                (memory_of k) buf q))
            at.fs (λ b out. refl)

      pub read_entry :
          first + n < total
          → let name = dir_name task k0.fs m0 (first + n) in
            (k' : Kernel) × (read k fd buf 32 ≡ returns (pos (length name), k'))
            × At (n + 1) s k'
            × (c_string task 32 (memory_of k') buf ≡ name)
      read_entry q =
          let fs = record (k0.fs) { current_dir_read_index = first + n } in
          let name = name_same q in
          let (done, read_name, ended, same) =
            dir_read_lem task fs (memory_of k) buf h.distinct q in
          let (k', done', at', holds) =
            after_read (n + 1) (length (dir_name task k0.fs m0 (first + n)))
              (record (k0.fs) { current_dir_read_index = first + n + 1 })
              (named task fs (memory_of k) buf) (rw at.fs (rw name at done))
              (ap (λ (i : ℕ). record (k0.fs) { current_dir_read_index = i }) (omega arith)) same in
          (k', done', at', ap (λ (z : Memory). c_string task 32 z buf) holds ∙ read_name ∙ name)
