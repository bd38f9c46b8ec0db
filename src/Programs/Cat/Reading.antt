-- ===== src/Programs/Cat/Reading.antt =====
-- What the loop of syscalls/ece391cat.c keeps, and its read of the next bytes of the file.
use pony_os.Base.{
  ℕ, zero, suc, ◌+◌, ◌-◌, ◌/◌, ◌≤◌, ◌<◌, ◌≡◌, ◌≢◌, refl, ap, ◌∙◌, arith, min, List, [], ◌∷◌, ◌++◌,
  some, pos, returns,
}
use native.Mathlib.Nat.{add_assoc}
use pony_os.Memory.{Memory, translate, load}
use pony_os.Memory.Copy.{Apart}
use pony_os.FileSystem.{inode_at, inode_length, bytes_at}
use pony_os.FileSystem.Data.{IsClear, max_file_length, file_address, file_byte, available}
use pony_os.FileSystem.Kept.{inode_length-kept, file_byte-kept, IsClear-kept}
use pony_os.Paging.{Paging}
use pony_os.Process.{FileDesc, Pcb, Kernel, filesys_read_driver, fdt_size, memory_of, task_of}
use pony_os.Screen.{Screen, puts_scroll, video_page}
use pony_os.Screen.Cursor.{InRange}
use pony_os.Screen.Printing.{with_memory, Agree, Alike, puts_scroll-nil}
use pony_os.SystemCall.{read}
use pony_os.SystemCall.Files.{IsReady}
use pony_os.SystemCall.Reading.{read_file_as}

module _ (buf : ℕ) (k0 : Kernel) (p fd : ℕ) where
  abbrev pub task : ℕ
  task = task_of k0

  abbrev pub m0 : Memory
  m0 = memory_of k0

  abbrev pub page : ℕ
  page = video_page k0.screen

  abbrev pub file : FileDesc
  file = (k0.pcbs p).file_array fd

  abbrev pub size : ℕ
  size = inode_length task k0.fs m0 file.inode

  -- The bytes of the file from one on.
  abbrev pub part : ℕ → ℕ → List ℕ
  part i zero = []
  part i (suc n) = file_byte task k0.fs m0 file.inode i ∷ part (i + 1) n

  pub part-add : (a b i : ℕ) → part i (a + b) ≡ part i a ++ part (i + a) b
  part-add zero b i = ground arith
  part-add (suc a) b i =
      let next : suc a + b ≡ suc (a + b) = omega arith in
      let from : i + suc a ≡ i + 1 + a = omega arith in
      rw (next, from)
        (ap (λ (xs : List ℕ). file_byte task k0.fs m0 file.inode i ∷ xs) (part-add a b (i + 1)))

  bytes_at-part :
      (c a i : ℕ) (m : Memory)
      → ((t : ℕ) → t < c → load task m (a + t) ≡ file_byte task k0.fs m0 file.inode (i + t))
      → bytes_at task m a c ≡ part i c
  unfolding bytes_at
  bytes_at-part zero a i m h = refl
  bytes_at-part (suc c) a i m h =
      let first : load task m a ≡ file_byte task k0.fs m0 file.inode i = ground (arith, h 0) in
      rw (first, bytes_at-part c (a + 1) (i + 1) m (λ t q. ground (arith, h (suc t)))) refl

  -- The process runs with its standard output, the descriptor is open on a file that fits its inode,
  -- and the file, the buffer and the page that the terminal prints on are apart.
  pub record IsPrintable : Type 0 where
    pub current : k0.current_pid ≡ some p
    pub ready : IsReady (k0.pcbs p).file_array
    pub numbered : fd < fdt_size
    pub own : 2 ≤ fd
    pub used : file.flags ≢ 0
    pub regular : file.read ≡ filesys_read_driver
    pub valid : file.inode < k0.fs.num_inodes
    pub small : size ≤ max_file_length task k0.fs
    pub within : file.file_position ≤ size
    pub clear : IsClear task k0.fs m0 file.inode buf 1024
    pub range : InRange k0.screen
    pub low : page < 0x8000
    pub inode_apart :
        (i : ℕ) → i < 4096 → translate task (inode_at k0.fs file.inode + i) / 0x1000 ≢ page
    pub file_apart :
        (j : ℕ)
        → j < size
        → translate task (file_address task k0.fs m0 file.inode j) / 0x1000 ≢ page
    pub buf_apart : (i : ℕ) → i < 1024 → translate task (buf + i) / 0x1000 ≢ page

  -- The kernel when `r` bytes have been read and `n` have been printed.
  pub record At (r n : ℕ) (k : Kernel) : Type 0 where
    pub current : k.current_pid ≡ some p
    pub fs : k.fs ≡ k0.fs
    pub paging : k.screen.paging ≡ k0.screen.paging
    pub desc : (k.pcbs p).file_array fd ≡ record file { file_position = file.file_position + r }
    pub ready : IsReady (k.pcbs p).file_array
    pub range : InRange k.screen
    pub kept :
        (b : ℕ)
        → Apart task buf 1024 b
        → translate task b / 0x1000 ≢ page
        → load task (memory_of k) b ≡ load task m0 b
    pub shown : Alike page (puts_scroll (part file.file_position n) k0.screen) k.screen

  module _ (h : IsPrintable) where
    pub start-At : At 0 0 k0
    start-At = record {
      current = h.current;
      fs = refl;
      paging = refl;
      desc = ap (λ (n : ℕ). record file { file_position = n }) (omega arith);
      ready = h.ready;
      range = h.range;
      kept = λ b out off. refl;
      shown = rw (puts_scroll-nil k0.screen) (refl, λ a q. refl);
    }

    -- How many bytes the next read gives.
    abbrev pub chunk : ℕ → ℕ
    chunk n = min 1024 (size - (file.file_position + n))

    module _ (n : ℕ) (k : Kernel) (at : At n n k) (in_file : file.file_position + n ≤ size) where
      m : Memory
      m = memory_of k

      inode_same :
          (i : ℕ)
          → i < 4096
          → load task m (inode_at k0.fs file.inode + i)
            ≡ load task m0 (inode_at k0.fs file.inode + i)
      unfolding m
      inode_same i q = at.kept _ (h.clear.inode_clear i q) (h.inode_apart i q)

      byte_same :
          (j : ℕ)
          → j < size
          → file_byte task k0.fs m file.inode j ≡ file_byte task k0.fs m0 file.inode j
      unfolding m
      byte_same j q =
          file_byte-kept task k0.fs m0 m file.inode inode_same j (omega (arith, h.small))
            (at.kept _ (h.clear.file_clear j q) (h.file_apart j q))

      size_same : inode_length task k0.fs m file.inode ≡ size
      size_same = inode_length-kept task k0.fs m0 m file.inode inode_same

      chunk_same : available task k0.fs m file.inode (file.file_position + n) 1024 ≡ chunk n
      chunk_same = ap (λ (l : ℕ). min 1024 (l - (file.file_position + n))) size_same

      -- A byte of the page is not one of the buffer.
      page-Apart : (a : ℕ) → a / 0x1000 ≡ page → Apart task buf 1024 a
      unfolding translate
      page-Apart a q i r e = h.buf_apart i r (ground (arith, h.low))

      page_same :
          (m' : Memory)
          → ((b : ℕ) → Apart task buf (chunk n) b → load task m' b ≡ load task m b)
          → Agree page m m'
      unfolding load translate
      page_same m' same a q =
          let e = same a (λ i r. page-Apart a q i (omega arith)) in ground (arith, h.low)

      after_read :
          (m' : Memory) (pcbs' : ℕ → Pcb)
          → ((b : ℕ) → Apart task buf (chunk n) b → load task m' b ≡ load task m b)
          → ((pcbs' p).file_array fd
              ≡ record file { file_position = file.file_position + n + chunk n })
          → ((j : ℕ) → j ≢ fd → (pcbs' p).file_array j ≡ (k.pcbs p).file_array j)
          → At
              (n + chunk n)
              n
              (record k { pcbs = pcbs'; screen = record (k.screen) { memory = m' } })
      unfolding m
      after_read m' pcbs' same moved others =
          let f0 = others 0 (λ e. absurd (omega (arith, h.own))) in
          let f1 = others 1 (λ e. absurd (omega (arith, h.own))) in
          let old = at.ready in
          record {
            current = at.current;
            fs = at.fs;
            paging = at.paging;
            desc =
                moved
                ∙ ap (λ (a : ℕ). record file { file_position = a })
                    (add_assoc file.file_position n (chunk n));
            ready = record {
              stdin_open = rw f0 old.stdin_open;
              stdin_read = rw f0 old.stdin_read;
              stdout_open = rw f1 old.stdout_open;
              stdout_write = rw f1 old.stdout_write;
            };
            range = at.range;
            kept = λ b out off. same b (λ i q. out i (omega arith)) ∙ at.kept b out off;
            shown = (
              ap (λ (z : Screen). with_memory z m') at.shown.0,
              λ a q. at.shown.1 a q ∙ page_same m' same a q,
            );
          }

      pub read_step :
          (k' : Kernel) × (read k fd buf 1024 ≡ returns (pos (chunk n), k'))
          × At (n + chunk n) n k'
          × (bytes_at task (memory_of k') buf (chunk n) ≡ part (file.file_position + n) (chunk n))
      unfolding m
      read_step =
          let d = record file { file_position = file.file_position + n } in
          let (m', pcbs', done, held, moved, others, processes) =
            read_file_as k p at.current fd buf 1024 task k0.fs d
              (ap (λ (q : Paging). (q.page_dir 32).aligned_address) at.paging) at.fs at.desc
              h.numbered (λ e. absurd (omega (arith, h.own))) h.used h.regular h.valid
              (omega (arith, size_same, h.small)) (omega (arith, h.small)) (omega arith)
              (IsClear-kept task k0.fs m0 m file.inode inode_same buf 1024 _ h.small (omega arith)
                h.clear) in
          (
            record k { pcbs = pcbs'; screen = record (k.screen) { memory = m' } },
            rw chunk_same at done,
            after_read m' pcbs' (rw chunk_same at held.same) (rw chunk_same at moved) others,
            bytes_at-part (chunk n) buf (file.file_position + n) m' (λ t q.
                (rw chunk_same at held.filled) t q
                ∙ byte_same (file.file_position + n + t) (omega arith)),
          )
