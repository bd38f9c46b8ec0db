-- ===== src/SystemCall/Reading.antt =====
-- A read through a descriptor of a file.
use pony_os.Memory.{Memory}
use pony_os.Base.{
  and_then, faults, none, Option, ℤ, Option, none, faults, ℕ, ◌+◌, ◌^◌, ◌≤◌, ◌<◌, ◌≡◌, ◌≢◌, refl,
  ap, ◌∙◌, arith, some, pos, returns, false, ◌==◌, leb,
}
use pony_os.FileSystem.{FileSystem, inode_length, read_data, filesys_read}
use pony_os.FileSystem.Data.{IsClear, Holds, max_file_length, available, read_data_lem}
use pony_os.Process.{
  FileDesc, Pcb, Kernel, filesys_read_driver, fdt_size, memory_of, task_of, with_memory, with_pcb,
}
use pony_os.SystemCall.{call_read, add_int, advance, read_open, read, with_file, with_current, Call}

module _ (k : Kernel) (p : ℕ) (current : k.current_pid ≡ some p) (fd buf count : ℕ) where
  abbrev pub desc : FileDesc
  desc = (k.pcbs p).file_array fd

  -- How many bytes there are from the descriptor's position on, at most the count.
  abbrev pub given : ℕ
  given = available (task_of k) k.fs (memory_of k) desc.inode desc.file_position count

  data_read : ℤ × Memory
  data_read = read_data (task_of k) k.fs (memory_of k) desc.inode desc.file_position buf count

  after_read : Kernel
  after_read = with_pcb (with_memory k data_read.1) p (
      with_file (k.pcbs p) fd
        (record desc { file_position = add_int desc.file_position (pos given) }))

  served :
      desc.read ≡ filesys_read_driver
      → call_read desc.read k desc.inode desc.file_position buf count
        ≡ returns (data_read.0, with_memory k data_read.1)
  unfolding call_read filesys_read data_read
  served file = rw file refl

  selected : (f : ℕ → Pcb → Call) → with_current k f ≡ f p (k.pcbs p)
  selected f = chosen k.current_pid current
    where
      chosen :
          (o : Option ℕ)
          → o ≡ some p
          → elim o [ none ↦ faults | some q ↦ f q (k.pcbs q) ] ≡ f p (k.pcbs p)
      chosen o e = rw e refl

  -- What of the kernel changes in a read.
  pub read_file_at :
      fd < fdt_size
      → fd ≢ 1
      → desc.flags ≢ 0
      → desc.read ≡ filesys_read_driver
      → desc.inode < k.fs.num_inodes
      → inode_length (task_of k) k.fs (memory_of k) desc.inode ≤ max_file_length (task_of k) k.fs
      → desc.file_position < 2 ^ 31
      → count < 2 ^ 31
      → IsClear (task_of k) k.fs (memory_of k) desc.inode buf given
      → (m' : Memory) × (pcbs' : ℕ → Pcb) × (read k fd buf count
          ≡ returns
              (pos given, record k { pcbs = pcbs'; screen = record (k.screen) { memory = m' } }))
        × Holds (task_of k) k.fs (memory_of k) desc.inode desc.file_position buf given given m'
        × ((pcbs' p).file_array fd ≡ record desc { file_position = desc.file_position + given })
        × ((j : ℕ) → j ≢ fd → (pcbs' p).file_array j ≡ (k.pcbs p).file_array j)
        × ((q : ℕ) → q ≢ p → pcbs' q ≡ k.pcbs q)
  unfolding read read_open call_read advance filesys_read after_read data_read
  read_file_at low in_out opened file valid small near request clear =
      let (count_read, held) =
        read_data_lem (task_of k) k.fs (memory_of k) desc.inode desc.file_position count buf valid
          small near request clear in
      let used : (desc.flags == 0) ≡ false = ground arith in
      let numbered : leb fdt_size fd ≡ false = ground arith in
      let other : (fd == 1) ≡ false = ground arith in
      let moved : add_int desc.file_position (pos given) ≡ desc.file_position + given =
        omega arith in
      (
        data_read.1,
        after_read.pcbs,
        rw (numbered, other)
            (selected (read_open k fd buf count)
              ∙ rw used (
                  ap (λ (c : Call). and_then c λ r. returns (advance p fd r)) (served file)
                  ∙ ap (λ (res : ℤ). returns (advance p fd (res, with_memory k data_read.1)))
                      count_read)),
        held,
        ground (arith, moved),
        λ j ne. ground arith,
        λ q ne. ground arith,
      )

  -- For an open descriptor of a file, below the size limits, and a buffer apart from the file: read
  -- returns how many bytes there are from the descriptor's position on, at most the count; the
  -- buffer then holds these bytes of the file and no other byte has changed; the position moves on
  -- by this number, and the other descriptors and the other processes are as before.
  pub read_file :
      fd < fdt_size
      → fd ≢ 1
      → desc.flags ≢ 0
      → desc.read ≡ filesys_read_driver
      → desc.inode < k.fs.num_inodes
      → inode_length (task_of k) k.fs (memory_of k) desc.inode ≤ max_file_length (task_of k) k.fs
      → desc.file_position < 2 ^ 31
      → count < 2 ^ 31
      → IsClear (task_of k) k.fs (memory_of k) desc.inode buf given
      → (k' : Kernel) × (read k fd buf count ≡ returns (pos given, k'))
        × Holds
            (task_of k)
            k.fs
            (memory_of k)
            desc.inode
            desc.file_position
            buf
            given
            given
            (memory_of k')
        × (((k'.pcbs p).file_array fd).file_position ≡ desc.file_position + given)
        × ((j : ℕ) → j ≢ fd → (k'.pcbs p).file_array j ≡ (k.pcbs p).file_array j)
        × ((q : ℕ) → q ≢ p → k'.pcbs q ≡ k.pcbs q)
  read_file low in_out opened file valid small near request clear =
      let (m', pcbs', done, held, moved, others, processes) =
        read_file_at low in_out opened file valid small near request clear in
      (
        record k { pcbs = pcbs'; screen = record (k.screen) { memory = m' } },
        done,
        held,
        ap (λ (d : FileDesc). d.file_position) moved,
        others,
        processes,
      )

  -- The same of a kernel whose task, file system and descriptor are given by equations.
  pub read_file_as :
      (task : ℕ) (fs : FileSystem) (d : FileDesc)
      → task_of k ≡ task
      → k.fs ≡ fs
      → desc ≡ d
      → let n = available task fs (memory_of k) d.inode d.file_position count in
        fd < fdt_size
        → fd ≢ 1
        → d.flags ≢ 0
        → d.read ≡ filesys_read_driver
        → d.inode < fs.num_inodes
        → inode_length task fs (memory_of k) d.inode ≤ max_file_length task fs
        → d.file_position < 2 ^ 31
        → count < 2 ^ 31
        → IsClear task fs (memory_of k) d.inode buf n
        → (m' : Memory) × (pcbs' : ℕ → Pcb) × (read k fd buf count
            ≡ returns
                (pos n, record k { pcbs = pcbs'; screen = record (k.screen) { memory = m' } }))
          × Holds task fs (memory_of k) d.inode d.file_position buf n n m'
          × ((pcbs' p).file_array fd ≡ record d { file_position = d.file_position + n })
          × ((j : ℕ) → j ≢ fd → (pcbs' p).file_array j ≡ (k.pcbs p).file_array j)
          × ((q : ℕ) → q ≢ p → pcbs' q ≡ k.pcbs q)
  read_file_as task fs d e f g = rw (← e, ← f, ← g) read_file_at
