-- ===== src/SystemCall/Listing.antt =====
-- A read through a descriptor of a directory.
use pony_os.Base.{
  ℕ, ◌≤◌, ◌<◌, ◌≡◌, ◌≢◌, refl, ap, ◌∙◌, arith, Option, some, none, faults, pos, returns, false,
  ◌==◌, leb, and_then,
}
use pony_os.FileSystem.{FileSystem, dir_read}
use pony_os.Memory.{Memory}
use pony_os.Process.{
  FileDesc, Pcb, Kernel, dir_read_wrapper, fdt_size, memory_of, task_of, with_memory, with_pcb,
}
use pony_os.SystemCall.{call_read, add_int, advance, read_open, read, with_file, with_current, Call}

module _ (k : Kernel) (p : ℕ) (current : k.current_pid ≡ some p) (fd buf count : ℕ) where
  abbrev desc : FileDesc
  desc = (k.pcbs p).file_array fd

  selected : (f : ℕ → Pcb → Call) → with_current k f ≡ f p (k.pcbs p)
  selected f = chosen k.current_pid current
    where
      chosen :
          (o : Option ℕ)
          → o ≡ some p
          → elim o [ none ↦ faults | some q ↦ f q (k.pcbs q) ] ≡ f p (k.pcbs p)
      chosen o e = rw e refl

  served :
      (l : ℕ) (fs' : FileSystem) (m' : Memory)
      → desc.read ≡ dir_read_wrapper
      → dir_read (task_of k) k.fs (memory_of k) buf ≡ some (pos l, fs', m')
      → call_read desc.read k desc.inode desc.file_position buf count
        ≡ returns (pos l, with_memory (record k { fs = fs' }) m')
  unfolding call_read
  served l fs' m' directory done = rw (directory, done) refl

  -- read passes on what dir_read returns, and moves the descriptor on.
  pub read_directory :
      (l : ℕ) (fs' : FileSystem) (m' : Memory)
      → 2 ≤ fd
      → fd < fdt_size
      → desc.flags ≢ 0
      → desc.read ≡ dir_read_wrapper
      → dir_read (task_of k) k.fs (memory_of k) buf ≡ some (pos l, fs', m')
      → (pcbs' : ℕ → Pcb) × (read k fd buf count
          ≡ returns (
            pos l,
            record k { fs = fs'; pcbs = pcbs'; screen = record (k.screen) { memory = m' } },
          ))
        × ((pcbs' p).file_array fd
            ≡ record desc { file_position = add_int desc.file_position (pos l) })
        × ((j : ℕ) → j ≢ fd → (pcbs' p).file_array j ≡ (k.pcbs p).file_array j)
  unfolding read read_open call_read advance
  read_directory l fs' m' own low opened directory done =
      let used : (desc.flags == 0) ≡ false = ground arith in
      let numbered : leb fdt_size fd ≡ false = ground arith in
      let other : (fd == 1) ≡ false = ground arith in
      let k1 = with_memory (record k { fs = fs' }) m' in
      (
        (with_pcb k1 p (
            with_file (k.pcbs p) fd
              (record desc { file_position = add_int desc.file_position (pos l) }))).pcbs,
        rw (numbered, other)
            (selected (read_open k fd buf count)
              ∙ rw used (
                  ap (λ (c : Call). and_then c λ r. returns (advance p fd r))
                    (served l fs' m' directory done))),
        ground arith,
        λ j ne. ground arith,
      )
