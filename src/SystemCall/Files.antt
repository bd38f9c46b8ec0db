-- ===== src/SystemCall/Files.antt =====
-- File descriptors: allocation, the calls on descriptors that are not in use, and the three
-- standard properties of open, read and close.
use pony_os.Paging.{update_at}
use native.Mathlib.Decide.{dec_lt, ℕ_discrete}
use pony_os.Base.{
  ℕ, zero, suc, ◌+◌, ◌≤◌, ◌<◌, ◌≡◌, ◌≢◌, ◌⊎◌, inl, inr, refl, ap, ◌∙◌, some, ◌==◌, pos, minus_one,
  returns, arith, true, false,
}
use pony_os.FileSystem.{Dentry, no_dentry, read_dentry_by_name}
use pony_os.Process.{
  Driver, rtc_read_wrapper, rtc_write_wrapper, dir_read_wrapper, dir_write_wrapper,
  filesys_read_driver, filesys_write_wrapper, terminal_read_wrapper, terminal_write_wrapper,
  FileDesc, Kernel, fdt_size, memory_of, task_of, initial_files, with_pcb,
}
use pony_os.SystemCall.{
  drivers, free_from, opened, open_entry, open_file, read, read_open, write, write_open, close,
  close_open, open_directory, with_file,
}

free_from_lem :
    (files : ℕ → FileDesc) (n i : ℕ)
    → (i ≤ free_from files n i)
      × (free_from files n i ≤ i + n)
      × (free_from files n i < i + n → (files (free_from files n i)).flags ≡ 0)
      × ((j : ℕ) → i ≤ j → j < free_from files n i → (files j).flags ≢ 0)
unfolding free_from
free_from_lem files zero i =
    (omega arith, omega arith, λ h. absurd (omega arith), λ j p q. absurd (omega arith))
free_from_lem files (suc n) i = elim (ℕ_discrete (files i).flags 0) [
  | yes free ↦
      let here : (files i).flags == 0 ≡ true = ground arith in
      rw here (omega arith, omega arith, λ h. free, λ j p q. absurd (omega arith))
  | no busy ↦
      let skip : (files i).flags == 0 ≡ false = ground arith in
      let (low, high, hit, least) = free_from_lem files n (i + 1) in
      rw skip (
        omega arith,
        omega arith,
        λ h. hit (omega arith),
        λ j p q. elim (ℕ_discrete j i) [
          | yes same ↦ rw same busy
          | no other ↦ least j (omega arith) q
        ],
      )
]

-- Standard input and output: open, and served by the terminal.
pub record IsReady (files : ℕ → FileDesc) : Type 0 where
  pub stdin_open : (files 0).flags ≢ 0
  pub stdin_read : (files 0).read ≡ terminal_read_wrapper
  pub stdout_open : (files 1).flags ≢ 0
  pub stdout_write : (files 1).write ≡ terminal_write_wrapper

-- A new process has its standard input and output, and no other descriptor in use.
pub initial_files-IsReady :
    (files : ℕ → FileDesc)
    → IsReady (initial_files files)
      × ((i : ℕ) → 2 ≤ i → i < fdt_size → (initial_files files i).flags ≡ 0)
unfolding initial_files
initial_files-IsReady files = (
  record {
    stdin_open = ground arith;
    stdin_read = refl;
    stdout_open = ground arith;
    stdout_write = refl;
  },
  λ i p q. ground arith,
)

-- The two functions of a descriptor, and those of a type: 0 is the clock, 1 a directory, 2 a file.
-- Any other type keeps the functions of the last use.
abbrev pub functions : FileDesc → Driver × Driver
functions d = (d.read, d.write)

abbrev pub functions_of : ℕ → Driver × Driver → Driver × Driver
functions_of zero old = (rtc_read_wrapper, rtc_write_wrapper)
functions_of (suc zero) old = (dir_read_wrapper, dir_write_wrapper)
functions_of (suc (suc zero)) old = (filesys_read_driver, filesys_write_wrapper)
functions_of (suc (suc (suc t))) old = old

drivers-fields :
    (t : ℕ) (d : FileDesc)
    → ((drivers t d).inode ≡ d.inode)
      × ((drivers t d).flags ≡ d.flags)
      × ((drivers t d).file_position ≡ d.file_position)
      × (functions (drivers t d) ≡ functions_of t (functions d))
drivers-fields zero d = (refl, refl, refl, refl)
drivers-fields (suc zero) d = (refl, refl, refl, refl)
drivers-fields (suc (suc zero)) d = (refl, refl, refl, refl)
drivers-fields (suc (suc (suc t))) d = ground arith

open_directory-screen : (f : Dentry) (k : Kernel) → (open_directory f k).screen ≡ k.screen
open_directory-screen f k = ground arith

module _ (k : Kernel) where
  module _ (p : ℕ) (current : k.current_pid ≡ some p) where
    -- A descriptor that is negative or above 7, or one of the current process that is not in use:
    -- read, write and close return -1 and change nothing.
    pub closed_descriptor :
        (fd buf nbytes : ℕ)
        → (fdt_size ≤ fd) ⊎ (((k.pcbs p).file_array fd).flags ≡ 0)
        → (read k fd buf nbytes ≡ returns (minus_one, k))
          × (write k fd buf nbytes ≡ returns (minus_one, k))
          × (close k fd ≡ returns (minus_one, k))
    unfolding read write close read_open write_open close_open
    closed_descriptor fd buf nbytes (inl h) = (ground arith, ground arith, ground arith)
    closed_descriptor fd buf nbytes (inr h) = rw current (ground arith, ground arith, ground arith)

    abbrev pub files : ℕ → FileDesc
    files = (k.pcbs p).file_array

    abbrev pub slot : ℕ
    slot = free_from files fdt_size 0

    -- The kernel after a successful open of an entry.
    abbrev pub after_open : Dentry → Kernel
    after_open f = open_directory f (
        with_pcb k p (record (with_file (k.pcbs p) slot (opened f (files slot))) {
          available = update_at (k.pcbs p).available slot 1;
        }))

    -- What open does to a name that is found, by the source's own steps.
    pub open_file-after_open :
        (filename : ℕ) (f : Dentry)
        → IsReady files
        → read_dentry_by_name (task_of k) k.fs (memory_of k) filename no_dentry ≡ some (pos 0, f)
        → ((slot < fdt_size)
            × (open_file k filename ≡ returns (pos slot, after_open f))
            × (2 ≤ slot)
            × ((files slot).flags ≡ 0)
            × ((j : ℕ) → j < slot → (files j).flags ≢ 0)
            × (((after_open f).pcbs p).file_array slot ≡ opened f (files slot))
            × ((j : ℕ) → j ≢ slot → ((after_open f).pcbs p).file_array j ≡ files j)
            × ((q : ℕ) → q ≢ p → (after_open f).pcbs q ≡ k.pcbs q))
          ⊎ ((open_file k filename ≡ returns (minus_one, k))
              × ((j : ℕ) → j < fdt_size → (files j).flags ≢ 0))
    unfolding open_file open_entry
    open_file-after_open filename f ready found = elim (dec_lt slot fdt_size) [
      | yes room ↦
          let free = least.2 room in
          inl (
            room,
            rw (found, current) (ground arith),
            two ready free,
            free,
            λ j q. least.3 j (omega arith) q,
            ground arith,
            λ j ne. ground arith,
            λ q ne. ground arith,
          )
      | no full ↦ inr (
        rw (found, current) (ground (arith, least.1)),
        λ j q. least.3 j (omega arith) (omega arith),
      )
    ]
      where
        least :
            (0 ≤ slot)
            × (slot ≤ 0 + fdt_size)
            × (slot < 0 + fdt_size → (files slot).flags ≡ 0)
            × ((j : ℕ) → 0 ≤ j → j < slot → (files j).flags ≢ 0)
        least = free_from_lem files fdt_size 0

        two : IsReady files → (files slot).flags ≡ 0 → 2 ≤ slot
        two ready free = elim (dec_lt slot 2) [
          | no h ↦ omega arith
          | yes h ↦ elim (ℕ_discrete slot 0) [
            | yes z ↦ absurd (ready.stdin_open (rw z at free))
            | no nz ↦
                let one : slot ≡ 1 = omega arith in absurd (ready.stdout_open (rw one at free))
          ]
        ]

    -- For a process with its standard input and output, and a name that is found: open takes the least
    -- descriptor that is free, which is at least 2, marks it as in use, puts the entry's inode, the
    -- position 0 and the functions for the type of the entry there, and leaves the process's other
    -- descriptors, the other processes and the screen alone; when all are in use it returns -1 and
    -- changes nothing.
    pub open_file_lem :
        (filename : ℕ) (f : Dentry)
        → IsReady files
        → read_dentry_by_name (task_of k) k.fs (memory_of k) filename no_dentry ≡ some (pos 0, f)
        → ((i : ℕ) × (k' : Kernel) × (open_file k filename ≡ returns (pos i, k'))
            × (2 ≤ i)
            × (i < fdt_size)
            × ((files i).flags ≡ 0)
            × ((j : ℕ) → j < i → (files j).flags ≢ 0)
            × (((k'.pcbs p).file_array i).flags ≡ 1)
            × (((k'.pcbs p).file_array i).inode ≡ f.inode)
            × (((k'.pcbs p).file_array i).file_position ≡ 0)
            × (functions ((k'.pcbs p).file_array i)
                ≡ functions_of f.file_type (functions (files i)))
            × ((j : ℕ) → j ≢ i → (k'.pcbs p).file_array j ≡ files j)
            × ((q : ℕ) → q ≢ p → k'.pcbs q ≡ k.pcbs q)
            × (k'.screen ≡ k.screen))
          ⊎ ((open_file k filename ≡ returns (minus_one, k))
              × ((j : ℕ) → j < fdt_size → (files j).flags ≢ 0))
    open_file_lem filename f ready found = elim (open_file-after_open filename f ready found) [
      | inr full ↦ inr full
      | inl (room, done, own, unused, below, moved, others, processes) ↦
          let (inode, flags, position, its_functions) =
            drivers-fields f.file_type
              (record (files slot) { inode = f.inode; flags = 1; file_position = 0 }) in
          inl (
            slot,
            after_open f,
            done,
            own,
            room,
            unused,
            below,
            ap (λ (d : FileDesc). d.flags) moved ∙ flags,
            ap (λ (d : FileDesc). d.inode) moved ∙ inode,
            ap (λ (d : FileDesc). d.file_position) moved ∙ position,
            ap functions moved ∙ its_functions,
            others,
            processes,
            open_directory-screen f _,
          )
    ]

    -- close frees a descriptor in use from 2 on, and nothing else: it reads as closed afterwards, and
    -- every other descriptor of the process and every other process is as before.
    pub close_lem :
        (fd : ℕ)
        → 2 ≤ fd
        → fd < fdt_size
        → (files fd).flags ≢ 0
        → let k' = with_pcb k p (with_file (k.pcbs p) fd (record (files fd) { flags = 0 })) in
          (close k fd ≡ returns (pos 0, k'))
          × (((k'.pcbs p).file_array fd).flags ≡ 0)
          × ((j : ℕ) → j ≢ fd → (k'.pcbs p).file_array j ≡ files j)
          × ((q : ℕ) → q ≢ p → k'.pcbs q ≡ k.pcbs q)
    unfolding close close_open
    close_lem fd low high busy =
        (rw current (ground arith), ground arith, λ j ne. ground arith, λ q ne. ground arith)
