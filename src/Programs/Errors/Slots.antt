-- ===== src/Programs/Errors/Slots.antt =====
-- One open, and one close, during the tests of syscalls/ece391syserr.c.
use Prim.Native.String.{String}
use pony_os.Base.{
  ℕ, ◌+◌, ◌≤◌, ◌<◌, ◌≡◌, ◌≢◌, ◌⊎◌, inl, inr, refl, ap, ◌∙◌, arith, Bool-cases, ◌==◌, List, some,
  pos, minus_one, returns,
}
use native.Mathlib.Decide.{ℕ_discrete, dec_lt}
use pony_os.FileSystem.{FileSystem, Dentry, filesys_open}
use pony_os.Paging.{update_at}
use pony_os.Process.{FileDesc, Kernel, Pcb, fdt_size, with_pcb}
use pony_os.SystemCall.{
  open_file, close, opened, open_directory, with_file, dir_type, reg_type, rtc_type,
}
use pony_os.SystemCall.Files.{slot, open_file-after_open, close_lem}
use pony_os.Programs.Errors.Steady.{IsTestable, During, found_at, lookup}

module _ (literal : String → ℕ) (chars : String → List ℕ) (k0 : Kernel) (p : ℕ)
    (h : IsTestable literal chars k0 p) where
  abbrev Now : ℕ → ℕ → Kernel → Type 0
  Now = During literal chars k0 p

  opened-flags : (f : Dentry) (d : FileDesc) → (opened f d).flags ≡ 1
  opened-flags f d = elim (Bool-cases (f.file_type == rtc_type)) [
    | inl rtc ↦ rw rtc refl
    | inr other ↦ elim (Bool-cases (f.file_type == reg_type)) [
      | inl reg ↦ rw (other, reg) refl
      | inr other' ↦ elim (Bool-cases (f.file_type == dir_type)) [
        | inl dir ↦ rw (other, other', dir) refl
        | inr none ↦ rw (other, other', none) refl
      ]
    ]
  ]

  -- What open_directory leaves.
  directory-Now :
      (f : Dentry) (from to : ℕ) (k : Kernel)
      → Now from to k
      → Now from to (open_directory f k) × ((open_directory f k).screen ≡ k.screen)
  unfolding filesys_open
  directory-Now f from to k d = elim (Bool-cases (f.file_type == dir_type)) [
    | inl dir ↦ rw dir (
      record {
        current = d.current;
        index = 0;
        fs = ap (λ (fs : FileSystem). record fs { current_dir_read_index = 0 }) d.fs;
        paging = d.paging;
        ready = d.ready;
        free = d.free;
        busy = d.busy;
        range = d.range;
        kept = d.kept;
      },
      refl,
    )
    | inr other ↦ rw other (d, refl)
  ]

  -- One descriptor of the process changes: it extends those in use, or no longer belongs to them.
  file-Now :
      (from to from' to' i : ℕ) (k : Kernel) (pcbs' : ℕ → Pcb)
      → Now from to k
      → 2 ≤ i
      → ((j : ℕ) → j ≢ i → (pcbs' p).file_array j ≡ (k.pcbs p).file_array j)
      → ((2 ≤ i) → (i < fdt_size) → (i < from') ⊎ (to' ≤ i) → ((pcbs' p).file_array i).flags ≡ 0)
      → ((from' ≤ i) → (i < to') → ((pcbs' p).file_array i).flags ≢ 0)
      → ((j : ℕ) → j ≢ i → 2 ≤ j → (j < from') ⊎ (to' ≤ j) → (j < from) ⊎ (to ≤ j))
      → ((j : ℕ) → j ≢ i → from' ≤ j → j < to' → (from ≤ j) × (j < to))
      → Now from' to' (record k { pcbs = pcbs' })
  file-Now from to from' to' i k pcbs' d own others free busy still_free still_busy =
      let f0 = others 0 (λ e. absurd (omega arith)) in
      let f1 = others 1 (λ e. absurd (omega arith)) in
      record {
        current = d.current;
        index = d.index;
        fs = d.fs;
        paging = d.paging;
        ready = record {
          stdin_open = rw f0 d.ready.stdin_open;
          stdin_read = rw f0 d.ready.stdin_read;
          stdout_open = rw f1 d.ready.stdout_open;
          stdout_write = rw f1 d.ready.stdout_write;
        };
        free = λ j low high out. elim (ℕ_discrete j i) [
          | yes e ↦ rw e (free (rw e at low) (rw e at high) (rw e at out))
          | no ne ↦
              ap (λ (x : FileDesc). x.flags) (others j ne)
              ∙ d.free j low high (still_free j ne low out)
        ];
        busy = λ j low high. elim (ℕ_discrete j i) [
          | yes e ↦ rw e (busy (rw e at low) (rw e at high))
          | no ne ↦
              let (low', high') = still_busy j ne low high in rw (others j ne) (d.busy j low' high')
        ];
        range = d.range;
        kept = d.kept;
      }

  -- The kernel with a descriptor opened.
  abbrev raw_slot : Dentry → Kernel → ℕ → Kernel
  raw_slot f k i =
      with_pcb k p (record (with_file (k.pcbs p) i (opened f ((k.pcbs p).file_array i))) {
        available = update_at (k.pcbs p).available i 1;
      })

  abbrev opened_at_slot : Dentry → Kernel → ℕ → Kernel
  opened_at_slot f k i = open_directory f (raw_slot f k i)

  module _ (f : Dentry) (found : found_at literal chars k0 p "." ≡ some (pos 0, f)) where
    opened_at :
        (to : ℕ) (k : Kernel) (d : Now 2 to k) (i : ℕ)
        → i ≡ to
        → i < fdt_size
        → 2 ≤ i
        → open_file k (literal ".") ≡ returns (pos i, opened_at_slot f k i)
        → (k' : Kernel) × (open_file k (literal ".") ≡ returns (pos to, k'))
          × Now 2 (to + 1) k'
          × (k'.screen ≡ k.screen)
    opened_at to k d i same room own done =
        let pcbs' = (raw_slot f k i).pcbs in
        let other : (j : ℕ) → j ≢ i → (pcbs' p).file_array j ≡ (k.pcbs p).file_array j =
          λ j ne. ground arith in
        let here : (pcbs' p).file_array i ≡ opened f ((k.pcbs p).file_array i) = ground arith in
        let used : ((pcbs' p).file_array i).flags ≡ 1 =
          ap (λ (x : FileDesc). x.flags) here ∙ opened-flags f ((k.pcbs p).file_array i) in
        let (d', shown) = directory-Now f 2 (to + 1) (raw_slot f k i) (
          file-Now 2 to 2 (to + 1) i k pcbs' d own other
            (λ low high out. elim out [
              | inl q ↦ absurd (omega arith)
              | inr q ↦ absurd (omega arith)
            ])
            (λ low high. ground arith)
            (λ j ne low out. elim out [ inl q ↦ inl q | inr q ↦ inr (omega arith) ])
            (λ j ne low high. (omega arith, omega arith))) in
        (
          opened_at_slot f k i,
          done ∙ ap (λ (n : ℕ). returns (pos n, opened_at_slot f k i)) same,
          d',
          shown,
        )

    pub open_step :
        (to : ℕ) (k : Kernel)
        → 2 ≤ to
        → to < fdt_size
        → Now 2 to k
        → (k' : Kernel) × (open_file k (literal ".") ≡ returns (pos to, k'))
          × Now 2 (to + 1) k'
          × (k'.screen ≡ k.screen)
    open_step to k low high d =
        elim (open_file-after_open k p d.current (literal ".") f d.ready
          (lookup literal chars k0 p h 2 to k d "." ∙ found)) [
            | inr (refused, full) ↦ absurd (full to high (d.free to low high (inr (omega arith))))
            | inl (room, done, own, unused, below, moved, others, processes) ↦
                opened_at to k d (slot k p d.current)
                  (elim (dec_lt to (slot k p d.current)) [
                    | yes later ↦ absurd (below to later (d.free to low high (inr (omega arith))))
                    | no q ↦ elim (dec_lt (slot k p d.current) to) [
                      | yes earlier ↦ absurd (d.busy _ own earlier unused)
                      | no r ↦ omega arith
                    ]
                  ])
                  room own done
          ]

    pub open_full :
        (k : Kernel) → Now 2 fdt_size k → open_file k (literal ".") ≡ returns (minus_one, k)
    open_full k d =
        elim (open_file-after_open k p d.current (literal ".") f d.ready
          (lookup literal chars k0 p h 2 fdt_size k d "." ∙ found)) [
            | inr (refused, full) ↦ refused
            | inl (room, done, own, unused, below, moved, others, processes) ↦
                absurd (d.busy _ own room unused)
          ]

  pub close_step :
      (from : ℕ) (k : Kernel)
      → 2 ≤ from
      → from < fdt_size
      → Now from fdt_size k
      → (k' : Kernel) × (close k from ≡ returns (pos 0, k'))
        × Now (from + 1) fdt_size k'
        × (k'.screen ≡ k.screen)
  close_step from k low high d =
      let (done, freed, others, processes) =
        close_lem k p d.current from low high (d.busy from (omega arith) high) in
      (
        _,
        done,
        file-Now from fdt_size (from + 1) fdt_size from k _ d low others (λ a b c. freed)
            (λ a b. absurd (omega arith))
            (λ j ne a out. elim out [ inl q ↦ inl (omega arith) | inr q ↦ inr q ])
            (λ j ne a b. (omega arith, omega arith)),
        refl,
      )
