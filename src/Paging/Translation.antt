-- ===== src/Paging/Translation.antt =====
-- What the processor makes of the tables: the two-level walk of a 32-bit address, with pages of
-- 4 MB and of 4 KB, as the x86 manual has it.
use pony_os.Base.{
  ℕ, ◌+◌, ◌-◌, ◌*◌, ◌/◌, ◌%◌, ◌^◌, ◌≤◌, ◌<◌, ◌≡◌, ◌≢◌, ◌⊎◌, inl, inr, ◌∙◌, Option, none, some,
  arith, ltb, leb, ◌&&◌, ◌==◌, if◌then◌else◌,
}
use pony_os.Memory.{user_page_start, user_page_end, translate}
use pony_os.Paging.{Paging, DirEntry, TableEntry, writable_dir_entry, paging_init, setup_task_page}
use pony_os.Paging.Loops.{
  identity_entry, user_identity_entry, unused_entry, rounds-table, rounds-table_dir,
  rounds-directory, rounds-user_video, rounds-user_video_dir, rounds-user_video_table,
}

-- The address map that paging_init is to set up.
unfoldable pub initial_map : ℕ → Option ℕ
initial_map a =
    if ltb a 4096
    then none
    else if a / 4096 == 0xbc
    then some (0xb8 * 4096 + a % 4096)
    else if ltb a 0x800000
    then some a
    else if leb 0xa001000 a && ltb a 0xa400000
    then some (a - 0xa000000)
    else none

module _ (page_table_address user_video_page_table_address : ℕ) where
  -- The table that a directory entry points to.
  table_at : Paging → ℕ → ℕ → TableEntry
  table_at p address i =
      if address == page_table_address / 2 ^ 12 then p.page_table i else p.user_video_page_table i

  page_walk : TableEntry → ℕ → Option ℕ
  page_walk e a = if e.present == 1 then some (e.page_address * 4096 + a % 4096) else none

  walk : Paging → DirEntry → ℕ → Option ℕ
  unfolding table_at page_walk
  walk p d a =
      if d.present == 1
      then (if d.size == 1
          then some (d.aligned_address * 4096 + a % 2 ^ 22)
          else page_walk (table_at p d.aligned_address (a / 4096 % 1024)) a)
      else none

  -- `none` is a page fault.
  pub physical : Paging → ℕ → Option ℕ
  unfolding walk
  physical p a = walk p (p.page_dir (a / 2 ^ 22)) a

  -- The directory and the first table after paging_init.
  abbrev initial_dir : ℕ → DirEntry
  initial_dir j =
      if j == 40
      then record writable_dir_entry {
        present = 1;
        user_supervisor = 1;
        aligned_address = user_video_page_table_address / 2 ^ 12;
      }
      else if j == 1
      then record writable_dir_entry { present = 1; size = 1; aligned_address = 1024 }
      else if j == 0
      then record writable_dir_entry { present = 1; aligned_address = page_table_address / 2 ^ 12 }
      else unused_entry j

  abbrev initial_table : ℕ → TableEntry
  initial_table j =
      if j == 0xbc then record (identity_entry j) { page_address = 0xb8 } else identity_entry j

  paging_init-dir :
      (p : Paging) (j : ℕ)
      → j < 1024
      → (paging_init page_table_address user_video_page_table_address p).page_dir j ≡ initial_dir j
  unfolding paging_init
  paging_init-dir p j h =
      simp (rounds-user_video_dir, rounds-table_dir, rounds-directory) (ground arith)

  paging_init-table :
      (p : Paging) (j : ℕ)
      → j < 1024
      → (paging_init page_table_address user_video_page_table_address p).page_table j
        ≡ initial_table j
  unfolding paging_init
  paging_init-table p j h = simp (rounds-user_video_table, rounds-table) (ground arith)

  paging_init-user_video :
      (p : Paging) (j : ℕ)
      → j < 1024
      → (paging_init page_table_address user_video_page_table_address p).user_video_page_table j
        ≡ user_identity_entry j
  unfolding paging_init
  paging_init-user_video p j h = simp rounds-user_video (ground arith)

  module _ (apart : page_table_address / 2 ^ 12 ≢ user_video_page_table_address / 2 ^ 12) where
    -- After paging_init, with the two tables in different pages and whatever the tables held before:
    -- the page of the null pointer faults, the page 0xBC shows the video memory, the rest of the
    -- first 8 MB is mapped to itself, the 4 MB from 160 MB on show the first 4 MB but for their
    -- first page, and every other address faults.
    pub physical-paging_init :
        (p : Paging) (a : ℕ)
        → a < 2 ^ 32
        → physical (paging_init page_table_address user_video_page_table_address p) a
          ≡ initial_map a
    unfolding physical initial_map
    physical-paging_init p a h =
        rw
          (
            paging_init-dir p (a / 2 ^ 22) (omega arith),
            paging_init-table p (a / 4096 % 1024) (omega arith),
            paging_init-user_video p (a / 4096 % 1024) (omega arith),
          )
          (ground arith)

  -- setup_task_page maps the 4 MB from 128 MB on to the 4 MB from 8 MB + ind * 4 MB on, and changes
  -- no other address.
  physical-setup_task_page :
      (ind : ℕ) (p : Paging) (a : ℕ)
      → a < 2 ^ 32
      → physical (setup_task_page ind p) a ≡ (
          if leb 0x8000000 a && ltb a 0x8400000
          then some (0x800000 + ind * 0x400000 + (a - 0x8000000))
          else physical p a)
  unfolding physical setup_task_page
  physical-setup_task_page ind p a h = ground arith

  -- While process `ind` runs after paging_init, its page and the first 8 MB but for the null page
  -- and the page 0xBC are where `translate` puts them.
  pub physical-translate :
      (apart : page_table_address / 2 ^ 12 ≢ user_video_page_table_address / 2 ^ 12)
      → (ind : ℕ) (p : Paging) (a : ℕ) → a < 2 ^ 32
      → ((0x1000 ≤ a) × (a < 0x800000) × (a / 0x1000 ≢ 0xbc))
        ⊎ ((user_page_start ≤ a) × (a < user_page_end))
      → let q =
          setup_task_page ind (paging_init page_table_address user_video_page_table_address p) in
        physical q a ≡ some (translate (q.page_dir 32).aligned_address a)
  unfolding translate setup_task_page initial_map
  physical-translate apart ind p a h (inl low) =
      physical-setup_task_page ind (paging_init page_table_address user_video_page_table_address p)
        a h
      ∙ ground (arith, physical-paging_init apart p a h)
  physical-translate apart ind p a h (inr user) =
      physical-setup_task_page ind (paging_init page_table_address user_video_page_table_address p)
        a h
      ∙ ground arith
