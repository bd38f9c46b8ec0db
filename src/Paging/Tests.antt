-- ===== src/Paging/Tests.antt =====
-- The page tables at addresses like those of the linked kernel.
use pony_os.Base.{refl, ℕ, ◌/◌, ◌^◌, ◌≡◌, ◌≢◌, inr, some, none, arith}
use pony_os.Memory.{translate}
use pony_os.Paging.{Paging, empty_table_entry, writable_dir_entry, paging_init, setup_task_page}
use pony_os.Paging.Translation.{physical, initial_map, physical-paging_init, physical-translate}

abbrev table : ℕ
table = 0x410000

abbrev video_table : ℕ
video_table = 0x411000

-- What the tables hold before paging_init does not matter.
abbrev before : Paging
before = record {
  page_dir = λ i. writable_dir_entry;
  page_table = λ i. empty_table_entry;
  user_video_page_table = λ i. empty_table_entry;
}

tables_apart : table / 2 ^ 12 ≢ video_table / 2 ^ 12
tables_apart e = absurd (omega arith)

-- An address in the video memory as a user program sees it.
physical-paging_init_example :
    physical table video_table (paging_init table video_table before) 0xa0b8010
    ≡ initial_map 0xa0b8010
physical-paging_init_example =
    physical-paging_init table video_table tables_apart before 0xa0b8010 (omega arith)

user_video_shown : initial_map 0xa0b8010 ≡ some 0xb8010
unfolding initial_map
user_video_shown = refl

null_page_faults : initial_map 0 ≡ none
unfolding initial_map
null_page_faults = refl

physical-translate_example :
    let q = setup_task_page 2 (paging_init table video_table before) in
    physical table video_table q 0x8048000
    ≡ some (translate (q.page_dir 32).aligned_address 0x8048000)
physical-translate_example =
    physical-translate table video_table tables_apart 2 before 0x8048000 (omega arith)
      (inr (omega arith, omega arith))
