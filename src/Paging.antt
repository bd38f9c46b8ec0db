-- ===== src/Paging.antt =====
-- student-distrib/paging.c: the page directory, the table of the first 4 MB and the table of the
-- user's view of the video memory. The reload of cr3, cr4 and cr0 at the end of the functions makes
-- the processor use the tables as they are then, so it is no change of the model's state.
pub mod Loops
pub mod Translation
mod Tests
use pony_os.Base.{ℕ, zero, suc, ◌+◌, ◌*◌, ◌/◌, ◌^◌, ◌==◌, if◌then◌else◌, not}

-- page_directory_t and page_table_t of x86_desc.h; addresses are in units of 4 KB.
pub record DirEntry : Type 0 where
  pub present : ℕ
  pub read_write : ℕ
  pub user_supervisor : ℕ
  pub write_through : ℕ
  pub cache_disabled : ℕ
  pub accessed : ℕ
  pub reserved : ℕ
  pub size : ℕ
  pub zero_bit : ℕ
  pub avail : ℕ
  pub aligned_address : ℕ

pub record TableEntry : Type 0 where
  pub present : ℕ
  pub read_write : ℕ
  pub user_supervisor : ℕ
  pub write_through : ℕ
  pub cache_disabled : ℕ
  pub accessed : ℕ
  pub dirty : ℕ
  pub zero_bit : ℕ
  pub global : ℕ
  pub avail : ℕ
  pub page_address : ℕ

pub record Paging : Type 0 where
  pub page_dir : ℕ → DirEntry
  pub page_table : ℕ → TableEntry
  pub user_video_page_table : ℕ → TableEntry

abbrev pub update_at {ℓ} : {A : Type ℓ} → (ℕ → A) → ℕ → A → ℕ → A
update_at f i v j = if j == i then v else f j

abbrev pub user_space_start : ℕ
user_space_start = 32

abbrev pub user_video_start : ℕ
user_video_start = 40

abbrev pub video_ind : ℕ
video_ind = 0xb8

abbrev pub static_video_ind : ℕ
static_video_ind = 0xb8 + 4

abbrev pub empty_table_entry : TableEntry
empty_table_entry = record {
  present = 0;
  read_write = 0;
  user_supervisor = 0;
  write_through = 0;
  cache_disabled = 0;
  accessed = 0;
  dirty = 0;
  zero_bit = 0;
  global = 0;
  avail = 0;
  page_address = 0;
}

abbrev pub page_table_init : ℕ → Paging → Paging
page_table_init ind p = record p { page_table = update_at p.page_table ind empty_table_entry }

abbrev pub user_video_page_table_init : ℕ → Paging → Paging
user_video_page_table_init ind p = record p {
  user_video_page_table = update_at p.user_video_page_table ind empty_table_entry;
}

-- The entry is writable from the start.
abbrev pub writable_dir_entry : DirEntry
writable_dir_entry = record {
  present = 0;
  read_write = 1;
  user_supervisor = 0;
  write_through = 0;
  cache_disabled = 0;
  accessed = 0;
  reserved = 0;
  size = 0;
  zero_bit = 0;
  avail = 0;
  aligned_address = 0;
}

abbrev pub page_directory_init : ℕ → Paging → Paging
page_directory_init ind p = record p { page_dir = update_at p.page_dir ind writable_dir_entry }

-- Stores to some fields of one entry.
abbrev pub with_dir : ℕ → (DirEntry → DirEntry) → Paging → Paging
with_dir i f p = record p { page_dir = update_at p.page_dir i (f (p.page_dir i)) }

abbrev pub with_table : ℕ → (TableEntry → TableEntry) → Paging → Paging
with_table i f p = record p { page_table = update_at p.page_table i (f (p.page_table i)) }

abbrev pub with_user_video : ℕ → (TableEntry → TableEntry) → Paging → Paging
with_user_video i f p = record p {
  user_video_page_table = update_at p.user_video_page_table i (f (p.user_video_page_table i));
}

-- One round of each of the three loops.
abbrev pub user_video_round : ℕ → Paging → Paging
user_video_round i p =
    with_user_video i
      (λ e. record e {
        present = if not (i == 0) then 1 else e.present;
        user_supervisor = 1;
        read_write = 1;
        page_address = i;
      })
      (user_video_page_table_init i p)

abbrev pub directory_round : ℕ → Paging → Paging
directory_round i p =
    with_dir i (λ e. record e { read_write = 1; aligned_address = i * 1024; size = 1 })
      (page_directory_init i p)

abbrev pub table_round : ℕ → Paging → Paging
table_round i p =
    with_table i
      (λ e. record e {
        present = if not (i == 0) then 1 else e.present;
        read_write = 1;
        page_address = i;
      })
      (page_table_init i p)

-- `for (i = first; i < first + n; i++)`
pub rounds : ℕ → ℕ → (ℕ → Paging → Paging) → Paging → Paging
rounds zero i round p = p
rounds (suc n) i round p = rounds n (i + 1) round (round i p)

unfoldable pub set_active_terminal_paging : ℕ → ℕ → Paging → Paging
set_active_terminal_paging terminal_id display p =
    let page = if display == 0 then video_ind + terminal_id + 1 else video_ind in
    with_user_video video_ind (λ e. record e { page_address = page })
      (with_table video_ind (λ e. record e { page_address = page }) p)

-- The parameters are the addresses that the linker gives to the two tables.
module _ (page_table_address user_video_page_table_address : ℕ) where
  pub setupt_video_user_level : Paging → Paging
  setupt_video_user_level p =
      with_dir user_video_start
        (λ e. record e {
          present = 1;
          user_supervisor = 1;
          size = 0;
          aligned_address = user_video_page_table_address / 2 ^ 12;
        })
        (page_directory_init user_video_start (rounds 1024 0 user_video_round p))

  pub paging_init : Paging → Paging
  unfolding setupt_video_user_level set_active_terminal_paging
  paging_init p =
      let directory = rounds 1022 2 directory_round p in
      let table =
        with_table static_video_ind (λ e. record e { page_address = video_ind })
          (rounds 1024 0 table_round directory) in
      let first =
        with_dir 0 (λ e. record e { aligned_address = page_table_address / 2 ^ 12; present = 1 })
          (page_directory_init 0 table) in
      let kernel =
        with_dir 1
          (λ e. record e { present = 1; aligned_address = 1024; size = 1; user_supervisor = 0 })
          (page_directory_init 1 first) in
      set_active_terminal_paging 0 1 (setupt_video_user_level kernel)

unfoldable pub setup_task_page : ℕ → Paging → Paging
setup_task_page ind p =
    with_dir user_space_start
      (λ e. record e {
        present = 1;
        user_supervisor = 1;
        size = 1;
        aligned_address = ind * 1024 + 2 * 1024;
      })
      (page_directory_init user_space_start p)
