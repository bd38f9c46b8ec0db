-- ===== src/Paging/Loops.antt =====
-- What the loops of paging.c leave in each entry of the tables.
use pony_os.Base.{
  ℕ, zero, suc, ◌+◌, ◌*◌, ◌≤◌, ◌<◌, ◌≡◌, refl, arith, ltb, leb, ◌&&◌, ◌==◌, if◌then◌else◌,
}
use pony_os.Paging.{
  Paging, DirEntry, TableEntry, empty_table_entry, writable_dir_entry, user_video_round,
  directory_round, table_round, rounds,
}

abbrev pub identity_entry : ℕ → TableEntry
identity_entry i = record empty_table_entry {
  present = if i == 0 then 0 else 1;
  read_write = 1;
  page_address = i;
}

abbrev pub user_identity_entry : ℕ → TableEntry
user_identity_entry i = record empty_table_entry {
  present = if i == 0 then 0 else 1;
  user_supervisor = 1;
  read_write = 1;
  page_address = i;
}

abbrev pub unused_entry : ℕ → DirEntry
unused_entry i = record writable_dir_entry { aligned_address = i * 1024; size = 1 }

abbrev pub Within : ℕ → ℕ → ℕ → Type 0
Within i n j = (i ≤ j) × (j < i + n)

pub rounds-table :
    (n i : ℕ) (p : Paging) (j : ℕ)
    → (rounds n i table_round p).page_table j
      ≡ (if leb i j && ltb j (i + n) then identity_entry j else p.page_table j)
unfolding rounds
rounds-table zero i p j = ground arith
rounds-table (suc n) i p j = ground (arith, rounds-table n (i + 1) (table_round i p) j)

pub rounds-table_dir :
    (n i : ℕ) (p : Paging) (j : ℕ) → (rounds n i table_round p).page_dir j ≡ p.page_dir j
unfolding rounds
rounds-table_dir zero i p j = refl
rounds-table_dir (suc n) i p j = rounds-table_dir n (i + 1) (table_round i p) j

pub rounds-directory :
    (n i : ℕ) (p : Paging) (j : ℕ)
    → (rounds n i directory_round p).page_dir j
      ≡ (if leb i j && ltb j (i + n) then unused_entry j else p.page_dir j)
unfolding rounds
rounds-directory zero i p j = ground arith
rounds-directory (suc n) i p j = ground (arith, rounds-directory n (i + 1) (directory_round i p) j)

pub rounds-user_video :
    (n i : ℕ) (p : Paging) (j : ℕ)
    → (rounds n i user_video_round p).user_video_page_table j
      ≡ (if leb i j && ltb j (i + n) then user_identity_entry j else p.user_video_page_table j)
unfolding rounds
rounds-user_video zero i p j = ground arith
rounds-user_video (suc n) i p j =
    ground (arith, rounds-user_video n (i + 1) (user_video_round i p) j)

pub rounds-user_video_dir :
    (n i : ℕ) (p : Paging) (j : ℕ) → (rounds n i user_video_round p).page_dir j ≡ p.page_dir j
unfolding rounds
rounds-user_video_dir zero i p j = refl
rounds-user_video_dir (suc n) i p j = rounds-user_video_dir n (i + 1) (user_video_round i p) j

pub rounds-user_video_table :
    (n i : ℕ) (p : Paging) (j : ℕ) → (rounds n i user_video_round p).page_table j ≡ p.page_table j
unfolding rounds
rounds-user_video_table zero i p j = refl
rounds-user_video_table (suc n) i p j = rounds-user_video_table n (i + 1) (user_video_round i p) j
