-- ===== src/FileSystem/Tests.antt =====
-- A disk of two entries, and the theorems at it.
use pony_os.Base.{
  ℕ, zero, suc, ◌+◌, ◌*◌, ◌/◌, ◌<◌, ◌≤◌, ◌≡◌, refl, some, List, [], ◌∷◌, arith, pos, ◌==◌,
  if◌then◌else◌,
}
use pony_os.Memory.{Memory, load, load32}
use pony_os.Memory.Copy.{user-Distinct, user-kernel-Apart}
use pony_os.Strings.{strlen, strlen_loop, c_string, same}
use pony_os.FileSystem.{
  Dentry, FileSystem, inode_length, filesys_init, no_dentry, read_data, read_dentry_by_name,
  dentry_at,
}
use pony_os.FileSystem.Data.{IsClear, Holds, file_address, read_data_lem}
use pony_os.FileSystem.Lookup.{Ends, first_named, read_dentry_by_name_lem}

abbrev base : ℕ
base = 0x600000

-- The page of process 1 starts at 12 MB.
abbrev pub task : ℕ
task = 3072

abbrev at : List (ℕ × ℕ) → Memory
at [] a = 0
at ((p, v) ∷ ps) a = if a == p then v else at ps a

-- "." of type 1, and "hi" of type 2 with inode 1, whose five bytes are in data block 0.
abbrev cells : List (ℕ × ℕ)
cells =
    (base, 2)
    ∷ (base + 4, 2)
    ∷ (base + 8, 1)
    ∷ (base + 64, b'.')
    ∷ (base + 96, 1)
    ∷ (base + 128, b'h')
    ∷ (base + 129, b'i')
    ∷ (base + 160, 2)
    ∷ (base + 164, 1)
    ∷ (base + 8192, 5)
    ∷ (base + 12288, b'h')
    ∷ (base + 12289, b'e')
    ∷ (base + 12290, b'l')
    ∷ (base + 12291, b'l')
    ∷ (base + 12292, b'o')
    ∷ (0x700000, b'h')
    ∷ (0x700001, b'i')
    ∷ []

unfoldable pub disk : Memory
disk = at cells

abbrev pub fs : FileSystem
fs = record {
  num_dir_entry = 2;
  num_inodes = 2;
  num_data_blocks = 1;
  current_dir_read_index = 0;
  data_block_start = base + 12288;
  dir_table = base + 64;
  inode_table = base + 4096;
}

fs-filesys_init : filesys_init task disk base ≡ fs
unfolding filesys_init disk load32
fs-filesys_init = refl

pub five_bytes : inode_length task fs disk 1 ≡ 5
unfolding disk load32
five_bytes = refl

pub block_zero : (j : ℕ) → j < 5 → file_address task fs disk 1 j ≡ base + 12288 + j
unfolding disk load32 file_address
block_zero j p = let e : j / 4096 ≡ 0 = omega arith in rw e (omega arith)

abbrev pub user_buffer : ℕ
user_buffer = 0x8048000

pub user_buffer-IsClear : (n : ℕ) → n ≤ 2048 → IsClear task fs disk 1 user_buffer n
user_buffer-IsClear n few = record {
  inode_clear = λ k p.
      user-kernel-Apart task user_buffer n _ (omega arith) (omega arith) (omega arith)
        (omega arith);
  file_clear = λ j p i q.
      let p' : j < 5 = rw five_bytes at p in
      rw (block_zero j p') (
        user-kernel-Apart task user_buffer n _ (omega arith) (omega arith) (omega arith)
          (omega arith) i q);
  distinct = user-Distinct task user_buffer n (omega arith) (omega arith);
}

pub disk-IsClear : IsClear task fs disk 1 user_buffer 3
disk-IsClear = user_buffer-IsClear 3 (omega arith)

-- Three of the five bytes lie behind offset 2, though seven were asked for.
read_data_lem_example :
    let r = read_data task fs disk 1 2 user_buffer 7 in
    (r.0 ≡ pos 3) × Holds task fs disk 1 2 user_buffer 3 3 r.1
unfolding disk load32
read_data_lem_example =
    read_data_lem task fs disk 1 2 7 user_buffer (omega arith) (omega arith) (omega arith)
      (omega arith) disk-IsClear

abbrev pub dot_name : ℕ
dot_name = base + 64

-- Where a program holds the string "hi".
abbrev pub asked : ℕ
asked = 0x700000

asked-Ends : Ends task disk asked
unfolding strlen strlen_loop load disk
asked-Ends = (2, omega arith, refl)

pub entries_end : (j : ℕ) → j < 2 → Ends task disk (fs.dir_table + 64 * j)
unfolding strlen strlen_loop load disk
entries_end zero p = (1, omega arith, refl)
entries_end (suc zero) p = (2, omega arith, refl)
entries_end (suc (suc j)) p = absurd (omega arith)

-- "hi" is the second entry.
read_dentry_by_name_lem_example :
    read_dentry_by_name task fs disk asked no_dentry ≡ some (pos 0, dentry_at task fs disk 1)
unfolding first_named same c_string load disk
read_dentry_by_name_lem_example =
    read_dentry_by_name_lem task fs disk asked no_dentry asked-Ends entries_end

abbrev pub hi : Dentry
hi = dentry_at task fs disk 1

pub hi_found : read_dentry_by_name task fs disk asked no_dentry ≡ some (pos 0, hi)
unfolding first_named same c_string load disk
hi_found = read_dentry_by_name_lem task fs disk asked no_dentry asked-Ends entries_end
