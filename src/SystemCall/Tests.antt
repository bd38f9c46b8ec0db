-- ===== src/SystemCall/Tests.antt =====
-- The process 1 of the kernel of Process/Tests opens the file "hi", and reads from it.

use pony_os.Base.{ℕ, ◌<◌, ◌≤◌, ◌≡◌, ◌≢◌, ◌⊎◌, inr, pos, minus_one, returns, refl, arith}
use pony_os.FileSystem.Tests.{asked, hi, hi_found, fs, disk, user_buffer, disk-IsClear}
use pony_os.FileSystem.{dentry_at}
use pony_os.FileSystem.Data.{Holds}
use pony_os.Memory.{load32}
use pony_os.SystemCall.Reading.{read_file}
use pony_os.Process.{
  filesys_read_driver, filesys_write_wrapper, memory_of, Kernel, FileDesc, with_pcb, initial_files,
}
use pony_os.Process.Tests.{kernel}
use pony_os.SystemCall.{open_file, read, write, close, with_file}
use pony_os.SystemCall.Files.{
  initial_files-IsReady, closed_descriptor, files, functions, open_file_lem,
}

closed_descriptor_example :
    (read kernel 5 0x8050000 4 ≡ returns (minus_one, kernel))
    × (write kernel 5 0x8050000 4 ≡ returns (minus_one, kernel))
    × (close kernel 5 ≡ returns (minus_one, kernel))
unfolding initial_files
closed_descriptor_example = closed_descriptor kernel 1 refl 5 0x8050000 4 (inr refl)

abbrev its_files : ℕ → FileDesc
its_files = files kernel 1 refl

open_file_lem_example :
    ((i : ℕ) × (k' : Kernel) × (open_file kernel asked ≡ returns (pos i, k'))
      × (2 ≤ i)
      × (i < 8)
      × ((its_files i).flags ≡ 0)
      × ((j : ℕ) → j < i → (its_files j).flags ≢ 0)
      × (((k'.pcbs 1).file_array i).flags ≡ 1)
      × (((k'.pcbs 1).file_array i).inode ≡ 1)
      × (((k'.pcbs 1).file_array i).file_position ≡ 0)
      × (functions ((k'.pcbs 1).file_array i) ≡ (filesys_read_driver, filesys_write_wrapper))
      × ((j : ℕ) → j ≢ i → (k'.pcbs 1).file_array j ≡ its_files j)
      × ((q : ℕ) → q ≢ 1 → k'.pcbs q ≡ kernel.pcbs q)
      × (k'.screen ≡ kernel.screen))
    ⊎ ((open_file kernel asked ≡ returns (minus_one, kernel))
        × ((j : ℕ) → j < 8 → (its_files j).flags ≢ 0))
unfolding disk load32 dentry_at
open_file_lem_example = open_file_lem kernel 1 refl asked hi (initial_files-IsReady _).0 hi_found

-- Descriptor 2 stands at offset 2 of the file "hi", which has five bytes.
abbrev pub hi_open : FileDesc
hi_open = record {
  read = filesys_read_driver;
  write = filesys_write_wrapper;
  inode = 1;
  file_position = 2;
  flags = 1;
}

abbrev pub reading : Kernel
reading = with_pcb kernel 1 (with_file (kernel.pcbs 1) 2 hi_open)

read_file_example :
    (k' : Kernel) × (read reading 2 user_buffer 7 ≡ returns (pos 3, k'))
    × Holds 3072 fs disk 1 2 user_buffer 3 3 (memory_of k')
    × (((k'.pcbs 1).file_array 2).file_position ≡ 5)
    × ((j : ℕ) → j ≢ 2 → (k'.pcbs 1).file_array j ≡ (reading.pcbs 1).file_array j)
    × ((q : ℕ) → q ≢ 1 → k'.pcbs q ≡ reading.pcbs q)
unfolding disk load32
read_file_example =
    read_file reading 1 refl 2 user_buffer 7 (omega arith) (omega arith) (omega arith) refl
      (omega arith) (omega arith) (omega arith) (omega arith) disk-IsClear
