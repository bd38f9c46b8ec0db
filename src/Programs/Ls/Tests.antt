-- ===== src/Programs/Ls/Tests.antt =====
-- The process 1 of Process/Tests lists the directory of FileSystem/Tests, with "." and "hi".
use pony_os.Base.{ℕ, zero, suc, ◌+◌, ◌*◌, ◌<◌, ◌≡◌, refl, arith, [], ◌∷◌, length, returns}
use pony_os.FileSystem.Lookup.{dir_name}
use pony_os.FileSystem.Tests.{task, fs, disk, user_buffer}
use pony_os.Memory.{load, translate}
use pony_os.Memory.Copy.{user-Distinct, user-kernel-Apart}
use pony_os.Process.{FileDesc, Kernel, dir_read_wrapper, dir_write_wrapper, initial_files, with_pcb}
use pony_os.Process.Tests.{kernel}
use pony_os.Screen.{puts_scroll}
use pony_os.Screen.Printing.{Alike}
use pony_os.Screen.Tests.{full-InRange}
use pony_os.Strings.{c_string}
use pony_os.SystemCall.{with_file}
use pony_os.Programs.Ls.{ls_loop}
use pony_os.Programs.Ls.Directory.{IsListable}
use pony_os.Programs.Ls.Loop.{ls_loop_lem}

abbrev dot_open : FileDesc
dot_open = record {
  read = dir_read_wrapper;
  write = dir_write_wrapper;
  inode = 0;
  file_position = 0;
  flags = 1;
}

abbrev listing_kernel : Kernel
listing_kernel = with_pcb kernel 1 (with_file (kernel.pcbs 1) 2 dot_open)

named : (j : ℕ) → j < 2 → 0 < length (dir_name task fs disk j)
unfolding c_string load disk
named zero p = omega arith
named (suc zero) p = omega arith
named (suc (suc j)) p = absurd (omega arith)

listing_kernel-IsListable : IsListable user_buffer listing_kernel 1 2
unfolding translate initial_files
listing_kernel-IsListable = record {
  current = refl;
  ready = record {
    stdin_open = ground arith;
    stdin_read = refl;
    stdout_open = ground arith;
    stdout_write = refl;
  };
  own = omega arith;
  numbered = omega arith;
  used = omega arith;
  directory = refl;
  range = full-InRange;
  low = omega arith;
  distinct = user-Distinct task user_buffer 33 (omega arith) (omega arith);
  named_entries = named;
  entries_apart = λ j i p q.
      user-kernel-Apart task user_buffer 33 (fs.dir_table + 64 * j + i) (omega arith) (omega arith)
        (omega arith) (omega arith);
  entries_off = λ j i p q. ground arith;
  buf_off = λ i q. ground arith;
}

ls_loop_lem_example :
    (k' : Kernel) × (ls_loop (λ s. 0) user_buffer 3 2 listing_kernel ≡ returns (0, k'))
    × Alike 0
        (puts_scroll (b'.' ∷ b'\n' ∷ b'h' ∷ b'i' ∷ b'\n' ∷ []) listing_kernel.screen)
        k'.screen
    × (k'.fs ≡ record fs { current_dir_read_index = 2 })
unfolding c_string load disk
ls_loop_lem_example =
    ls_loop_lem (λ s. 0) user_buffer listing_kernel 1 2 2 listing_kernel-IsListable (omega arith)
