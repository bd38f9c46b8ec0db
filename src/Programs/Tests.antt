-- ===== src/Programs/Tests.antt =====
-- The process 1 of SystemCall/Tests runs the loop of cat on "hi", of which three bytes are left.
use pony_os.Base.{◌<◌, ◌≡◌, refl, arith, [], ◌∷◌, returns}
use pony_os.FileSystem.Tests.{disk, user_buffer, user_buffer-IsClear, five_bytes, block_zero}
use pony_os.FileSystem.Data.{file_address, file_byte}
use pony_os.Memory.{load32, translate}
use pony_os.Process.{initial_files, Kernel}
use pony_os.Screen.{puts_scroll}
use pony_os.Screen.Printing.{Alike}
use pony_os.Screen.Tests.{full-InRange}
use pony_os.SystemCall.Tests.{reading, hi_open}
use pony_os.Programs.Cat.{cat_loop}
use pony_os.Programs.Cat.Loop.{cat_loop_lem}
use pony_os.Programs.Cat.Reading.{IsPrintable}

reading-IsPrintable : IsPrintable user_buffer reading 1 2
unfolding translate initial_files
reading-IsPrintable = record {
  current = refl;
  ready = record {
    stdin_open = ground arith;
    stdin_read = refl;
    stdout_open = ground arith;
    stdout_write = refl;
  };
  numbered = omega arith;
  own = omega arith;
  used = omega arith;
  regular = refl;
  valid = omega arith;
  small = rw five_bytes (omega arith);
  within = rw five_bytes (omega arith);
  clear = user_buffer-IsClear 1024 (omega arith);
  range = full-InRange;
  low = omega arith;
  inode_apart = λ i q. ground arith;
  file_apart = λ j q. let q' : j < 5 = rw five_bytes at q in rw (block_zero j q') (ground arith);
  buf_apart = λ i q. ground arith;
}

cat_loop_lem_example :
    (k' : Kernel) × (cat_loop (λ s. 0) user_buffer 2 2 reading ≡ returns (0, k'))
    × Alike 0 (puts_scroll (b'l' ∷ b'l' ∷ b'o' ∷ []) reading.screen) k'.screen
    × ((k'.pcbs 1).file_array 2 ≡ record hi_open { file_position = 5 })
unfolding disk load32 file_address file_byte
cat_loop_lem_example =
    cat_loop_lem (λ s. 0) user_buffer reading 1 2 1 reading-IsPrintable (omega arith)
