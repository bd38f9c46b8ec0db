-- ===== src/Memory/Tests.antt =====
-- Blocks of the kernel's page: seven bytes are set, eleven are copied to another place, and ten are
-- moved by three.
use pony_os.Base.{ℕ, ◌+◌, ◌<◌, ◌≡◌, arith}
use pony_os.Base.{◌%◌}
use pony_os.Memory.{Memory, load, translate, memcpy}
use pony_os.Memory.Copy.{Apart, Separate, kernel-Distinct}
use pony_os.Memory.Blocks.{memset_top, memset_top_lem, memcpy_top, memcpy_top-memcpy}
use pony_os.Memory.Move.{memmove, memmove_lem}

abbrev zeros : Memory
zeros a = 0

memset_top_lem_example :
    ((i : ℕ) → i < 7 → load 3072 (memset_top 3072 zeros 0x400001 0x141 7) (0x400001 + i) ≡ 0x41)
    × ((b : ℕ)
        → Apart 3072 0x400001 7 b
        → load 3072 (memset_top 3072 zeros 0x400001 0x141 7) b ≡ load 3072 zeros b)
memset_top_lem_example =
    memset_top_lem 3072 7 zeros 0x400001 0x141 (kernel-Distinct 3072 0x400001 7 (omega arith))

numbers-Separate : Separate 3072 0x400001 11 0x500002
unfolding translate
numbers-Separate i j p q = ground arith

abbrev numbers : Memory
numbers a = a % 256

memcpy_top-memcpy_example :
    memcpy_top 3072 numbers 0x400001 0x500002 11 ≡ memcpy 3072 numbers 0x400001 0x500002 11
memcpy_top-memcpy_example = memcpy_top-memcpy 3072 11 numbers 0x400001 0x500002 numbers-Separate

memmove_lem_example :
    ((i : ℕ)
      → i < 10
      → load 3072 (memmove 3072 numbers (0x400000 + 3) (0x400000 + 0) 10) (0x400000 + 3 + i)
        ≡ load 3072 numbers (0x400000 + 0 + i))
    × ((b : ℕ)
        → Apart 3072 (0x400000 + 3) 10 b
        → load 3072 (memmove 3072 numbers (0x400000 + 3) (0x400000 + 0) 10) b ≡ load 3072 numbers b)
memmove_lem_example =
    memmove_lem 3072 0x400000 13 3 0 10 numbers (kernel-Distinct 3072 0x400000 13 (omega arith))
      (omega arith) (omega arith) (omega arith)
