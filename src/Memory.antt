-- ===== src/Memory.antt =====
-- Memory as the kernel and the current process see it: lib.c's memcpy and memset over byte
-- addresses, translated as paging.c maps the one 4 MB page of the current task.
pub mod Copy
pub mod Set
pub mod Blocks
pub mod Move
mod Tests
use pony_os.Base.{◌/◌, ℕ, zero, suc, ◌+◌, ◌-◌, ◌*◌, ◌%◌, ◌^◌, ◌&&◌, ltb, leb, ◌==◌, if◌then◌else◌}

-- What each physical address holds. A load reads it as a byte.
abbrev pub Memory : Type 0
Memory = ℕ → ℕ

abbrev pub user_page_start : ℕ
user_page_start = 0x8000000

abbrev pub user_page_end : ℕ
user_page_end = 0x8400000

-- The physical address of a virtual one. `task` is the `aligned_address` of the task's page
-- directory entry, in 4 KB units; what the kernel uses beside that page is mapped to itself.
unfoldable pub translate : ℕ → ℕ → ℕ
translate task a =
    if leb user_page_start (a % 2 ^ 32) && ltb (a % 2 ^ 32) user_page_end
    then task * 0x1000 + (a % 2 ^ 32 - user_page_start)
    else a % 2 ^ 32

module _ (task : ℕ) where
  unfoldable pub load : Memory → ℕ → ℕ
  unfolding translate
  load m a = m (translate task a) % 256

  pub store : Memory → ℕ → ℕ → Memory
  unfolding translate
  store m a v p = if p == translate task a then v else m p

  -- A 32-bit word, little end first.
  unfoldable pub load32 : Memory → ℕ → ℕ
  unfolding load
  load32 m a = load m a + 256 * load m (a + 1) + 256 ^ 2 * load m (a + 2) + 256 ^ 3 * load m (a + 3)

  -- memcpy(dest, src, n), byte by byte from the low end.
  pub memcpy : Memory → ℕ → ℕ → ℕ → Memory
  unfolding load store
  memcpy m dest src zero = m
  memcpy m dest src (suc n) = memcpy (store m dest (load m src)) (dest + 1) (src + 1) n

  pub store32 : Memory → ℕ → ℕ → Memory
  unfolding store
  store32 m a v =
      store
        (store (store (store m a (v % 256)) (a + 1) (v / 256 % 256)) (a + 2) (v / 256 ^ 2 % 256))
        (a + 3) (v / 256 ^ 3 % 256)
