-- ===== src/Memory/Copy.antt =====
-- What a block copy leaves in memory, for regions that do not overlap.
use pony_os.Base.{ℕ, zero, suc, ◌+◌, ◌%◌, ◌≤◌, ◌<◌, ◌≡◌, ◌≢◌, ◌∙◌, arith}
use pony_os.Memory.{Memory, user_page_start, user_page_end, translate, load, load32, store, memcpy}

module _ (task : ℕ) where
  -- The region of `n` bytes at `d` does not hold the byte `b`.
  abbrev pub Apart : ℕ → ℕ → ℕ → Type 0
  Apart d n b = (i : ℕ) → i < n → translate task (d + i) ≢ translate task b

  -- No byte of the region at `d` is one of the region at `s`.
  abbrev pub Separate : ℕ → ℕ → ℕ → Type 0
  Separate d n s = (i j : ℕ) → i < n → j < n → translate task (d + i) ≢ translate task (s + j)

  -- Different offsets into the region are different bytes.
  abbrev pub Distinct : ℕ → ℕ → Type 0
  Distinct d n = (i j : ℕ) → i < j → j < n → translate task (d + i) ≢ translate task (d + j)

  pub load-store :
      (m : Memory) (a v b : ℕ)
      → translate task a ≢ translate task b
      → load task (store task m a v) b ≡ load task m b
  unfolding load store
  load-store m a v b h = ground arith

  pub load-store_self : (m : Memory) (a v : ℕ) → load task (store task m a v) a ≡ v % 256
  unfolding load store
  load-store_self m a v = ground arith

  pub load-lt : (m : Memory) (a : ℕ) → load task m a < 256
  unfolding load
  load-lt m a = omega arith

  -- A word is the same where its four bytes are.
  pub load32-cong :
      (m m' : Memory) (a : ℕ)
      → ((i : ℕ) → i < 4 → load task m (a + i) ≡ load task m' (a + i))
      → load32 task m a ≡ load32 task m' a
  unfolding load32
  load32-cong m m' a h = ground (arith, h 0, h 1, h 2, h 3)

  pub load-memcpy_out :
      (n : ℕ) (m : Memory) (d s b : ℕ)
      → Apart d n b
      → load task (memcpy task m d s n) b ≡ load task m b
  unfolding memcpy
  load-memcpy_out zero m d s b h = ground arith
  load-memcpy_out (suc n) m d s b h =
      load-memcpy_out n (store task m d (load task m s)) (d + 1) (s + 1) b
        (λ i p. ground (arith, h (suc i)))
      ∙ load-store m d (load task m s) b (ground (arith, h 0))

  pub load-memcpy_in :
      (n : ℕ) (m : Memory) (d s i : ℕ)
      → Separate d n s
      → Distinct d n
      → i < n
      → load task (memcpy task m d s n) (d + i) ≡ load task m (s + i)
  unfolding memcpy
  load-memcpy_in zero m d s i sep dis p = elim p [ ]
  load-memcpy_in (suc n) m d s zero sep dis p = ground (
    arith,
    load-memcpy_out n (store task m d (load task m s)) (d + 1) (s + 1) (d + 0)
        (λ i p. ground (arith, dis 0 (suc i))),
    load-store_self m d (load task m s),
    load-lt m s,
  )
  load-memcpy_in (suc n) m d s (suc i) sep dis p = ground (
    arith,
    load-memcpy_in n (store task m d (load task m s)) (d + 1) (s + 1) i
        (λ i j p q. ground (arith, sep (suc i) (suc j)))
        (λ i j p q. ground (arith, dis (suc i) (suc j))) (omega arith),
    load-store m d (load task m s) (s + suc i) (ground (arith, sep 0 (suc i))),
  )

  -- A region wholly below the user page, or wholly inside it, has no byte twice.
  pub kernel-Distinct : (d n : ℕ) → d + n ≤ user_page_start → Distinct d n
  unfolding translate
  kernel-Distinct d n h i j p q = ground arith

  pub user-Distinct : (d n : ℕ) → user_page_start ≤ d → d + n ≤ user_page_end → Distinct d n
  unfolding translate
  user-Distinct d n h k i j p q = ground arith

  -- The task's page lies above 8 MB, and what the kernel reads for it lies below.
  pub user-kernel-Apart :
      (d n b : ℕ)
      → user_page_start ≤ d
      → d + n ≤ user_page_end
      → 2048 ≤ task
      → b < 0x800000
      → Apart d n b
  unfolding translate
  user-kernel-Apart d n b h k t l i p = ground arith
