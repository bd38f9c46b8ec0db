-- ===== src/Memory/Set.antt =====
-- memset of student-distrib/lib.c: the bytes are stored in order from the low end, those of a stored
-- word too.
use pony_os.Base.{ℕ, zero, suc, ◌+◌, ◌%◌, ◌<◌, ◌≡◌, ◌∙◌, arith}
use pony_os.Memory.{Memory, load, store}
use pony_os.Memory.Copy.{Apart, Distinct, load-store, load-store_self}

module _ (task : ℕ) where
  unfoldable pub memset : Memory → ℕ → ℕ → ℕ → Memory
  memset m s c zero = m
  memset m s c (suc n) = memset (store task m s (c % 256)) (s + 1) c n

  load-memset_out :
      (n : ℕ) (m : Memory) (s c b : ℕ)
      → Apart task s n b
      → load task (memset m s c n) b ≡ load task m b
  unfolding memset
  load-memset_out zero m s c b h = ground arith
  load-memset_out (suc n) m s c b h =
      load-memset_out n (store task m s (c % 256)) (s + 1) c b (λ i p. ground (arith, h (suc i)))
      ∙ load-store task m s (c % 256) b (ground (arith, h 0))

  load-memset_in :
      (n : ℕ) (m : Memory) (s c i : ℕ)
      → Distinct task s n
      → i < n
      → load task (memset m s c n) (s + i) ≡ c % 256
  unfolding memset
  load-memset_in zero m s c i dis p = elim p [ ]
  load-memset_in (suc n) m s c zero dis p = ground (
    arith,
    load-memset_out n (store task m s (c % 256)) (s + 1) c (s + 0)
        (λ i p. ground (arith, dis 0 (suc i))),
    load-store_self task m s (c % 256),
  )
  load-memset_in (suc n) m s c (suc i) dis p = ground (
    arith,
    load-memset_in n (store task m s (c % 256)) (s + 1) c i
        (λ i j p q. ground (arith, dis (suc i) (suc j))) (omega arith),
  )

  -- memset of a region without a repeated byte sets each of its bytes to the low byte of `c`, and
  -- changes no byte outside of it.
  pub memset_lem :
      (n : ℕ) (m : Memory) (s c : ℕ)
      → Distinct task s n
      → ((i : ℕ) → i < n → load task (memset m s c n) (s + i) ≡ c % 256)
        × ((b : ℕ) → Apart task s n b → load task (memset m s c n) b ≡ load task m b)
  memset_lem n m s c dis =
      (λ i p. load-memset_in n m s c i dis p, λ b h. load-memset_out n m s c b h)
