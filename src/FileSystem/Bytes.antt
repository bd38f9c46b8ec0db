-- ===== src/FileSystem/Bytes.antt =====
-- Stretches of memory read and written as lists of bytes.
use pony_os.Base.{
  ℕ, zero, suc, ◌+◌, ◌%◌, ◌<◌, ◌≡◌, ◌∙◌, refl, ap, List, [], ◌∷◌, arith, length, get_or,
}
use pony_os.Memory.{Memory, load, store}
use pony_os.Memory.Copy.{Apart, Distinct, load-store, load-store_self}
use pony_os.FileSystem.{bytes_at, store_bytes}

module _ (task : ℕ) where
  pub store_bytes_out :
      (xs : List ℕ) (m : Memory) (a b : ℕ)
      → Apart task a (length xs) b
      → load task (store_bytes task m a xs) b ≡ load task m b
  unfolding store_bytes
  store_bytes_out [] m a b h = refl
  store_bytes_out (x ∷ xs) m a b h =
      store_bytes_out xs (store task m a x) (a + 1) b (λ i p. ground (arith, h (suc i)))
      ∙ load-store task m a x b (ground (arith, h 0))

  pub store_bytes_in :
      (xs : List ℕ) (m : Memory) (a i : ℕ)
      → Distinct task a (length xs)
      → i < length xs
      → load task (store_bytes task m a xs) (a + i) ≡ get_or xs i 0 % 256
  unfolding store_bytes
  store_bytes_in [] m a i d p = elim p [ ]
  store_bytes_in (x ∷ xs) m a zero d p = ground (
    arith,
    store_bytes_out xs (store task m a x) (a + 1) (a + 0) (λ i q. ground (arith, d 0 (suc i))),
    load-store_self task m a x,
  )
  store_bytes_in (x ∷ xs) m a (suc i) d p = ground (
    arith,
    store_bytes_in xs (store task m a x) (a + 1) i (λ i j p q. ground (arith, d (suc i) (suc j)))
        (omega arith),
  )

  pub length-bytes_at : (m : Memory) (a n : ℕ) → length (bytes_at task m a n) ≡ n
  unfolding bytes_at
  length-bytes_at m a zero = refl
  length-bytes_at m a (suc n) = ap suc (length-bytes_at m (a + 1) n)

  pub get_or-bytes_at :
      (m : Memory) (n a i : ℕ) → i < n → get_or (bytes_at task m a n) i 0 ≡ load task m (a + i)
  unfolding bytes_at
  get_or-bytes_at m zero a i h = elim h [ ]
  get_or-bytes_at m (suc n) a zero h = ground arith
  get_or-bytes_at m (suc n) a (suc i) h = ground (arith, get_or-bytes_at m n (a + 1) i)
