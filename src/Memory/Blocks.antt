-- ===== src/Memory/Blocks.antt =====
-- The assembly loops of memset, memcpy and memmove of student-distrib/lib.c: single bytes up to a
-- multiple of four, whole words, and the bytes that are left.
use pony_os.Base.{
  ℕ, zero, suc, ◌+◌, ◌*◌, ◌/◌, ◌%◌, ◌^◌, ◌≤◌, ◌<◌, ◌≡◌, ◌≢◌, refl, ap, sym, ◌∙◌, arith, ◌==◌,
  if◌then◌else◌, Bool-cases, inl, inr,
}
use pony_os.Memory.{Memory, translate, load, load32, store, store32, memcpy}
use pony_os.Memory.Copy.{Apart, Separate, Distinct, load-store, load-lt}
use pony_os.Memory.Set.{memset, memset_lem}

module _ (task : ℕ) where
  -- `rep stosl`: the word in eax, `n` times.
  pub memset_dword : Memory → ℕ → ℕ → ℕ → Memory
  memset_dword m s c zero = m
  memset_dword m s c (suc n) = memset_dword (store32 task m s c) (s + 4) c n

  -- `rep stosw`: the low half of eax, `n` times.
  pub memset_word : Memory → ℕ → ℕ → ℕ → Memory
  memset_word m s c zero = m
  memset_word m s c (suc n) =
      memset_word (store task (store task m s (c % 256)) (s + 1) (c / 256 % 256)) (s + 2) c n

  -- `.memset_aligned`: words, then the bytes that are left, by the low byte of eax.
  pub memset_aligned : Memory → ℕ → ℕ → ℕ → Memory
  memset_aligned m s c n =
      memset task (memset_dword m s (c % 256 * 0x1010101) (n / 4)) (s + 4 * (n / 4)) c (n % 4)

  pub memset_top : Memory → ℕ → ℕ → ℕ → Memory
  memset_top m s c zero = m
  memset_top m s c (suc n) =
      let rest = memset_top (store task m s (c % 256)) (s + 1) c n in
      if s % 4 == 0 then memset_aligned m s c (suc n) else rest

  -- `rep movsl`.
  pub memcpy_words : Memory → ℕ → ℕ → ℕ → Memory
  memcpy_words m dest src zero = m
  memcpy_words m dest src (suc n) =
      memcpy_words (store32 task m dest (load32 task m src)) (dest + 4) (src + 4) n

  pub memcpy_aligned : Memory → ℕ → ℕ → ℕ → Memory
  memcpy_aligned m dest src n =
      memcpy task (memcpy_words m dest src (n / 4)) (dest + 4 * (n / 4)) (src + 4 * (n / 4)) (n % 4)

  pub memcpy_top : Memory → ℕ → ℕ → ℕ → Memory
  memcpy_top m dest src zero = m
  memcpy_top m dest src (suc n) =
      let rest = memcpy_top (store task m dest (load task m src)) (dest + 1) (src + 1) n in
      if dest % 4 == 0 then memcpy_aligned m dest src (suc n) else rest

  memset-add :
      (a b : ℕ) (m : Memory) (s c : ℕ)
      → memset task m s c (a + b) ≡ memset task (memset task m s c a) (s + a) c b
  unfolding memset
  memset-add zero b m s c = ground arith
  memset-add (suc a) b m s c =
      let size : suc a + b ≡ suc (a + b) = omega arith in
      let next : s + 1 + a ≡ s + suc a = omega arith in
      rw size (memset-add a b (store task m s (c % 256)) (s + 1) c ∙ rw next refl)

  store32-memset :
      (m : Memory) (s c : ℕ) → store32 task m s (c % 256 * 0x1010101) ≡ memset task m s c 4
  unfolding store32 memset
  store32-memset m s c =
      let c0 : c % 256 * 0x1010101 % 256 ≡ c % 256 = omega arith in
      let c1 : c % 256 * 0x1010101 / 256 % 256 ≡ c % 256 = omega arith in
      let c2 : c % 256 * 0x1010101 / 256 ^ 2 % 256 ≡ c % 256 = omega arith in
      let c3 : c % 256 * 0x1010101 / 256 ^ 3 % 256 ≡ c % 256 = omega arith in
      let a2 : s + 1 + 1 ≡ s + 2 = omega arith in
      let a3 : s + 2 + 1 ≡ s + 3 = omega arith in rw (c0, c1, c2, c3, a2, a3) refl

  store32-memcpy :
      (m : Memory) (dest src : ℕ)
      → Separate task dest 4 src
      → store32 task m dest (load32 task m src) ≡ memcpy task m dest src 4
  unfolding store32 memcpy load32
  store32-memcpy m dest src sep =
      let first : (j : ℕ) → j < 4 → translate task dest ≢ translate task (src + j) =
        λ j p. ground (arith, sep 0 j) in
      let m1 = store task m dest (load task m src) in
      let m2 = store task m1 (dest + 1) (load task m (src + 1)) in
      let m3 = store task m2 (dest + 2) (load task m (src + 2)) in
      let w = load32 task m src in
      let v0 : w % 256 ≡ load task m src = omega (arith, load-lt task m src) in
      let v1 : w / 256 % 256 ≡ load task m (src + 1) =
        omega (arith, load-lt task m src, load-lt task m (src + 1)) in
      let v2 : w / 256 ^ 2 % 256 ≡ load task m (src + 2) =
        omega (arith, load-lt task m src, load-lt task m (src + 1), load-lt task m (src + 2)) in
      let v3 : w / 256 ^ 3 % 256 ≡ load task m (src + 3) = omega (
        arith,
        load-lt task m src,
        load-lt task m (src + 1),
        load-lt task m (src + 2),
        load-lt task m (src + 3),
      ) in
      let l1 : load task m1 (src + 1) ≡ load task m (src + 1) =
        load-store task m dest (load task m src) (src + 1) (first 1 (omega arith)) in
      let l2 : load task m2 (src + 2) ≡ load task m (src + 2) =
        load-store task m1 (dest + 1) _ (src + 2) (sep 1 2 (omega arith) (omega arith))
        ∙ load-store task m dest _ (src + 2) (first 2 (omega arith)) in
      let l3 : load task m3 (src + 3) ≡ load task m (src + 3) =
        load-store task m2 (dest + 2) _ (src + 3) (sep 2 3 (omega arith) (omega arith))
        ∙ load-store task m1 (dest + 1) _ (src + 3) (sep 1 3 (omega arith) (omega arith))
        ∙ load-store task m dest _ (src + 3) (first 3 (omega arith)) in
      let a2 : dest + 1 + 1 ≡ dest + 2 = omega arith in
      let a3 : dest + 2 + 1 ≡ dest + 3 = omega arith in
      let b2 : src + 1 + 1 ≡ src + 2 = omega arith in
      let b3 : src + 2 + 1 ≡ src + 3 = omega arith in
      rw (v0, v1, v2, v3, l1, a2, b2, l2, a3, b3, l3) refl

  memset_dword-memset :
      (n : ℕ) (m : Memory) (s c : ℕ)
      → memset_dword m s (c % 256 * 0x1010101) n ≡ memset task m s c (4 * n)
  unfolding memset_dword memset
  memset_dword-memset zero m s c = ground arith
  memset_dword-memset (suc n) m s c =
      let size : 4 * suc n ≡ 4 + 4 * n = omega arith in
      rw (size, store32-memset m s c, memset_dword-memset n (memset task m s c 4) (s + 4) c)
        (sym (memset-add 4 (4 * n) m s c))

  memset_aligned-memset :
      (n : ℕ) (m : Memory) (s c : ℕ) → memset_aligned m s c n ≡ memset task m s c n
  unfolding memset_aligned
  memset_aligned-memset n m s c =
      let size : 4 * (n / 4) + n % 4 ≡ n = omega arith in
      rw (memset_dword-memset (n / 4) m s c)
        (sym (memset-add (4 * (n / 4)) (n % 4) m s c) ∙ ap (memset task m s c) size)

  -- The loop of memset with its words leaves the memory that byte after byte would.
  memset_top-memset : (n : ℕ) (m : Memory) (s c : ℕ) → memset_top m s c n ≡ memset task m s c n
  unfolding memset_top memset
  memset_top-memset zero m s c = refl
  memset_top-memset (suc n) m s c = elim (Bool-cases (s % 4 == 0)) [
    | inl aligned ↦ rw aligned (memset_aligned-memset (suc n) m s c)
    | inr odd ↦ rw odd (memset_top-memset n (store task m s (c % 256)) (s + 1) c)
  ]

  -- memset of a region without a repeated byte sets each of its bytes to the low byte of `c`, and
  -- changes no byte outside of it.
  pub memset_top_lem :
      (n : ℕ) (m : Memory) (s c : ℕ)
      → Distinct task s n
      → ((i : ℕ) → i < n → load task (memset_top m s c n) (s + i) ≡ c % 256)
        × ((b : ℕ) → Apart task s n b → load task (memset_top m s c n) b ≡ load task m b)
  memset_top_lem n m s c dis = rw (memset_top-memset n m s c) (memset_lem task n m s c dis)

  memcpy-add :
      (a b : ℕ) (m : Memory) (dest src : ℕ)
      → memcpy task m dest src (a + b)
        ≡ memcpy task (memcpy task m dest src a) (dest + a) (src + a) b
  unfolding memcpy
  memcpy-add zero b m dest src = ground arith
  memcpy-add (suc a) b m dest src =
      let size : suc a + b ≡ suc (a + b) = omega arith in
      let next : dest + 1 + a ≡ dest + suc a = omega arith in
      let from : src + 1 + a ≡ src + suc a = omega arith in
      rw size (
        memcpy-add a b (store task m dest (load task m src)) (dest + 1) (src + 1)
        ∙ rw (next, from) refl)

  Separate-shift :
      (k n l dest src : ℕ)
      → Separate task dest l src
      → k + n ≤ l
      → Separate task (dest + k) n (src + k)
  Separate-shift k n l dest src sep h i j p q = ground (arith, sep (k + i) (k + j))

  memcpy_words-memcpy :
      (n : ℕ) (m : Memory) (dest src : ℕ)
      → Separate task dest (4 * n) src
      → memcpy_words m dest src n ≡ memcpy task m dest src (4 * n)
  unfolding memcpy_words memcpy
  memcpy_words-memcpy zero m dest src sep = ground arith
  memcpy_words-memcpy (suc n) m dest src sep =
      let size : 4 * suc n ≡ 4 + 4 * n = omega arith in
      let first = store32-memcpy m dest src (λ i j p q. sep i j (omega arith) (omega arith)) in
      let rest =
        memcpy_words-memcpy n (memcpy task m dest src 4) (dest + 4) (src + 4)
          (Separate-shift 4 (4 * n) (4 * suc n) dest src sep (omega arith)) in
      rw (size, first, rest) (sym (memcpy-add 4 (4 * n) m dest src))

  memcpy_aligned-memcpy :
      (n : ℕ) (m : Memory) (dest src : ℕ)
      → Separate task dest n src
      → memcpy_aligned m dest src n ≡ memcpy task m dest src n
  unfolding memcpy_aligned
  memcpy_aligned-memcpy n m dest src sep =
      let size : 4 * (n / 4) + n % 4 ≡ n = omega arith in
      let words =
        memcpy_words-memcpy (n / 4) m dest src (λ i j p q. sep i j (omega arith) (omega arith)) in
      rw words
        (sym (memcpy-add (4 * (n / 4)) (n % 4) m dest src) ∙ ap (memcpy task m dest src) size)

  -- For regions that do not overlap, so does the loop of memcpy.
  pub memcpy_top-memcpy :
      (n : ℕ) (m : Memory) (dest src : ℕ)
      → Separate task dest n src
      → memcpy_top m dest src n ≡ memcpy task m dest src n
  unfolding memcpy_top memcpy
  memcpy_top-memcpy zero m dest src sep = refl
  memcpy_top-memcpy (suc n) m dest src sep = elim (Bool-cases (dest % 4 == 0)) [
    | inl aligned ↦ rw aligned (memcpy_aligned-memcpy (suc n) m dest src sep)
    | inr odd ↦ rw odd (
        memcpy_top-memcpy n (store task m dest (load task m src)) (dest + 1) (src + 1)
          (Separate-shift 1 n (suc n) dest src sep (omega arith)))
  ]

  -- A word whose two bytes are the same is set as these bytes are.
  memset_word-memset :
      (n : ℕ) (m : Memory) (s c : ℕ)
      → memset_word m s (c % 256 * 0x101) n ≡ memset task m s c (2 * n)
  unfolding memset_word memset
  memset_word-memset zero m s c = ground arith
  memset_word-memset (suc n) m s c =
      let size : 2 * suc n ≡ suc (suc (2 * n)) = omega arith in
      let low : c % 256 * 0x101 % 256 ≡ c % 256 = omega arith in
      let high : c % 256 * 0x101 / 256 % 256 ≡ c % 256 = omega arith in
      let m2 = store task (store task m s (c % 256)) (s + 1) (c % 256) in
      let next : s + 2 ≡ s + 1 + 1 = omega arith in
      rw (size, low, high)
        (memset_word-memset n m2 (s + 2) c ∙ ap (λ (a : ℕ). memset task m2 a c (2 * n)) next)
