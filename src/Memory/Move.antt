-- ===== src/Memory/Move.antt =====
-- memmove of student-distrib/lib.c, for regions that may overlap.
use pony_os.Base.{
  ℕ, zero, suc, ◌+◌, ◌%◌, ◌^◌, ◌≤◌, ◌<◌, ◌≡◌, ◌≢◌, refl, true, false, ◌∙◌, arith, leb,
  if◌then◌else◌,
}
use native.Mathlib.Decide.{dec_lt, ℕ_discrete}
use pony_os.Memory.{Memory, translate, load, store, memcpy}
use pony_os.Memory.Copy.{Apart, Distinct, load-store, load-store_self, load-lt, load-memcpy_out}

module _ (task : ℕ) where
  -- `rep movsb` with the direction flag set: from the high end.
  pub memmove_down : Memory → ℕ → ℕ → ℕ → Memory
  memmove_down m dest src zero = m
  memmove_down m dest src (suc n) =
      memmove_down (store task m (dest + n) (load task m (src + n))) dest src n

  -- `cmp %edi, %esi; jae .memmove_go`.
  pub memmove : Memory → ℕ → ℕ → ℕ → Memory
  memmove m dest src n =
      if leb (dest % 2 ^ 32) (src % 2 ^ 32)
      then memcpy task m dest src n
      else memmove_down m dest src n

  down_out :
      (n : ℕ) (m : Memory) (dest src b : ℕ)
      → Apart task dest n b
      → load task (memmove_down m dest src n) b ≡ load task m b
  unfolding memmove_down
  down_out zero m dest src b h = refl
  down_out (suc n) m dest src b h =
      down_out n (store task m (dest + n) (load task m (src + n))) dest src b
        (λ i p. h i (omega arith))
      ∙ load-store task m (dest + n) _ b (h n (omega arith))

  -- No byte that is written is read later, from the low end up.
  abbrev Upward : ℕ → ℕ → ℕ → Type 0
  Upward dest n src =
      (i j : ℕ) → i < j → j < n → translate task (dest + i) ≢ translate task (src + j)

  abbrev Downward : ℕ → ℕ → ℕ → Type 0
  Downward dest n src =
      (i j : ℕ) → j < i → i < n → translate task (dest + i) ≢ translate task (src + j)

  copied :
      (m : Memory) (dest src : ℕ)
      → load task (store task m dest (load task m src)) dest ≡ load task m src
  copied m dest src =
      ground (arith, load-store_self task m dest (load task m src), load-lt task m src)

  up_in :
      (n : ℕ) (m : Memory) (dest src i : ℕ)
      → Distinct task dest n
      → Upward dest n src
      → i < n
      → load task (memcpy task m dest src n) (dest + i) ≡ load task m (src + i)
  unfolding memcpy
  up_in zero m dest src i dis up p = absurd (omega arith)
  up_in (suc n) m dest src zero dis up p = ground (
    arith,
    load-memcpy_out task n (store task m dest (load task m src)) (dest + 1) (src + 1) (dest + 0)
        (λ i p. ground (arith, dis 0 (suc i))),
    copied m dest src,
  )
  up_in (suc n) m dest src (suc i) dis up p = ground (
    arith,
    up_in n (store task m dest (load task m src)) (dest + 1) (src + 1) i
        (λ i j p q. ground (arith, dis (suc i) (suc j)))
        (λ i j p q. ground (arith, up (suc i) (suc j))) (omega arith),
    load-store task m dest (load task m src) (src + suc i) (ground (arith, up 0 (suc i))),
  )

  down_in :
      (n : ℕ) (m : Memory) (dest src i : ℕ)
      → Distinct task dest n
      → Downward dest n src
      → i < n
      → load task (memmove_down m dest src n) (dest + i) ≡ load task m (src + i)
  unfolding memmove_down
  down_in zero m dest src i dis down p = absurd (omega arith)
  down_in (suc n) m dest src i dis down p = elim (ℕ_discrete i n) [
    | yes last ↦ rw last (
        down_out n _ dest src (dest + n) (λ j q. dis j n q (omega arith))
        ∙ copied m (dest + n) (src + n))
    | no lower ↦
        down_in n (store task m (dest + n) (load task m (src + n))) dest src i
          (λ j k q r. dis j k q (omega arith)) (λ j k q r. down j k q (omega arith)) (omega arith)
        ∙ load-store task m (dest + n) _ (src + i) (down n i (omega arith) (omega arith))
  ]

  -- Two regions of `n` bytes inside one region without a repeated byte, at whatever offsets: after
  -- memmove the first one holds what the second one held, and no byte outside of it has changed.
  pub memmove_lem :
      (base size d s n : ℕ) (m : Memory)
      → Distinct task base size
      → base + size < 2 ^ 32
      → d + n ≤ size
      → s + n ≤ size
      → ((i : ℕ)
          → i < n
          → load task (memmove m (base + d) (base + s) n) (base + d + i)
            ≡ load task m (base + s + i))
        × ((b : ℕ)
            → Apart task (base + d) n b
            → load task (memmove m (base + d) (base + s) n) b ≡ load task m b)
  unfolding memmove
  memmove_lem base size d s n m distinct whole fits fits' =
      let within : Distinct task (base + d) n =
        λ i j p q. ground (arith, distinct (d + i) (d + j)) in
      elim (dec_lt s d) [
        | no up ↦
            let way : leb ((base + d) % 2 ^ 32) ((base + s) % 2 ^ 32) ≡ true = ground arith in
            rw way (
              λ i p.
                  up_in n m (base + d) (base + s) i within
                    (λ i j p q. ground (arith, distinct (d + i) (s + j))) p,
              λ b h. load-memcpy_out task n m (base + d) (base + s) b h,
            )
        | yes down ↦
            let way : leb ((base + d) % 2 ^ 32) ((base + s) % 2 ^ 32) ≡ false = ground arith in
            rw way (
              λ i p.
                  down_in n m (base + d) (base + s) i within
                    (λ i j p q e. ground (arith, distinct (s + j) (d + i))) p,
              λ b h. down_out n m (base + d) (base + s) b h,
            )
      ]
