-- ===== src/Strings/Copies.antt =====
-- strcpy and strncpy of student-distrib/lib.c.
use pony_os.Base.{
  List, ap, ℕ, zero, suc, ◌+◌, ◌^◌, ◌<◌, ◌≡◌, ◌≢◌, refl, ◌∙◌, arith, Option, none, some, get_or,
  ◌==◌, if◌then◌else◌, Bool-cases, inl, inr,
}
use pony_os.Memory.{Memory, load, store}
use pony_os.Memory.Copy.{Apart, Separate, Distinct, load-store, load-store_self, load-lt}
use pony_os.Strings.{c_string}
use pony_os.Strings.Names.{c_string-cong}

module _ (task : ℕ) where
  -- `while (src[i] != '\0')`, with the NUL behind it; `none` when the fuel is out.
  unfoldable pub strcpy_loop : ℕ → Memory → ℕ → ℕ → Option Memory
  strcpy_loop zero m dest src = none
  strcpy_loop (suc fuel) m dest src =
      let c = load task m src in
      let rest = strcpy_loop fuel (store task m dest c) (dest + 1) (src + 1) in
      if c == 0 then some (store task m dest 0) else rest

  unfoldable pub strcpy : Memory → ℕ → ℕ → Option Memory
  strcpy m dest src = strcpy_loop (2 ^ 32) m dest src

  -- `while (i < n)`, with `n - i` rounds left.
  pub fill_zeros : ℕ → Memory → ℕ → Memory
  fill_zeros zero m dest = m
  fill_zeros (suc n) m dest = fill_zeros n (store task m dest 0) (dest + 1)

  pub strncpy : Memory → ℕ → ℕ → ℕ → Memory
  strncpy m dest src zero = m
  strncpy m dest src (suc n) =
      let c = load task m src in
      let rest = strncpy (store task m dest c) (dest + 1) (src + 1) n in
      if c == 0 then fill_zeros (suc n) m dest else rest

  fill_zeros_out :
      (n : ℕ) (m : Memory) (dest b : ℕ)
      → Apart task dest n b
      → load task (fill_zeros n m dest) b ≡ load task m b
  unfolding fill_zeros
  fill_zeros_out zero m dest b h = refl
  fill_zeros_out (suc n) m dest b h =
      fill_zeros_out n (store task m dest 0) (dest + 1) b (λ i p. ground (arith, h (suc i)))
      ∙ load-store task m dest 0 b (ground (arith, h 0))

  fill_zeros_in :
      (n : ℕ) (m : Memory) (dest i : ℕ)
      → Distinct task dest n
      → i < n
      → load task (fill_zeros n m dest) (dest + i) ≡ 0
  unfolding fill_zeros
  fill_zeros_in zero m dest i dis p = absurd (omega arith)
  fill_zeros_in (suc n) m dest zero dis p = ground (
    arith,
    fill_zeros_out n (store task m dest 0) (dest + 1) (dest + 0)
        (λ i p. ground (arith, dis 0 (suc i))),
    load-store_self task m dest 0,
  )
  fill_zeros_in (suc n) m dest (suc i) dis p = ground (
    arith,
    fill_zeros_in n (store task m dest 0) (dest + 1) i
        (λ i j p q. ground (arith, dis (suc i) (suc j))) (omega arith),
  )

  strncpy_out :
      (n : ℕ) (m : Memory) (dest src b : ℕ)
      → Apart task dest n b
      → load task (strncpy m dest src n) b ≡ load task m b
  unfolding strncpy
  strncpy_out zero m dest src b h = refl
  strncpy_out (suc n) m dest src b h = ground (
    arith,
    fill_zeros_out (suc n) m dest b h,
    strncpy_out n (store task m dest (load task m src)) (dest + 1) (src + 1) b
        (λ i p. ground (arith, h (suc i))),
    load-store task m dest (load task m src) b (ground (arith, h 0)),
  )

  -- The source is not changed by a byte that is stored outside of it.
  kept :
      (n : ℕ) (m : Memory) (dest src c : ℕ)
      → Separate task dest (suc n) src
      → c_string task n (store task m dest c) (src + 1) ≡ c_string task n m (src + 1)
  kept n m dest src c sep =
      c_string-cong task (store task m dest c) m n (src + 1) (src + 1)
        (λ i p. load-store task m dest c (src + 1 + i) (ground (arith, sep 0 (suc i))))

  strncpy_in :
      (n : ℕ) (m : Memory) (dest src i : ℕ)
      → Separate task dest n src
      → Distinct task dest n
      → i < n
      → load task (strncpy m dest src n) (dest + i) ≡ get_or (c_string task n m src) i 0
  unfolding strncpy c_string
  strncpy_in zero m dest src i sep dis p = absurd (omega arith)
  strncpy_in (suc n) m dest src zero sep dis p = elim (Bool-cases (load task m src == 0)) [
    | inl end ↦ rw end (fill_zeros_in (suc n) m dest 0 dis p)
    | inr char ↦ rw char (
        ground (
          arith,
          strncpy_out n (store task m dest (load task m src)) (dest + 1) (src + 1) (dest + 0)
              (λ i p. ground (arith, dis 0 (suc i))),
          load-store_self task m dest (load task m src),
          load-lt task m src,
        ))
  ]
  strncpy_in (suc n) m dest src (suc i) sep dis p = elim (Bool-cases (load task m src == 0)) [
    | inl end ↦ rw end (fill_zeros_in (suc n) m dest (suc i) dis p)
    | inr char ↦
        let m1 = store task m dest (load task m src) in
        let next : dest + suc i ≡ dest + 1 + i = omega arith in
        rw (char, next)
          (strncpy_in n m1 (dest + 1) (src + 1) i (λ i j p q. ground (arith, sep (suc i) (suc j)))
              (λ i j p q. ground (arith, dis (suc i) (suc j))) (omega arith)
            ∙ ap (λ (xs : List ℕ). get_or xs i 0) (kept n m dest src (load task m src) sep))
  ]

  -- For a destination that does not overlap the source, strncpy leaves the source's string there,
  -- cut after n characters and filled up with zeros, and changes no other byte.
  pub strncpy_lem :
      (n : ℕ) (m : Memory) (dest src : ℕ)
      → Separate task dest n src
      → Distinct task dest n
      → ((i : ℕ)
          → i < n
          → load task (strncpy m dest src n) (dest + i) ≡ get_or (c_string task n m src) i 0)
        × ((b : ℕ) → Apart task dest n b → load task (strncpy m dest src n) b ≡ load task m b)
  strncpy_lem n m dest src sep dis =
      (λ i p. strncpy_in n m dest src i sep dis p, λ b h. strncpy_out n m dest src b h)

  -- The NUL that strcpy stops at is the one that strncpy would fill in.
  strcpy_loop-strncpy :
      (fuel l : ℕ) (m : Memory) (dest src : ℕ)
      → l < fuel
      → Separate task dest (l + 1) src
      → load task m (src + l) ≡ 0
      → ((i : ℕ) → i < l → load task m (src + i) ≢ 0)
      → strcpy_loop fuel m dest src ≡ some (strncpy m dest src (suc l))
  unfolding strcpy_loop strncpy fill_zeros
  strcpy_loop-strncpy zero l m dest src p sep end chars = absurd (omega arith)
  strcpy_loop-strncpy (suc fuel) zero m dest src p sep end chars = ground arith
  strcpy_loop-strncpy (suc fuel) (suc l) m dest src p sep end chars =
      let m1 = store task m dest (load task m src) in
      let same = λ (i : ℕ) (q : i < suc l).
        load-store task m dest (load task m src) (src + 1 + i) (ground (arith, sep 0 (suc i))) in
      ground (
        arith,
        chars 0,
        strcpy_loop-strncpy fuel l m1 (dest + 1) (src + 1) (omega arith)
            (λ i j p q. ground (arith, sep (suc i) (suc j))) (ground (arith, same l))
            (λ i q. ground (arith, same i, chars (suc i))),
      )

  get_or-c_string :
      (n : ℕ) (m : Memory) (a i : ℕ)
      → i < n
      → ((j : ℕ) → j < i → load task m (a + j) ≢ 0)
      → get_or (c_string task n m a) i 0 ≡ load task m (a + i)
  unfolding c_string
  get_or-c_string zero m a i p h = absurd (omega arith)
  get_or-c_string (suc n) m a zero p h = ground arith
  get_or-c_string (suc n) m a (suc i) p h =
      ground
        (arith, h 0, get_or-c_string n m (a + 1) i (omega arith) (λ j q. ground (arith, h (suc j))))

  -- For a string of l characters, and a destination that does not overlap it, strcpy returns; the
  -- string then stands at the destination, and nothing but these l + 1 bytes has changed.
  pub strcpy_lem :
      (l : ℕ) (m : Memory) (dest src : ℕ)
      → l < 2 ^ 32
      → load task m (src + l) ≡ 0
      → ((i : ℕ) → i < l → load task m (src + i) ≢ 0)
      → Separate task dest (l + 1) src
      → Distinct task dest (l + 1)
      → (m' : Memory) × (strcpy m dest src ≡ some m')
        × (c_string task (l + 1) m' dest ≡ c_string task (l + 1) m src)
        × ((b : ℕ) → Apart task dest (l + 1) b → load task m' b ≡ load task m b)
  unfolding strcpy
  strcpy_lem l m dest src small end chars sep dis =
      let (inside, outside) = strncpy_lem (l + 1) m dest src sep dis in
      let same = λ (i : ℕ) (p : i < l + 1).
        inside i p ∙ get_or-c_string (l + 1) m src i p (λ j q. chars j (omega arith)) in
      (
        strncpy m dest src (l + 1),
        strcpy_loop-strncpy (2 ^ 32) l m dest src small sep end chars
            ∙ ap (λ (n : ℕ). some (strncpy m dest src n)) (omega arith),
        c_string-cong task (strncpy m dest src (l + 1)) m (l + 1) dest src same,
        outside,
      )
