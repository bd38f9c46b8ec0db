-- ===== src/UserLibrary/Compare.antt =====
-- The string functions of syscalls/ece391support.c against the strings that memory holds, and against
-- those of student-distrib/lib.c.
use pony_os.Base.{
  ℕ, zero, suc, ◌+◌, ◌^◌, ◌<◌, ◌≡◌, refl, arith, some, List, [], ◌∷◌, length, get_or, ◌==◌,
  if◌then◌else◌, ℤ, pos, sub_ℕ, is_zero, true, false,
}
use native.Mathlib.Decide.{ℕ_discrete}
use pony_os.Memory.{Memory, load, store}
use pony_os.Memory.Copy.{load-lt}
use pony_os.Strings.{strncmp, c_string, same}
use pony_os.Strings.Names.{strncmp-c_string}
use pony_os.Strings.Copies.{strcpy_loop, strcpy}
use pony_os.Terminal.Read.{AreChars}
use pony_os.UserLibrary.{
  user_strcpy_loop, user_strcpy, strcmp_loop, strcmp, strncmp_loop, user_strncmp,
}

-- The difference of the first characters that differ; the end of a text counts as 0.
abbrev pub compare_text : List ℕ → List ℕ → ℤ
compare_text [] [] = pos 0
compare_text [] (y ∷ ys) = sub_ℕ 0 y
compare_text (x ∷ xs) [] = sub_ℕ x 0
compare_text (x ∷ xs) (y ∷ ys) = if x == y then compare_text xs ys else sub_ℕ x y

module _ (task : ℕ) (m : Memory) where
  -- A string at `a`, with its NUL.
  pub record IsString (a : ℕ) (xs : List ℕ) : Type 0 where
    pub chars : AreChars xs
    pub held : (i : ℕ) → i < length xs → load task m (a + i) ≡ get_or xs i 0
    pub end : load task m (a + length xs) ≡ 0

  pub IsString-tail : (a x : ℕ) (xs : List ℕ) → IsString a (x ∷ xs) → IsString (a + 1) xs
  IsString-tail a x xs s = record {
    chars = λ i p. s.chars (suc i) (omega arith);
    held = λ i p. ground (arith, s.held (suc i));
    end = ground (arith, s.end);
  }

  pub head_char : (a x : ℕ) (xs : List ℕ) → IsString a (x ∷ xs) → (load task m a ≡ x) × (0 < x)
  head_char a x xs s = ground (arith, s.held 0, s.chars 0)

  empty_char : (a : ℕ) → IsString a [] → load task m a ≡ 0
  empty_char a s = ground (arith, s.end)

  strcmp_loop-compare_text :
      (fuel : ℕ) (xs ys : List ℕ) (a b : ℕ)
      → length xs < fuel
      → IsString a xs
      → IsString b ys
      → strcmp_loop task fuel m a b ≡ some (compare_text xs ys)
  unfolding strcmp_loop
  strcmp_loop-compare_text zero xs ys a b p s t = absurd (omega arith)
  strcmp_loop-compare_text (suc fuel) [] [] a b p s t =
      ground (arith, empty_char a s, empty_char b t)
  strcmp_loop-compare_text (suc fuel) [] (y ∷ ys) a b p s t =
      ground (arith, empty_char a s, head_char b y ys t)
  strcmp_loop-compare_text (suc fuel) (x ∷ xs) [] a b p s t =
      ground (arith, head_char a x xs s, empty_char b t)
  strcmp_loop-compare_text (suc fuel) (x ∷ xs) (y ∷ ys) a b p s t = ground (
    arith,
    head_char a x xs s,
    head_char b y ys t,
    strcmp_loop-compare_text fuel xs ys (a + 1) (b + 1) (omega arith) (IsString-tail a x xs s)
        (IsString-tail b y ys t),
  )

  compare_text-same :
      (xs ys : List ℕ) → AreChars xs → AreChars ys → is_zero (compare_text xs ys) ≡ same xs ys
  unfolding same
  compare_text-same [] [] c d = refl
  compare_text-same [] (y ∷ ys) c d = ground (arith, d 0)
  compare_text-same (x ∷ xs) [] c d = ground (arith, c 0)
  compare_text-same (x ∷ xs) (y ∷ ys) c d = ground (
    arith,
    compare_text-same xs ys (λ i p. c (suc i) (omega arith)) (λ i p. d (suc i) (omega arith)),
  )

  -- On two strings, the first one shorter than 4 GB, ece391_strcmp returns the difference of the
  -- first characters that differ, as unsigned bytes, and 0 exactly when the strings are the same.
  pub strcmp_lem :
      (xs ys : List ℕ) (a b : ℕ)
      → length xs < 2 ^ 32
      → IsString a xs
      → IsString b ys
      → (strcmp task m a b ≡ some (compare_text xs ys))
        × (is_zero (compare_text xs ys) ≡ same xs ys)
  unfolding strcmp
  strcmp_lem xs ys a b p s t =
      (strcmp_loop-compare_text (2 ^ 32) xs ys a b p s t, compare_text-same xs ys s.chars t.chars)

  strncmp_loop-c_string :
      (n a b : ℕ)
      → is_zero (strncmp_loop task m a b n) ≡ same (c_string task n m a) (c_string task n m b)
  unfolding strncmp_loop c_string same
  strncmp_loop-c_string zero a b = refl
  strncmp_loop-c_string (suc n) a b =
      ground (arith, strncmp_loop-c_string n (a + 1) (b + 1), load-lt task m a, load-lt task m b)

  -- The programs' strncmp and the kernel's agree on which strings are the same up to n characters.
  pub user_strncmp-strncmp :
      (n a b : ℕ) → is_zero (user_strncmp task m a b n) ≡ is_zero (strncmp task m a b n)
  unfolding user_strncmp strncmp_loop strncmp
  user_strncmp-strncmp zero a b = refl
  user_strncmp-strncmp (suc n) a b =
      ground (arith, strncmp_loop-c_string (suc n) a b, strncmp-c_string task m (suc n) a b)

-- The programs' strcpy is the kernel's.
user_strcpy_loop-strcpy_loop :
    (task fuel : ℕ) (m : Memory) (dst src : ℕ)
    → user_strcpy_loop task fuel m dst src ≡ strcpy_loop task fuel m dst src
unfolding user_strcpy_loop strcpy_loop
user_strcpy_loop-strcpy_loop task zero m dst src = refl
user_strcpy_loop-strcpy_loop task (suc fuel) m dst src = elim (ℕ_discrete (load task m src) 0) [
  | yes end ↦ let nul : (load task m src == 0) ≡ true = ground arith in rw (nul, end) refl
  | no char ↦
      let more : (load task m src == 0) ≡ false = ground arith in
      rw more (
        user_strcpy_loop-strcpy_loop task fuel (store task m dst (load task m src)) (dst + 1)
          (src + 1))
]

-- ece391_strcpy leaves the memory that the kernel's strcpy does.
pub user_strcpy-strcpy :
    (task : ℕ) (m : Memory) (dst src : ℕ) → user_strcpy task m dst src ≡ strcpy task m dst src
unfolding user_strcpy strcpy
user_strcpy-strcpy task m dst src = user_strcpy_loop-strcpy_loop task (2 ^ 32) m dst src
