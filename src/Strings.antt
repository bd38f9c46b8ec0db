-- ===== src/Strings.antt =====
-- The string functions of student-distrib/lib.c that the kernel's lookups rest on: strlen and
-- strncmp, over the bytes of memory.
pub mod Names
pub mod Copies
pub mod Tests
use pony_os.Base.{
  ℕ, zero, suc, ◌+◌, ◌^◌, Bool, true, false, not, ◌&&◌, ◌||◌, Option, none, some, List, [], ◌∷◌,
  ◌==◌, if◌then◌else◌, ℤ, pos, sub_int8,
}
use pony_os.Memory.{Memory, load}

module _ (task : ℕ) where
  -- `none`: no NUL within the fuel. Addresses repeat after 2 ^ 32, so then there is none at all.
  unfoldable pub strlen_loop : ℕ → Memory → ℕ → ℕ → Option ℕ
  strlen_loop zero m s len = none
  strlen_loop (suc fuel) m s len =
      let rest = strlen_loop fuel m s (len + 1) in
      if load task m (s + len) == 0 then some len else rest

  unfoldable pub strlen : Memory → ℕ → Option ℕ
  strlen m s = strlen_loop (2 ^ 32) m s 0

  -- The characters are `int8_t`; the count of rounds left is `n - i`.
  unfoldable pub strncmp : Memory → ℕ → ℕ → ℕ → ℤ
  strncmp m s1 s2 zero = pos 0
  strncmp m s1 s2 (suc n) =
      let rest = strncmp m (s1 + 1) (s2 + 1) n in
      if not (load task m s1 == load task m s2) || (load task m s1 == 0)
      then sub_int8 (load task m s1) (load task m s2)
      else rest

  -- The string at `a`, cut after `n` characters.
  unfoldable pub c_string : ℕ → Memory → ℕ → List ℕ
  c_string zero m a = []
  c_string (suc n) m a = if load task m a == 0 then [] else load task m a ∷ c_string n m (a + 1)

unfoldable pub same : List ℕ → List ℕ → Bool
same [] [] = true
same [] (y ∷ ys) = false
same (x ∷ xs) [] = false
same (x ∷ xs) (y ∷ ys) = (x == y) && same xs ys
