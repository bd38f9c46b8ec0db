-- ===== src/Strings/Names.antt =====
-- strlen and strncmp against the strings that memory holds.
use pony_os.Base.{
  ℕ, zero, suc, ◌+◌, ◌-◌, ◌^◌, ◌≤◌, ◌<◌, ◌≡◌, ◌≢◌, ◌↔◌, refl, ap, inl, inr, Bool-cases, false, true,
  some, List, [], ◌∷◌, arith, min, length, is_zero,
}
use pony_os.Memory.{Memory, load}
use pony_os.Memory.Copy.{load-lt}
use pony_os.Strings.{strlen_loop, strlen, strncmp, c_string, same}

pub same_iff : (xs ys : List ℕ) → (same xs ys ≡ true) ↔ (xs ≡ ys)
unfolding same
same_iff [] [] = ground arith
same_iff [] (y ∷ ys) = ground arith
same_iff (x ∷ xs) [] = ground arith
same_iff (x ∷ xs) (y ∷ ys) = ground (arith, same_iff xs ys)

pub same_length : (xs ys : List ℕ) → length xs ≢ length ys → same xs ys ≡ false
unfolding same
same_length xs ys h = elim (Bool-cases (same xs ys)) [
  | inl eq ↦ absurd (h (ap length ((same_iff xs ys).0 eq)))
  | inr ne ↦ ne
]

module _ (task : ℕ) (m : Memory) where
  pub strlen_loop-c_string :
      (fuel k a len l : ℕ)
      → strlen_loop task fuel m a len ≡ some l
      → (len ≤ l) × (length (c_string task k m (a + len)) ≡ min k (l - len))
  unfolding strlen_loop c_string
  strlen_loop-c_string zero k a len l e = ground arith
  strlen_loop-c_string (suc fuel) zero a len l e =
      ground (arith, strlen_loop-c_string fuel zero a (len + 1) l)
  strlen_loop-c_string (suc fuel) (suc k) a len l e =
      ground (arith, strlen_loop-c_string fuel k a (len + 1) l)

  pub strlen-c_string :
      (k a l : ℕ) → strlen task m a ≡ some l → length (c_string task k m a) ≡ min k l
  unfolding strlen
  strlen-c_string k a l e = ground (arith, strlen_loop-c_string (2 ^ 32) k a 0 l e)

  -- A string that ends is measured: with enough fuel the scan returns.
  strlen_loop_ends :
      (fuel k a len : ℕ)
      → k < fuel
      → load task m (a + (len + k)) ≡ 0
      → ((i : ℕ) → i < k → load task m (a + (len + i)) ≢ 0)
      → strlen_loop task fuel m a len ≡ some (len + k)
  unfolding strlen_loop
  strlen_loop_ends zero k a len p z h = elim p [ ]
  strlen_loop_ends (suc fuel) zero a len p z h = ground arith
  strlen_loop_ends (suc fuel) (suc k) a len p z h = ground (
    arith,
    h 0,
    strlen_loop_ends fuel k a (len + 1) (omega arith) (ground arith)
        (λ i q. ground (arith, h (suc i))),
  )

  pub strlen_lem :
      (k a : ℕ)
      → k < 2 ^ 32
      → load task m (a + k) ≡ 0
      → ((i : ℕ) → i < k → load task m (a + i) ≢ 0)
      → strlen task m a ≡ some k
  unfolding strlen
  strlen_lem k a p z h =
      ground (arith, strlen_loop_ends (2 ^ 32) k a 0 p (ground arith) (λ i q. ground (arith, h i)))

  pub strncmp-c_string :
      (n a b : ℕ)
      → is_zero (strncmp task m a b n) ≡ same (c_string task n m a) (c_string task n m b)
  unfolding strncmp c_string same
  strncmp-c_string zero a b = refl
  strncmp-c_string (suc n) a b =
      ground (arith, strncmp-c_string n (a + 1) (b + 1), load-lt task m a, load-lt task m b)

  -- Cut at its own length, a name is whole.
  pub c_string_whole :
      (k n a : ℕ) → length (c_string task k m a) ≡ n → c_string task n m a ≡ c_string task k m a
  unfolding c_string
  c_string_whole zero zero a e = refl
  c_string_whole zero (suc n) a e = absurd (omega arith)
  c_string_whole (suc k) zero a e = ground arith
  c_string_whole (suc k) (suc n) a e = ground (arith, c_string_whole k n (a + 1))

  -- Up to its length a string has no NUL, and if it was not cut there is one behind it.
  pub c_string_nonzero : (n a i : ℕ) → i < length (c_string task n m a) → load task m (a + i) ≢ 0
  unfolding c_string
  c_string_nonzero zero a i h = elim h [ ]
  c_string_nonzero (suc n) a zero h = ground arith
  c_string_nonzero (suc n) a (suc i) h = ground (arith, c_string_nonzero n (a + 1) i)

  pub c_string_end :
      (n a : ℕ)
      → length (c_string task n m a) < n
      → load task m (a + length (c_string task n m a)) ≡ 0
  unfolding c_string
  c_string_end zero a h = elim h [ ]
  c_string_end (suc n) a h = ground (arith, c_string_end n (a + 1))

  pub length-c_string : (n a : ℕ) → length (c_string task n m a) ≤ n
  unfolding c_string
  length-c_string zero a = omega arith
  length-c_string (suc n) a = ground (arith, length-c_string n (a + 1))

-- Equal bytes make equal strings.
pub c_string-cong :
    (task : ℕ) (m m' : Memory) (n a b : ℕ)
    → ((i : ℕ) → i < n → load task m (a + i) ≡ load task m' (b + i))
    → c_string task n m a ≡ c_string task n m' b
unfolding c_string
c_string-cong task m m' zero a b h = refl
c_string-cong task m m' (suc n) a b h =
    ground
      (arith, h 0, c_string-cong task m m' n (a + 1) (b + 1) (λ i p. ground (arith, h (suc i))))
