-- ===== src/Terminal/Bytes.antt =====
-- Stretches of a buffer read and written as lists.
use pony_os.Base.{
  ℕ, zero, suc, ◌+◌, ◌≤◌, ◌<◌, ◌≡◌, ◌⊎◌, ◌∙◌, refl, ap, List, [], ◌∷◌, ◌++◌, arith, length, get_or,
}
use pony_os.Screen.{update}
use pony_os.Terminal.{put_bytes, get_bytes}

pub put_bytes_out :
    (xs : List ℕ) (f : ℕ → ℕ) (at b : ℕ)
    → (b < at) ⊎ (at + length xs ≤ b)
    → put_bytes f at xs b ≡ f b
unfolding put_bytes
put_bytes_out [] f at b h = refl
put_bytes_out (x ∷ xs) f at b h =
    put_bytes_out xs (update f at x) (at + 1) b (omega arith) ∙ ground arith

pub get_bytes-cong :
    (n : ℕ) (f g : ℕ → ℕ) (at : ℕ)
    → ((i : ℕ) → at ≤ i → i < at + n → f i ≡ g i)
    → get_bytes f at n ≡ get_bytes g at n
unfolding get_bytes
get_bytes-cong zero f g at h = refl
get_bytes-cong (suc n) f g at h = ground (
  arith,
  h at (omega arith) (omega arith),
  get_bytes-cong n f g (at + 1) (λ i p q. h i (omega arith) (omega arith)),
)

pub get_bytes-put_bytes :
    (xs : List ℕ) (f : ℕ → ℕ) (at : ℕ) → get_bytes (put_bytes f at xs) at (length xs) ≡ xs
unfolding put_bytes get_bytes
get_bytes-put_bytes [] f at = refl
get_bytes-put_bytes (x ∷ xs) f at = ground (
  arith,
  put_bytes_out xs (update f at x) (at + 1) at (omega arith),
  get_bytes-put_bytes xs (update f at x) (at + 1),
)

pub length-get_bytes : (n : ℕ) (f : ℕ → ℕ) (at : ℕ) → length (get_bytes f at n) ≡ n
unfolding get_bytes
length-get_bytes zero f at = refl
length-get_bytes (suc n) f at = ap suc (length-get_bytes n f (at + 1))

pub get_or-get_bytes :
    (n : ℕ) (f : ℕ → ℕ) (at i : ℕ) → i < n → get_or (get_bytes f at n) i 0 ≡ f (at + i)
unfolding get_bytes
get_or-get_bytes zero f at i h = elim h [ ]
get_or-get_bytes (suc n) f at zero h = ground arith
get_or-get_bytes (suc n) f at (suc i) h = ground (arith, get_or-get_bytes n f (at + 1) i)

-- The last byte of a stretch stands at the end of its list.
pub get_bytes-suc :
    (n : ℕ) (f : ℕ → ℕ) (at : ℕ) → get_bytes f at (suc n) ≡ get_bytes f at n ++ f (at + n) ∷ []
unfolding get_bytes
get_bytes-suc zero f at = ground arith
get_bytes-suc (suc n) f at = ground (arith, get_bytes-suc n f (at + 1))
