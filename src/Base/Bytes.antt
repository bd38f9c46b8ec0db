-- ===== src/Base/Bytes.antt =====
-- Facts about the numbers below a bound, and texts, by evaluation.
use Prim.Native.Char.{code}
use Prim.Native.String.{String}
use mathlib.Core.List.{List, [], ◌∷◌}
use native.Mathlib.Decide.{ℕ_discrete}
use Prim.Native.Nat.{ℕ, zero, suc, ◌<◌}
use mathlib.Core.Path.{◌≡◌}
use mathlib.Core.Bool.{Bool, true, false}
use native.Mathlib.Omega.{arith}
use pony_os.Base.Tests.{if◌then◌else◌}

-- Whether a test passes at each number below the bound.
unfoldable pub passes : (ℕ → Bool) → ℕ → Bool
passes test zero = true
passes test (suc bound) = let lower = passes test bound in if test bound then lower else false

pub passes_at :
    (test : ℕ → Bool) (bound i : ℕ) → passes test bound ≡ true → i < bound → test i ≡ true
unfolding passes
passes_at test zero i all low = absurd (omega arith)
passes_at test (suc bound) i all low = ground (arith, passes_at test bound i)

-- A property of each of the numbers below a bound, one by one.
abbrev pub Each {ℓ} : (ℕ → Type ℓ) → ℕ → Type ℓ
Each P zero = Unit
Each P (suc bound) = Each P bound × P bound

pub Each-at {ℓ} : (P : ℕ → Type ℓ) (bound i : ℕ) → Each P bound → i < bound → P i
Each-at P zero i all low = absurd (omega arith)
Each-at P (suc bound) i (all, last) low = elim (ℕ_discrete i bound) [
  | yes same ↦ rw same last
  | no other ↦ Each-at P bound i all (omega arith)
]

-- The codes of a text.
abbrev pub codes : String → List ℕ
codes String.[] = []
codes (String.◌∷◌ c s) = code c ∷ codes s
