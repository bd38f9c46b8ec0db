-- ===== src/Base.antt =====
-- The names that the other modules share: the libraries', passed on, and those of its children:
-- tests on the native numbers, lists measured and indexed by them, signed results, the ways in
-- which a call can end, and `do`.
mod Tests
mod Lists
mod Int
mod Bytes
mod Outcomes
pub use Tests.*
pub use Lists.*
pub use Int.*
unfoldable pub use Bytes.{passes}
pub use Bytes.{passes_at, Each, Each-at, codes}
pub use Outcomes.*
pub use Prim.Native.Nat.{ℕ, zero, suc, ◌+◌, ◌-◌, ◌*◌, ◌/◌, ◌%◌, ◌^◌, ◌≤◌, ◌<◌, min}
pub use mathlib.Core.Path.{◌≡◌, refl, sym, ap, ◌∙◌}
pub use mathlib.Core.Logic.{◌≢◌, ◌↔◌, ◌⊎◌, inl, inr}
pub use mathlib.Core.Bool.{Bool, true, false, not, ◌&&◌, ◌||◌}
pub use mathlib.Core.Option.{Option, none, some}
pub use mathlib.Core.List.{List, [], ◌∷◌, ◌++◌, map}
pub use native.Mathlib.Omega.{arith}

-- A computation that may not come to an end: `none` is a scan that meets no end of its string.
infixl 5 ◌>>=◌
abbrev pub ◌>>=◌ {ℓ κ} : {A : Type ℓ} {B : Type κ} → Option A → (A → Option B) → Option B
none >>= f = none
some a >>= f = f a
