-- ===== src/Base/Outcomes.antt =====
-- How a call of the kernel can end.
use mathlib.Core.Option.{Option, none, some}

-- `waits`: it spins until an interrupt handler changes what it looks at. `faults`: it goes through
-- a null pointer or overruns memory. `endless`: it scans for the end of a string that has none.
pub data Outcome {ℓ} (A : Type ℓ) : Type ℓ where
  returns : A → Outcome A
  waits : Outcome A
  faults : Outcome A
  endless : Outcome A

abbrev pub scanned {ℓ} : {A : Type ℓ} → Option A → Outcome A
scanned none = endless
scanned (some a) = returns a

abbrev pub and_then {ℓ κ} : {A : Type ℓ} {B : Type κ} → Outcome A → (A → Outcome B) → Outcome B
and_then (returns a) f = f a
and_then waits f = waits
and_then faults f = faults
and_then endless f = endless
