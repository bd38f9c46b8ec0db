-- ===== src/Process/Slots.antt =====
-- The search for a free process number, and where the kernel stacks lie.
use native.Mathlib.Decide.{ℕ_discrete}
use pony_os.Base.{refl, Option, ℕ, zero, suc, ◌+◌, ◌≤◌, ◌<◌, ◌≡◌, ◌≢◌, ◌⊎◌, none, some, arith}
use pony_os.Process.{Kernel, empty_from, get_empty_pid, get_kernel_stack_bottom, assigned_pcb_size}

empty_from-some :
    (status : ℕ → ℕ) (n i p : ℕ)
    → empty_from status n i ≡ some p
    → (i ≤ p) × (p < i + n) × (status p ≡ 0) × ((q : ℕ) → i ≤ q → q < p → status q ≢ 0)
unfolding empty_from
empty_from-some status zero i p e = absurd (ground arith)
empty_from-some status (suc n) i p e = elim (ℕ_discrete (status i) 0) [
  | yes free ↦
      let here : i ≡ p = ground arith in
      (omega arith, omega arith, rw (← here) free, λ q a b. absurd (omega arith))
  | no busy ↦
      let (low, high, free, least) = empty_from-some status n (i + 1) p (ground arith) in
      (
        omega arith,
        omega arith,
        free,
        λ q a b. elim (ℕ_discrete q i) [
          | yes same ↦ rw same busy
          | no other ↦ least q (omega arith) b
        ],
      )
]

empty_from-none :
    (status : ℕ → ℕ) (n i : ℕ)
    → empty_from status n i ≡ none
    → (q : ℕ) → i ≤ q
    → q < i + n
    → status q ≢ 0
unfolding empty_from
empty_from-none status zero i e q a b = absurd (omega arith)
empty_from-none status (suc n) i e q a b = elim (ℕ_discrete q i) [
  | yes same ↦ rw same (λ z. absurd (ground arith))
  | no other ↦ empty_from-none status n (i + 1) (ground arith) q (omega arith) (omega arith)
]

-- The least of the numbers 1 to 7 that is not in use, or that all of these are in use.
abbrev pub IsLeast : Kernel → Option ℕ → Type 0
IsLeast k none = (q : ℕ) → 1 ≤ q → q < 8 → k.process_status q ≢ 0
IsLeast k (some p) =
    (1 ≤ p)
    × (p < 8)
    × (k.process_status p ≡ 0)
    × ((q : ℕ) → 1 ≤ q → q < p → k.process_status q ≢ 0)

-- When get_empty_pid returns a number, it is the least of 1 to 7 that is not in use; when it fails,
-- all of these are in use.
pub get_empty_pid-IsLeast : (k : Kernel) → IsLeast k (get_empty_pid k)
unfolding get_empty_pid
get_empty_pid-IsLeast k = least (empty_from k.process_status 7 1) refl
  where
    least : (p : Option ℕ) → empty_from k.process_status 7 1 ≡ p → IsLeast k p
    least none e = empty_from-none k.process_status 7 1 e
    least (some p) e = empty_from-some k.process_status 7 1 p e

-- The kernel stacks of two processes do not overlap, and lie in the kernel's page.
pub stacks_apart :
    (p q : ℕ)
    → p < 8
    → q < 8
    → p ≢ q
    → (0x400000 ≤ get_kernel_stack_bottom p)
      × (get_kernel_stack_bottom p + assigned_pcb_size ≤ 0x800000)
      × ((get_kernel_stack_bottom p + assigned_pcb_size ≤ get_kernel_stack_bottom q)
          ⊎ (get_kernel_stack_bottom q + assigned_pcb_size ≤ get_kernel_stack_bottom p))
unfolding get_kernel_stack_bottom
stacks_apart p q hp hq ne = (omega arith, omega arith, grind arith)
