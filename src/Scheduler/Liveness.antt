-- ===== src/Scheduler/Liveness.antt =====
-- Every process that is ready gets its turn.
use native.Mathlib.Decide.{dec_lt}
use pony_os.Base.{ℕ, zero, suc, ◌+◌, ◌-◌, ◌%◌, ◌≤◌, ◌<◌, ◌≡◌, refl, ◌∙◌, ap, arith, some, returns}
use pony_os.Pic.{Pic, send_eoi}
use pony_os.Process.{Kernel, max_pid}
use pony_os.Scheduler.{Registers, ticks}
use pony_os.Scheduler.Fairness.{Ready, Runs, Turn, behind, pit_handler-Turn}

-- After at most `d` interrupts `q` is the current process.
abbrev pub Reached : Pic → (ℕ → Registers) → Kernel → ℕ → ℕ → Type 0
Reached pic r k q d =
    (m : ℕ) × (m ≤ d) × (k' : Kernel) × (ticks pic r m k ≡ returns k') × (k'.current_pid ≡ some q)

after-Turn :
    (pic : Pic) (r : ℕ → Registers) (k : Kernel) (p q d : ℕ) (t : Turn pic (r 0) k p)
    → 1 ≤ d
    → Reached (send_eoi 0 pic) (λ i. r (i + 1)) t.k' q (d - 1)
    → Reached pic r k q d
unfolding ticks
after-Turn pic r k p q d t some_left (m, le, k', e, c) = (suc m, omega arith, k', rw t.result e, c)

Reached-from :
    (n d : ℕ) (pic : Pic) (r : ℕ → Registers) (k : Kernel) (p q : ℕ)
    → d ≤ n
    → d < max_pid
    → q ≡ behind p d
    → Runs k p
    → Ready k q
    → Reached pic r k q d
unfolding ticks
Reached-from n zero pic r k p q le small at runs ready =
    let same : p ≡ q = omega (arith, runs.low) in
    (0, omega arith, k, refl, runs.current ∙ ap some same)
Reached-from zero (suc d) pic r k p q le small at runs ready = absurd (omega arith)
Reached-from (suc n) (suc d) pic r k p q le small at runs ready =
    let t = pit_handler-Turn pic (r 0) k p runs in
    elim (dec_lt (suc d) t.place) [
      | yes past ↦ absurd (t.skipped (suc d) (omega arith) past (rw at at ready))
      | no reach ↦
          let here : q ≡ behind (behind p t.place) (suc d - t.place) = omega arith in
          let (m, le', k', e, c) =
            Reached-from n (suc d - t.place) (send_eoi 0 pic) (λ i. r (i + 1)) t.k'
              (behind p t.place) q (omega (arith, t.forward)) (omega arith) here t.runs
              (t.still_ready q ready) in
          after-Turn pic r k p q (suc d) t (omega arith) (m, omega (arith, t.forward), k', e, c)
    ]

-- While a process runs and nothing but the timer changes the process table, every process that runs
-- and has no child is the current one after at most seven interrupts.
pub ticks_fair :
    (pic : Pic) (r : ℕ → Registers) (k : Kernel) (p q : ℕ)
    → Runs k p
    → Ready k q
    → q < max_pid
    → Reached pic r k q 7
ticks_fair pic r k p q runs ready low =
    let d = (q + 8 - p) % 8 in
    let (m, le, k', e, c) =
      Reached-from 7 d pic r k p q (omega arith) (omega arith) (omega (arith, runs.low)) runs
        ready in
    (m, omega arith, k', e, c)
