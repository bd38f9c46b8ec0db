-- ===== src/Scheduler/Fairness.antt =====
-- Round robin: which process the timer switches to, what holds of the kernel after the switch, and
-- that every process that is ready gets its turn.
use native.Mathlib.Decide.{ℕ_discrete}
use pony_os.Base.{
  Bool, faults, ℕ, zero, suc, ◌+◌, ◌*◌, ◌%◌, ◌≤◌, ◌<◌, ◌≡◌, ◌≢◌, refl, ◌∙◌, ap, Option, none, some,
  Option-cases, inl, inr, ◌==◌, if◌then◌else◌, arith, returns, and_then, false,
}
use pony_os.Pic.{Pic, send_eoi}
use pony_os.Process.{
  Kernel, max_pid, is_running, stack_top, task_of, get_running_process_num, set_current_pid,
}
use pony_os.Paging.{setup_task_page, set_active_terminal_paging}
use pony_os.Screen.{set_active_terminal}
use pony_os.Screen.Switch.{IsMapped}
use pony_os.Scheduler.{
  switch_found, acknowledged, next_pid, search, Registers, switch_to, switch, pit_handler,
}

-- A process that can be switched to: it runs, and it does not wait for a child.
abbrev pub Ready : Kernel → ℕ → Type 0
Ready k q = (is_running k q ≢ 0) × ((k.pcbs q).child ≡ none)

-- The number `d` places behind `p` in the round.
abbrev pub behind : ℕ → ℕ → ℕ
behind p d = (p + d) % max_pid

-- Where the search from place `d` on stops: at the first process that is ready, or at `p` itself.
pub record Found (k : Kernel) (p d fuel : ℕ) : Type 0 where
  pub place : ℕ
  pub later : d ≤ place
  pub within : place ≤ max_pid
  pub stops : search k p fuel (behind p d) ≡ some (behind p place)
  pub is_ready : place < max_pid → Ready k (behind p place)
  pub skipped : (c : ℕ) → d ≤ c → c < place → ¬ Ready k (behind p c)

Found-here :
    (k : Kernel) (p d fuel : ℕ)
    → d ≤ max_pid
    → search k p fuel (behind p d) ≡ some (behind p d)
    → (d < max_pid → Ready k (behind p d))
    → Found k p d fuel
Found-here k p d fuel h stop ready = record {
  place = d;
  later = omega arith;
  within = h;
  stops = stop;
  is_ready = ready;
  skipped = λ c a b. absurd (omega arith);
}

Found-later :
    (k : Kernel) (p d fuel : ℕ)
    → search k p (suc fuel) (behind p d) ≡ search k p fuel (behind p (d + 1))
    → ¬ Ready k (behind p d)
    → Found k p (d + 1) fuel
    → Found k p d (suc fuel)
Found-later k p d fuel step skip f = record {
  place = f.place;
  later = omega (arith, f.later);
  within = f.within;
  stops = step ∙ f.stops;
  is_ready = f.is_ready;
  skipped = λ c a b. elim (ℕ_discrete c d) [
    | yes same ↦ rw same skip
    | no other ↦ f.skipped c (omega arith) b
  ];
}

search_lem :
    (k : Kernel) (p fuel d : ℕ) → p < max_pid → 1 ≤ d → d + fuel ≡ 9 → 1 ≤ fuel → Found k p d fuel
unfolding search
search_lem k p zero d hp low sum some_fuel = absurd (omega arith)
search_lem k p (suc fuel) d hp low sum some_fuel = elim (ℕ_discrete d max_pid) [
  | yes last ↦
      let back : behind p d ≡ p = omega arith in
      Found-here k p d (suc fuel) (omega arith) (rw back (ground arith)) (λ h. absurd (omega arith))
  | no inner ↦
      let away : behind p d == p ≡ false = ground arith in
      let next : next_pid (behind p d) ≡ behind p (d + 1) = omega arith in
      let rest = search_lem k p fuel (d + 1) hp (omega arith) (omega arith) (omega arith) in
      elim (ℕ_discrete (is_running k (behind p d)) 0) [
        | yes idle ↦ Found-later k p d fuel (rw (away, idle, next) refl) (λ r. r.0 idle) rest
        | no running ↦ elim (Option-cases (k.pcbs (behind p d)).child) [
          | inl leaf ↦
              Found-here k p d (suc fuel) (omega arith) (ground arith) (λ h. (running, leaf))
          | inr (c, busy) ↦
              Found-later k p d fuel (rw next (ground arith)) (λ r. absurd (ground arith)) rest
        ]
      ]
]

-- Process `p` runs: its page is mapped, its kernel stack is the one that interrupts use, output goes
-- to its terminal, and each process control block in use has its number.
pub record Runs (k : Kernel) (p : ℕ) : Type 0 where
  pub current : k.current_pid ≡ some p
  pub low : p < max_pid
  pub running : is_running k p ≢ 0
  pub counted : k.total_running_process ≢ 0
  pub numbered : (q : ℕ) → is_running k q ≢ 0 → (k.pcbs q).pid ≡ q
  pub page : task_of k ≡ p * 1024 + 2 * 1024
  pub stack : k.esp0 ≡ stack_top p
  pub terminal : k.screen.active_terminal ≡ (k.pcbs p).terminal
  pub mapped : IsMapped k.screen

switch_to-Runs :
    (r : Registers) (k : Kernel) (p i : ℕ)
    → Runs k p
    → i < max_pid
    → is_running k i ≢ 0
    → Runs (switch_to p i r k).1 i
unfolding switch_to set_current_pid setup_task_page set_active_terminal set_active_terminal_paging
    is_running
switch_to-Runs r k p i runs low running = record {
  current = refl;
  low = low;
  running = running;
  counted = runs.counted;
  numbered = λ q h. ground (arith, runs.numbered q h);
  page = refl;
  stack = refl;
  terminal = ground arith;
  mapped = ground arith;
}

switch_to-Ready :
    (r : Registers) (k : Kernel) (p i q : ℕ) → Ready k q → Ready (switch_to p i r k).1 q
unfolding switch_to set_current_pid is_running
switch_to-Ready r k p i q (running, leaf) = (running, ground arith)

-- What one interrupt of the timer does while `p` runs: `k'` is the kernel and `r'` the registers
-- after it.
pub record Turn (pic : Pic) (r : Registers) (k : Kernel) (p : ℕ) : Type 0 where
  pub place : ℕ
  pub r' : Registers
  pub k' : Kernel
  pub forward : (1 ≤ place) × (place ≤ max_pid)
  pub result : pit_handler pic r k ≡ returns (send_eoi 0 pic, r', k')
  pub runs : Runs k' (behind p place)
  pub is_ready : place < max_pid → Ready k (behind p place)
  pub skipped : (c : ℕ) → 1 ≤ c → c < place → ¬ Ready k (behind p c)
  pub still_ready : (q : ℕ) → Ready k q → Ready k' q
  pub saved :
      place < max_pid → ((k'.pcbs p).current_esp ≡ r.esp) × ((k'.pcbs p).current_ebp ≡ r.ebp)
  pub loaded :
      place < max_pid
      → (r'.esp ≡ (k.pcbs (behind p place)).current_esp)
        × (r'.ebp ≡ (k.pcbs (behind p place)).current_ebp)

module _ (pic : Pic) (r : Registers) (k : Kernel) (p : ℕ) (runs : Runs k p) where
  found : Found k p 1 max_pid
  found = search_lem k p max_pid 1 runs.low (omega arith) (omega arith) (omega arith)

  pit_handler-switch :
      (i : ℕ)
      → search k p max_pid (behind p 1) ≡ some i
      → pit_handler pic r k ≡ (
          if i == p
          then returns (send_eoi 0 pic, r, k)
          else returns (send_eoi 0 pic, (switch_to p i r k).0, (switch_to p i r k).1))
  unfolding pit_handler get_running_process_num switch_found
  pit_handler-switch i e =
      let busy : k.total_running_process == 0 ≡ false = ground (arith, runs.counted) in
      let through = λ (o : Option ℕ).
        and_then (elim o [ none ↦ faults | some p ↦ switch r k p (k.pcbs p) ]) (acknowledged pic) in
      let numbered = λ (own : ℕ).
        and_then (switch_found r k p own (search k own max_pid (next_pid own)))
          (acknowledged pic) in
      let stopped = λ (f : Option ℕ). and_then (switch_found r k p p f) (acknowledged pic) in
      ap (λ (b : Bool). if b then returns (send_eoi 0 pic, r, k) else through k.current_pid) busy
      ∙ ap through runs.current
      ∙ ap numbered (runs.numbered p runs.running)
      ∙ ap stopped e
      ∙ ground arith

  -- While a process runs, the timer's interrupt ends and switches to the next process in the round
  -- that runs and has no child, past none that is ready, or stays with the current one when there
  -- is no other; afterwards that process runs, on its own page, stack and terminal, with the
  -- registers that it was left with, those of the old process are kept in its block, and every
  -- process that was ready still is.
  pub pit_handler-Turn : Turn pic r k p
  unfolding switch_to
  pit_handler-Turn = elim (ℕ_discrete found.place max_pid) [
    | yes round ↦
        let back : behind p found.place ≡ p = omega (arith, runs.low) in
        record {
          place = found.place;
          r' = r;
          k' = k;
          forward = (found.later, found.within);
          result = pit_handler-switch (behind p found.place) found.stops ∙ ground arith;
          runs = rw back runs;
          is_ready = found.is_ready;
          skipped = found.skipped;
          still_ready = λ q h. h;
          saved = λ h. absurd (omega arith);
          loaded = λ h. absurd (omega arith);
        }
    | no other ↦
        let inner : found.place < max_pid = omega (arith, found.within) in
        let away : behind p found.place ≢ p = omega (arith, runs.low, found.later) in
        let next = behind p found.place in
        record {
          place = found.place;
          r' = (switch_to p next r k).0;
          k' = (switch_to p next r k).1;
          forward = (found.later, found.within);
          result = pit_handler-switch next found.stops ∙ ground arith;
          runs = switch_to-Runs r k p next runs (omega arith) (found.is_ready inner).0;
          is_ready = found.is_ready;
          skipped = found.skipped;
          still_ready = λ q h. switch_to-Ready r k p next q h;
          saved = λ h. (ground arith, ground arith);
          loaded = λ h. (ground arith, ground arith);
        }
  ]
