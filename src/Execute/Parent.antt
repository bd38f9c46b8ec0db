-- ===== src/Execute/Parent.antt =====
-- A new process and its parent: what runs after the start of a process, and that its halt gives the
-- processor back to the parent.
use pony_os.SystemCall.{with_current}
use pony_os.Screen.Switch.{IsMapped}
use pony_os.Base.{
  Bool, false, faults, ℕ, ◌+◌, ◌-◌, ◌*◌, ◌%◌, ◌^◌, ◌<◌, ◌≡◌, ◌≢◌, refl, ◌∙◌, ap, Option, none, some,
  ◌==◌, ℤ, Outcome, returns, arith, if◌then◌else◌,
}
use pony_os.Paging.{setup_task_page, update_at}
use pony_os.Process.{Kernel, max_pid, is_running, set_current_pid, stack_top, task_of, with_pcb}
use pony_os.Scheduler.{Registers}
use pony_os.Scheduler.Fairness.{Runs, Ready}
use pony_os.Execute.{restart_shell, Control, resume, new_pcb, start, leave_to, exit, halt}

-- What is behind the load of the program when `k` is the kernel with the page of `pid` mapped, and
-- process `q` asked for it.
module _ (pid q : ℕ) (r : Registers) (k : Kernel) where
  abbrev pub started : Kernel
  started =
      let own = with_pcb k pid (new_pcb (some q) pid (k.pcbs q).terminal 0 r (k.pcbs pid)) in
      let parent = record (own.pcbs q) {
        child = some pid;
        current_esp = r.esp;
        current_ebp = r.ebp;
      } in
      record (with_pcb own q parent) { current_pid = some pid; esp0 = stack_top pid }

  start-started : k.current_pid ≡ some q → start pid (k.pcbs q).terminal 0 r k ≡ returns started
  unfolding start new_pcb set_current_pid
  start-started current =
      ap (λ (o : Option ℕ). start pid (k.pcbs q).terminal 0 r (record k { current_pid = o }))
        current

  -- Process `pid` is claimed and its program is in place.
  pub record IsLoaded : Type 0 where
    pub current : k.current_pid ≡ some q
    pub other : q ≢ pid
    pub low : pid < max_pid
    pub running : is_running k pid ≢ 0
    pub counted : k.total_running_process ≢ 0
    pub numbered : (u : ℕ) → is_running k u ≢ 0 → (k.pcbs u).pid ≡ u
    pub page : task_of k ≡ pid * 1024 + 2 * 1024
    pub terminal : k.screen.active_terminal ≡ (k.pcbs q).terminal
    pub mapped : IsMapped k.screen

  -- When the program of a new process is in place, the rest of execute makes this process the one
  -- that runs, with its parent's terminal; the parent waits, and the child's block leads back to it
  -- with the registers of the call.
  pub start_lem :
      IsLoaded
      → (start pid (k.pcbs q).terminal 0 r k ≡ returns started)
        × Runs started pid
        × ¬ Ready started q
        × ((started.pcbs pid).parent ≡ some q)
        × ((started.pcbs pid).is_terminal ≡ 0)
        × ((started.pcbs pid).parent_esp ≡ r.esp)
        × ((started.pcbs pid).parent_ebp ≡ r.ebp)
        × ((started.pcbs q).terminal ≡ (started.pcbs pid).terminal)
  unfolding new_pcb is_running
  start_lem h = (
    start-started h.current,
    record {
      current = refl;
      low = h.low;
      running = h.running;
      counted = h.counted;
      numbered = λ u run. ground (arith, h.numbered u run);
      page = h.page;
      stack = refl;
      terminal = ground (arith, h.terminal, h.other);
      mapped = h.mapped;
    },
    λ w. absurd (ground (arith, w.1)),
    ground (arith, h.other),
    ground (arith, h.other),
    ground (arith, h.other),
    ground (arith, h.other),
    ground (arith, h.other),
  )

module _ (pid q : ℕ) (k : Kernel) where
  abbrev left_number : Kernel
  left_number = record k {
    total_running_process = (k.total_running_process + (2 ^ 32 - 1)) % 2 ^ 32;
    process_status = update_at k.process_status (k.pcbs pid).pid 0;
  }

  abbrev left : Kernel
  left = leave_to (k.pcbs pid) left_number q

  halt-left :
      (status : ℤ)
      → k.current_pid ≡ some pid
      → (k.pcbs pid).parent ≡ some q
      → (k.pcbs pid).is_terminal ≡ 0
      → k.total_running_process ≢ 1
      → (fname temp_buf shell_name : ℕ)
      → halt fname temp_buf shell_name status k
        ≡ returns
            (resume (record { esp = (k.pcbs pid).parent_esp; ebp = (k.pcbs pid).parent_ebp }), left)
  unfolding halt exit
  halt-left status current parent plain others fname temp_buf shell_name =
      let several : k.total_running_process == 1 ≡ false = ground (arith, others) in
      let last = λ (b : Bool).
        if b then restart_shell fname temp_buf shell_name k else with_current k (exit k) in
      let through : Option ℕ → Outcome (Control × Kernel) =
        λ o. elim o [ none ↦ faults | some p ↦ exit k p (k.pcbs p) ] in
      let to = λ (o : Option ℕ). exit k pid (record (k.pcbs pid) { parent = o }) in
      ap last several ∙ ap through current ∙ ap to parent ∙ ground (arith, plain)

  -- halt of a process that execute started, while others run: the processor goes back to the call of
  -- execute with the registers that it was left with, the parent runs again, on its own page and
  -- stack and on the same terminal, it is ready, and the number of the process is free.
  pub halt_lem :
      (status : ℤ)
      → Runs k pid
      → (k.pcbs pid).parent ≡ some q
      → (k.pcbs pid).is_terminal ≡ 0
      → q < max_pid
      → q ≢ pid
      → is_running k q ≢ 0
      → (k.pcbs q).terminal ≡ (k.pcbs pid).terminal
      → 1 < k.total_running_process
      → k.total_running_process < 2 ^ 32
      → (fname temp_buf shell_name : ℕ)
      → (k' : Kernel) × (halt fname temp_buf shell_name status k
          ≡ returns (
            resume (record { esp = (k.pcbs pid).parent_esp; ebp = (k.pcbs pid).parent_ebp }),
            k',
          ))
        × Runs k' q
        × Ready k' q
        × (k'.process_status pid ≡ 0)
        × (k'.total_running_process ≡ k.total_running_process - 1)
  unfolding is_running leave_to set_current_pid setup_task_page
  halt_lem status runs parent plain low other running terminal several small fname temp_buf
        shell_name =
      let own : (k.pcbs pid).pid ≡ pid = runs.numbered pid runs.running in
      let its : (k.pcbs q).pid ≡ q = runs.numbered q running in
      (
        left,
        halt-left status runs.current parent plain (omega arith) fname temp_buf shell_name,
        record {
          current = ap some its;
          low = low;
          running = ground (arith, own, running, other);
          counted = omega arith;
          numbered = λ u run. ground (arith, runs.numbered u, own);
          page = ap (λ n. n * 1024 + 2 * 1024) its;
          stack = refl;
          terminal = ground (arith, runs.terminal, terminal, other);
          mapped = runs.mapped;
        },
        (ground (arith, own, running, other), ground arith),
        ground (arith, own),
        omega arith,
      )
