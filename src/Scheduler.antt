-- ===== src/Scheduler.antt =====
-- student-distrib/pit.c: the timer, whose interrupt switches between the running processes.
pub mod Fairness
pub mod Liveness
mod Tests
use pony_os.Base.{
  ℕ, zero, suc, ◌+◌, ◌%◌, ◌/◌, Option, none, some, ◌==◌, if◌then◌else◌, List, [], ◌∷◌, Outcome,
  returns, faults, endless, and_then,
}
use pony_os.Paging.{setup_task_page}
use pony_os.Pic.{Pic, enable_irq, send_eoi}
use pony_os.Process.{
  Pcb, Kernel, max_pid, get_running_process_num, is_running, set_current_pid, stack_top, with_pcb,
}
use pony_os.Screen.{Screen, set_active_terminal}
use pony_os.SystemCall.{with_current}

abbrev pub pit_base_freq : ℕ
pit_base_freq = 1193180

abbrev pub desired_freq : ℕ
desired_freq = 30

-- The bytes written to the timer's ports, in order, and the unmasked line.
unfoldable pub pit_init : Pic → List (ℕ × ℕ) × Pic
pit_init pic =
    let divisor = pit_base_freq / desired_freq in
    ((0x43, 0x36) ∷ (0x40, divisor % 256) ∷ (0x40, divisor / 256 % 256) ∷ [], enable_irq 0 pic)

abbrev pub next_pid : ℕ → ℕ
next_pid pid = (pid + 1) % max_pid

-- The registers of the processor that a switch saves and loads.
pub record Registers : Type 0 where
  pub esp : ℕ
  pub ebp : ℕ

-- `for (; i != current; i = next_pid(i))`: the number at which the loop stops.
pub search : Kernel → ℕ → ℕ → ℕ → Option ℕ
unfolding is_running
search k current zero i = none
search k current (suc fuel) i =
    let rest = search k current fuel (next_pid i) in
    if i == current
    then some i
    else if is_running k i == 0
    then rest
    else elim (k.pcbs i).child [ none ↦ some i | some c ↦ rest ]

-- The switch from process `p` to process `i`. `leave; ret` go on in the frame of the new ebp.
pub switch_to : ℕ → ℕ → Registers → Kernel → Registers × Kernel
unfolding set_current_pid
switch_to p i r k =
    let screen = record (k.screen) { paging = setup_task_page i k.screen.paging } in
    let k' =
      set_current_pid i (record k {
        screen = set_active_terminal (k.pcbs i).terminal screen;
        esp0 = stack_top i;
      }) in
    let saved = with_pcb k' p (record (k.pcbs p) { current_esp = r.esp; current_ebp = r.ebp }) in
    (record { esp = (saved.pcbs i).current_esp; ebp = (saved.pcbs i).current_ebp }, saved)

-- What follows the loop: nothing when it came back to the current process's own number.
pub switch_found : Registers → Kernel → ℕ → ℕ → Option ℕ → Outcome (Registers × Kernel)
switch_found r k p own none = endless
switch_found r k p own (some i) = if i == own then returns (r, k) else returns (switch_to p i r k)

abbrev pub switch : Registers → Kernel → ℕ → Pcb → Outcome (Registers × Kernel)
switch r k p pcb = switch_found r k p pcb.pid (search k pcb.pid max_pid (next_pid pcb.pid))

abbrev pub acknowledged : Pic → Registers × Kernel → Outcome (Pic × Registers × Kernel)
acknowledged pic (r, k) = returns (send_eoi 0 pic, r, k)

pub pit_handler : Pic → Registers → Kernel → Outcome (Pic × Registers × Kernel)
pit_handler pic r k =
    if get_running_process_num k == 0
    then returns (send_eoi 0 pic, r, k)
    else and_then (with_current k (switch r k)) (acknowledged pic)

-- `n` interrupts of the timer, with the registers that each one finds.
pub ticks : Pic → (ℕ → Registers) → ℕ → Kernel → Outcome Kernel
ticks pic r zero k = returns k
ticks pic r (suc n) k =
    and_then (pit_handler pic (r 0) k) λ (pic', r', k'). ticks pic' (λ i. r (i + 1)) n k'
