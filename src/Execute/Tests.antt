-- ===== src/Execute/Tests.antt =====
-- Process 1 starts process 2, which then halts.
use pony_os.Terminal.{get_bytes}
use pony_os.Memory.{load}
use pony_os.FileSystem.{bytes_at}
use pony_os.Execute.Args.{with_args_lem}
use pony_os.Base.{
  ◌<◌, ◌+◌, ◌⊎◌, ◌≤◌, zero, suc, ℕ, ◌-◌, ◌≡◌, ◌≢◌, refl, arith, some, pos, returns, ◌==◌,
  if◌then◌else◌,
}
use pony_os.Paging.{setup_task_page, set_active_terminal_paging}
use pony_os.Process.{with_memory, task_of, Kernel, is_running, stack_top}
use pony_os.Process.Tests.{kernel, shell}
use pony_os.Scheduler.{Registers}
use pony_os.Scheduler.Fairness.{Runs, Ready}
use pony_os.Screen.{set_active_terminal}
use pony_os.Screen.Switch.{set_active_terminal-IsMapped}
use pony_os.Execute.{with_args, with_task, start, halt, resume}
use pony_os.Execute.Parent.{IsLoaded, started, start_lem, halt_lem}

abbrev registers : Registers
registers = record { esp = 0x7fbfd0; ebp = 0x7fbff0 }

abbrev loaded : Kernel
loaded =
    let mapped = with_task 2 kernel in
    record mapped { screen = set_active_terminal 0 mapped.screen }

loaded-IsLoaded : IsLoaded 2 1 registers loaded
unfolding set_active_terminal set_active_terminal_paging setup_task_page is_running
loaded-IsLoaded = record {
  current = refl;
  other = omega arith;
  low = omega arith;
  running = λ e. absurd (omega arith);
  counted = omega arith;
  numbered = λ u h. refl;
  page = refl;
  terminal = refl;
  mapped = set_active_terminal-IsMapped 0 (with_task 2 kernel).screen;
}

abbrev running : Kernel
running = started 2 1 registers loaded

start_lem_example :
    (start 2 0 0 registers loaded ≡ returns running)
    × Runs running 2
    × ¬ Ready running 1
    × ((running.pcbs 2).parent ≡ some 1)
    × ((running.pcbs 2).is_terminal ≡ 0)
    × ((running.pcbs 2).parent_esp ≡ 0x7fbfd0)
    × ((running.pcbs 2).parent_ebp ≡ 0x7fbff0)
    × ((running.pcbs 1).terminal ≡ (running.pcbs 2).terminal)
start_lem_example = start_lem 2 1 registers loaded loaded-IsLoaded

abbrev child : Kernel
child = record loaded {
  current_pid = some 2;
  esp0 = stack_top 2;
  pcbs = λ u. record (shell u) { parent = some 1; parent_esp = 0x7fbfd0; parent_ebp = 0x7fbff0 };
}

child-Runs : Runs child 2
unfolding set_active_terminal set_active_terminal_paging setup_task_page is_running
child-Runs = record {
  current = refl;
  low = omega arith;
  running = λ e. absurd (omega arith);
  counted = omega arith;
  numbered = λ u h. refl;
  page = refl;
  stack = refl;
  terminal = refl;
  mapped = set_active_terminal-IsMapped 0 (with_task 2 kernel).screen;
}

parent_runs : is_running child 1 ≢ 0
unfolding is_running
parent_runs e = absurd (omega arith)

halt_lem_example :
    (k' : Kernel) × (halt 0x400000 0x7fb000 0x401000 (pos 0) child ≡ returns (resume registers, k'))
    × Runs k' 1
    × Ready k' 1
    × (k'.process_status 2 ≡ 0)
    × (k'.total_running_process ≡ 1)
halt_lem_example =
    halt_lem 2 1 child (pos 0) child-Runs refl refl (omega arith) (omega arith) parent_runs refl
      (omega arith) (omega arith) 0x400000 0x7fb000 0x401000

-- The command "cat a" of five characters, whose name ends at 3.
abbrev typed : ℕ → ℕ
typed a =
    if a == 0x410000
    then b'c'
    else if a == 0x410001
    then b'a'
    else if a == 0x410002
    then b't'
    else if a == 0x410003
    then b' '
    else if a == 0x410004
    then b'a'
    else 0

abbrev asking : Kernel
asking = with_memory kernel typed

letters : (j : ℕ) → j < 5 → load (task_of asking) typed (0x410000 + j) ≢ 0
unfolding load
letters zero p e = absurd (omega arith)
letters (suc zero) p e = absurd (omega arith)
letters (suc (suc zero)) p e = absurd (omega arith)
letters (suc (suc (suc zero))) p e = absurd (omega arith)
letters (suc (suc (suc (suc zero)))) p e = absurd (omega arith)
letters (suc (suc (suc (suc (suc j))))) p e = absurd (omega arith)

with_args_lem_example :
    (start : ℕ) × (3 ≤ start)
    × (start ≤ 5)
    × ((j : ℕ) → 3 ≤ j → j < start → load (task_of asking) typed (0x410000 + j) ≡ b' ')
    × (start < 5 → load (task_of asking) typed (0x410000 + start) ≢ b' ')
    × (k' : Kernel) × (with_args 2 0x410000 5 3 asking ≡ returns k')
    × (get_bytes k'.arg_buf 8192 (5 - start)
        ≡ bytes_at (task_of asking) typed (0x410000 + start) (5 - start))
    × (k'.arg_buf (8192 + (5 - start)) ≡ 0)
    × ((a : ℕ) → (a < 8192) ⊎ (12288 ≤ a) → k'.arg_buf a ≡ 0)
    × (k'.arg_available 2 ≡ (if 5 - start == 0 then 0 else 1))
with_args_lem_example =
    with_args_lem 2 0x410000 5 3 asking (omega arith) (omega arith) (omega arith) letters
