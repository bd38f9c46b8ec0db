-- ===== src/Scheduler/Tests.antt =====
-- The kernel of Process/Tests, with process 1 on terminal 0, and process 2 ready.
use pony_os.Paging.{set_active_terminal_paging}
use pony_os.Base.{◌≢◌, refl, arith}
use pony_os.Pic.Tests.{started}
use pony_os.Process.{Kernel, stack_top, is_running}
use pony_os.Process.Tests.{kernel}
use pony_os.Screen.{set_active_terminal}
use pony_os.Screen.Switch.{set_active_terminal-IsMapped}
use pony_os.Scheduler.{Registers}
use pony_os.Scheduler.Fairness.{Runs, Turn, pit_handler-Turn}
use pony_os.Scheduler.Liveness.{Reached, ticks_fair}

abbrev timed : Kernel
timed = record kernel { esp0 = stack_top 1; screen = set_active_terminal 0 kernel.screen }

abbrev registers : Registers
registers = record { esp = 0x7fbfd0; ebp = 0x7fbff0 }

timed-Runs : Runs timed 1
unfolding set_active_terminal is_running set_active_terminal_paging
timed-Runs = record {
  current = refl;
  low = omega arith;
  running = λ e. absurd (omega arith);
  counted = omega arith;
  numbered = λ q h. refl;
  page = refl;
  stack = refl;
  terminal = refl;
  mapped = set_active_terminal-IsMapped 0 kernel.screen;
}

second_runs : is_running timed 2 ≢ 0
unfolding is_running
second_runs e = absurd (omega arith)

pit_handler-Turn_example : Turn started registers timed 1
pit_handler-Turn_example = pit_handler-Turn started registers timed 1 timed-Runs

ticks_fair_example : Reached started (λ i. registers) timed 2 7
ticks_fair_example =
    ticks_fair started (λ i. registers) timed 1 2 timed-Runs (second_runs, refl) (omega arith)
