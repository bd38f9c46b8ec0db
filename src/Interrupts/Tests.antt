-- ===== src/Interrupts/Tests.antt =====
-- Vector 0x21 of a table that was zero, and a page fault while the screen shows terminal 0.
use pony_os.Base.{ℕ, ◌+◌, ◌*◌, ◌<◌, ◌≤◌, ◌≡◌, ◌⊎◌, refl, arith, true, false, get_or, returns, codes}
use pony_os.Screen.{physical_page, set_active_terminal}
use pony_os.Screen.Cells.{num_cells}
use pony_os.Screen.Switch.{set_active_terminal-IsMapped}
use pony_os.Screen.Tests.{full}
use pony_os.Interrupts.{Handler, Gate, exception_pf, initialize_idt}
use pony_os.Interrupts.Vectors.{IsGate, target, initialize_idt-IsGate}
use pony_os.Interrupts.Exceptions.{Cpu, message, exception}
use pony_os.Interrupts.Exceptions.Shown.{exception_shown, exception_hidden}

abbrev pub no_gate : Gate
no_gate = record {
  offset_15_00 = 0;
  seg_selector = 0;
  reserved4 = 0;
  reserved3 = 0;
  reserved2 = 0;
  reserved1 = 0;
  size = 0;
  reserved0 = 0;
  dpl = 0;
  present = 0;
  offset_31_16 = 0;
}

abbrev pub addresses : Handler → ℕ
addresses h = 0x4012ab

initialize_idt-IsGate_example :
    let g = initialize_idt addresses (λ i. no_gate) 0x21 in IsGate 0x21 g × (target g ≡ 0x4012ab)
initialize_idt-IsGate_example =
    initialize_idt-IsGate addresses (λ h. omega arith) (λ i. no_gate) 0x21 (omega arith)

-- printf's cursor is where the boot messages left it, in row 3.
abbrev running : ℕ → Cpu
running t = record {
  interrupts = true;
  console = record { screen_x = 0; screen_y = 3; screen = set_active_terminal t full };
}

exception_shown_example :
    (cpu' : Cpu) × (exception 3072 0x7ff000 (λ i. 0) exception_pf (running 0) ≡ returns cpu')
    × (cpu'.interrupts ≡ false)
    × ((i : ℕ)
        → i < 14
        → cpu'.console.screen.memory (physical_page * 0x1000 + 2 * (240 + i))
          ≡ get_or (codes "14:Page-Fault!") i 0)
    × ((j : ℕ)
        → j < num_cells
        → (j < 240) ⊎ (254 ≤ j)
        → cpu'.console.screen.memory (physical_page * 0x1000 + 2 * j) ≡ b' ')
unfolding message set_active_terminal
exception_shown_example =
    exception_shown 3072 0x7ff000 (λ i. 0) exception_pf (running 0) (omega arith) (omega arith)
      (omega arith) (set_active_terminal-IsMapped 0 full) refl

exception_hidden_example :
    (cpu' : Cpu) × (exception 3072 0x7ff000 (λ i. 0) exception_pf (running 1) ≡ returns cpu')
    × (cpu'.interrupts ≡ false)
    × ((j : ℕ) → j < num_cells → cpu'.console.screen.memory (physical_page * 0x1000 + 2 * j) ≡ b' ')
unfolding message set_active_terminal
exception_hidden_example =
    exception_hidden 3072 0x7ff000 (λ i. 0) exception_pf (running 1) (omega arith) (omega arith)
      (omega arith) (set_active_terminal-IsMapped 1 full) (omega arith)
