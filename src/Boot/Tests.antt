-- ===== src/Boot/Tests.antt =====
-- A machine whose tables and devices hold nothing.
use pony_os.Base.{ℕ, ◌<◌, ◌≡◌, arith, [], ◌^◌}
use pony_os.FileSystem.Tests.{disk, fs}
use pony_os.Interrupts.Tests.{no_gate, addresses}
use pony_os.Interrupts.{num_vec}
use pony_os.Interrupts.Vectors.{IsGate, target}
use pony_os.Keyboard.Tests.{held}
use pony_os.Paging.Translation.{physical, initial_map}
use pony_os.Pic.Tests.{started}
use pony_os.Pic.Masks.{masked, boot_masks}
use pony_os.Rtc.Tests.{clock}
use pony_os.Screen.Tests.{tables}
use pony_os.Terminal.Tests.{lines}
use pony_os.Boot.{SegDesc, Machine, boot}
use pony_os.Boot.Ready.{base, limit, boot_lem}

abbrev nothing : SegDesc
nothing = record {
  seg_lim_15_00 = 0;
  base_15_00 = 0;
  base_23_16 = 0;
  type = 0;
  sys = 0;
  dpl = 0;
  present = 0;
  seg_lim_19_16 = 0;
  avail = 0;
  reserved = 0;
  opsize = 0;
  granularity = 0;
  base_31_24 = 0;
}

abbrev off : Machine
off = record {
  ldt_desc = nothing;
  tss_desc = nothing;
  ldtr = 0;
  tr = 0;
  ldt_segment_selector = 0;
  ss0 = 0;
  esp0 = 0;
  pic = started;
  idt = λ i. no_gate;
  paging = tables;
  fs = fs;
  keys = held;
  terminals = lines;
  rtc = clock;
  timer = [];
}

abbrev on : Machine
on = boot addresses 0x412000 0x413000 0x414000 79 0x415000 104 nothing nothing 0x600000 disk off

boot_lem_example :
    ((k : ℕ) → k < 16 → masked on.pic k ≡ boot_masks k)
    × ((i : ℕ) → i < num_vec → IsGate i (on.idt i) × (target (on.idt i) ≡ 0x4012ab))
    × ((a : ℕ) → a < 2 ^ 32 → physical 0x412000 0x413000 on.paging a ≡ initial_map a)
    × (base on.ldt_desc ≡ 0x414000)
    × (limit on.ldt_desc ≡ 79)
    × (base on.tss_desc ≡ 0x415000)
    × (limit on.tss_desc ≡ 104)
    × ((t : ℕ) → t < 3 → (on.terminals.cursor_ind t ≡ 0) × (on.terminals.terminal_read_ready t ≡ 0))
boot_lem_example =
    boot_lem addresses (λ h. omega arith) 0x412000 0x413000 0x414000 79 0x415000 104 (omega arith)
      (omega arith) (omega arith) (omega arith) (omega arith) nothing nothing 0x600000 disk off
