-- ===== src/Pic.antt =====
-- student-distrib/i8259.c: the two interrupt controllers. A data port holds the mask that was last
-- written to it; `commands` are the bytes written to the command
-- ports, and the initialisation words, newest first.
pub mod Masks
pub mod Tests
use Prim.Native.Nat.{bit_and, bit_or}
use pony_os.Base.{ℕ, ◌+◌, ◌-◌, ◌%◌, ◌^◌, List, [], ◌∷◌, ltb, ◌==◌, if◌then◌else◌}

pub record Pic : Type 0 where
  pub master_port : ℕ
  pub slave_port : ℕ
  pub master_mask : ℕ
  pub slave_mask : ℕ
  pub commands : List (ℕ × ℕ)

abbrev pub master_8259_port : ℕ
master_8259_port = 0x20

abbrev pub slave_8259_port : ℕ
slave_8259_port = 0xa0

abbrev pub master_8259_data : ℕ
master_8259_data = 0x21

abbrev pub slave_8259_data : ℕ
slave_8259_data = 0xa1

-- EOI of i8259.h.
abbrev pub eoi : ℕ
eoi = 0x60

-- `master_mask = inb(MASTER_8259_DATA); slave_mask = inb(SLAVE_8259_DATA);`
abbrev pub read_masks : Pic → Pic
read_masks p = record p { master_mask = p.master_port; slave_mask = p.slave_port }

-- ICW1 to ICW4 go to the two chips: the second word is where their vectors start. The two masks are
-- the last writes to the data ports.
pub i8259_init : Pic → Pic
i8259_init p = read_masks (record p {
  master_port = 0xfb;
  slave_port = 0xff;
  commands =
      (slave_8259_data, 0x01)
      ∷ (master_8259_data, 0x01)
      ∷ (slave_8259_data, 0x02)
      ∷ (master_8259_data, 0x04)
      ∷ (slave_8259_data, 0x28)
      ∷ (master_8259_data, 0x20)
      ∷ (slave_8259_port, 0x11)
      ∷ (master_8259_port, 0x11)
      ∷ p.commands;
})

-- `if (mask & bit) mask -= bit;` and `if (!(mask & bit)) mask += bit;` on a uint8_t.
pub clear_bit : ℕ → ℕ → ℕ
clear_bit mask n = if bit_and mask (2 ^ n) == 0 then mask else (mask - 2 ^ n) % 256

pub set_bit : ℕ → ℕ → ℕ
set_bit mask n = if bit_and mask (2 ^ n) == 0 then (mask + 2 ^ n) % 256 else mask

pub enable_irq : ℕ → Pic → Pic
unfolding clear_bit
enable_irq irq_num p =
    if ltb irq_num 8
    then read_masks (record p { master_port = clear_bit p.master_port irq_num })
    else read_masks (record p { slave_port = clear_bit p.slave_port (irq_num - 8) })

pub disable_irq : ℕ → Pic → Pic
unfolding set_bit
disable_irq irq_num p =
    if ltb irq_num 8
    then read_masks (record p { master_port = set_bit p.master_port irq_num })
    else read_masks (record p { slave_port = set_bit p.slave_port (irq_num - 8) })

pub send_eoi : ℕ → Pic → Pic
send_eoi irq_num p =
    if ltb irq_num 8
    then record p { commands = (master_8259_port, bit_or eoi irq_num % 256) ∷ p.commands }
    else record p {
      commands =
          (master_8259_port, bit_or eoi 2)
          ∷ (slave_8259_port, bit_or eoi (irq_num - 8) % 256)
          ∷ p.commands;
    }
