-- ===== src/Pic/Masks.antt =====
-- Unmasking and masking an interrupt line changes just its bit.
use pony_os.Base.{
  ◌||◌, Each-at, Each, ℕ, ◌-◌, ◌/◌, ◌%◌, ◌^◌, ◌<◌, ◌≡◌, true, ◌==◌, ==_iff, ltb, if◌then◌else◌,
  refl, arith, passes, passes_at,
}
use pony_os.Pic.{i8259_init, Pic, clear_bit, set_bit, enable_irq, disable_irq}

-- Bit `n` of a mask: 1 for a line that is masked.
abbrev pub bit : ℕ → ℕ → ℕ
bit mask n = mask / 2 ^ n % 2

clear_bit_table :
    passes
      (λ m.
        passes (λ n. passes (λ k. bit (clear_bit m n) k == (if k == n then 0 else bit m k)) 8) 8)
      256
    ≡ true
unfolding passes clear_bit
clear_bit_table = refl

set_bit_table :
    passes
      (λ m. passes (λ n. passes (λ k. bit (set_bit m n) k == (if k == n then 1 else bit m k)) 8) 8)
      256
    ≡ true
unfolding passes set_bit
set_bit_table = refl

clear_bit_lem :
    (m n k : ℕ) → m < 256 → n < 8 → k < 8 → bit (clear_bit m n) k ≡ (if k == n then 0 else bit m k)
clear_bit_lem m n k p q r =
    (==_iff _ _).0 (passes_at _ 8 k (passes_at _ 8 n (passes_at _ 256 m clear_bit_table p) q) r)

set_bit_lem :
    (m n k : ℕ) → m < 256 → n < 8 → k < 8 → bit (set_bit m n) k ≡ (if k == n then 1 else bit m k)
set_bit_lem m n k p q r =
    (==_iff _ _).0 (passes_at _ 8 k (passes_at _ 8 n (passes_at _ 256 m set_bit_table p) q) r)

-- Whether line `k` of the sixteen is masked in the chips.
abbrev pub masked : Pic → ℕ → ℕ
masked p k = if ltb k 8 then bit p.master_port k else bit p.slave_port (k - 8)

abbrev pub HasMasks : Pic → Type 0
HasMasks p = (p.master_port < 256) × (p.slave_port < 256)

-- enable_irq unmasks its line and disable_irq masks it, and neither changes another line of the
-- sixteen; the kernel's copies of the masks are those of the chips afterwards.
pub irq_lem :
    (n k : ℕ) (p : Pic)
    → n < 16
    → k < 16
    → HasMasks p
    → (masked (enable_irq n p) k ≡ (if k == n then 0 else masked p k))
      × (masked (disable_irq n p) k ≡ (if k == n then 1 else masked p k))
      × ((enable_irq n p).master_mask ≡ (enable_irq n p).master_port)
      × ((enable_irq n p).slave_mask ≡ (enable_irq n p).slave_port)
unfolding enable_irq disable_irq
irq_lem n k p hn hk m = ground (
  arith,
  clear_bit_lem p.master_port n k m.0,
  set_bit_lem p.master_port n k m.0,
  clear_bit_lem p.slave_port (n - 8) (k - 8) m.1,
  set_bit_lem p.slave_port (n - 8) (k - 8) m.1,
)

-- The lines that the boot unmasks: the timer, the keyboard, the slave controller and the clock.
abbrev pub boot_masks : ℕ → ℕ
boot_masks k = if k == 0 || k == 1 || k == 2 || k == 8 then 0 else 1

boot_lines-Each :
    (p : Pic)
    → Each
        (λ k. masked (enable_irq 0 (enable_irq 8 (enable_irq 1 (i8259_init p)))) k ≡ boot_masks k)
        16
unfolding enable_irq i8259_init clear_bit bit
boot_lines-Each p = (
  (
    (
      (
        (
          (
            ((((((((((tt, refl), refl), refl), refl), refl), refl), refl), refl), refl), refl),
            refl,
          ),
          refl,
        ),
        refl,
      ),
      refl,
    ),
    refl,
  ),
  refl,
)

pub boot_lines :
    (p : Pic) (k : ℕ)
    → k < 16
    → masked (enable_irq 0 (enable_irq 8 (enable_irq 1 (i8259_init p)))) k ≡ boot_masks k
boot_lines p k h =
    Each-at
      (λ k. masked (enable_irq 0 (enable_irq 8 (enable_irq 1 (i8259_init p)))) k ≡ boot_masks k) 16
      k (boot_lines-Each p) h
