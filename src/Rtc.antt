-- ===== src/Rtc.antt =====
-- student-distrib/rtc.c: the real-time clock. The chip is its registers A and B, each read and
-- written behind a write of its number to the index port, and register C, whose flags a read clears.
pub mod Frequency
pub mod Tests
use Prim.Native.Nat.{bit_and, bit_or}
use pony_os.Base.{
  ℕ, zero, suc, ◌+◌, ◌-◌, ◌/◌, ◌%◌, ◌^◌, Bool, true, false, not, ◌&&◌, ◌||◌, Option, none, some,
  ltb, leb, ◌==◌, if◌then◌else◌, ℤ, pos, minus_one, Outcome, returns, waits,
}
use pony_os.Pic.{Pic, enable_irq, send_eoi}

pub record Rtc : Type 0 where
  pub next_interrupt : ℕ
  pub register_a : ℕ
  pub register_b : ℕ
  pub register_c : ℕ

abbrev pub max_freq : ℕ
max_freq = 1024

-- (prev & 0xF0) | rate, as the byte that outb writes; `rate` is an int32_t pattern.
pub with_rate : ℕ → ℕ → ℕ
with_rate prev rate = bit_or (bit_and prev 0xf0) rate % 256

-- The interrupts stay off meanwhile; line 8 is unmasked at the end.
unfoldable pub rtc_init : Rtc → Pic → Rtc × Pic
unfolding with_rate
rtc_init r pic = (
  record r {
    next_interrupt = 0;
    register_a = with_rate 0x20 6;
    register_b = bit_or r.register_b 0x40 % 256;
  },
  enable_irq 8 pic,
)

-- The read of register C drops its value. interruption_test does nothing.
pub rtc_interrupt_handler : Rtc → Pic → Rtc × Pic
rtc_interrupt_handler r pic = (record r { next_interrupt = 1; register_c = 0 }, send_eoi 8 pic)

-- `while (freq > 0) { freq >>= 1; pwr++; }`, from pwr + 1 = `n` on. The fuel is freq itself.
pub bit_length : ℕ → ℕ → ℕ → ℕ
bit_length zero freq n = n
bit_length (suc fuel) freq n =
    let rest = bit_length fuel (freq / 2) (n + 1) in if freq == 0 then n else rest

-- rate = 15 - pwr + 1 as an int32_t pattern, with `n` = pwr + 1.
abbrev pub rate_of : ℕ → ℕ
rate_of n = (2 ^ 32 + 17 - n) % 2 ^ 32

pub set_freq : ℕ → Rtc → Rtc
unfolding bit_length with_rate
set_freq freq r = record r {
  register_a = with_rate r.register_a (rate_of (bit_length freq freq 0));
}

pub rtc_open : Rtc → ℤ × Rtc
unfolding set_freq
rtc_open r = (pos 0, set_freq 2 r)

pub rtc_close : ℤ
rtc_close = pos 0

-- The busy wait ends when the handler has run.
pub rtc_read : Rtc → Outcome (ℤ × Rtc)
rtc_read r =
    if r.next_interrupt == 0 then waits else returns (pos 0, record r { next_interrupt = 0 })

-- The loop that looks for a bit beside the highest: `flag` at its end.
pub has_low_bit : ℕ → ℕ → Bool → Bool
has_low_bit zero temp flag = flag
has_low_bit (suc fuel) temp flag =
    let rest = has_low_bit fuel (temp / 2) (flag || (not (temp % 2 == 0) && not (temp == 1))) in
    if temp == 0 then flag else rest

-- The clamped value is tested, and the value as given is set. `freq` is what the pointer leads to,
-- an int32_t pattern, or `none` for NULL.
pub rtc_write : Option ℕ → ℕ → Rtc → ℤ × Rtc
unfolding set_freq has_low_bit
rtc_write none size r = (minus_one, r)
rtc_write (some freq) size r =
    let temp = if ltb max_freq freq then max_freq else freq in
    if not (size == 4)
    then (minus_one, r)
    else if freq == 0 || leb (2 ^ 31) freq
    then (minus_one, r)
    else if has_low_bit temp temp false
    then (minus_one, r)
    else (pos 0, set_freq freq r)
