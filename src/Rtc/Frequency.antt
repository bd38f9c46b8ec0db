-- ===== src/Rtc/Frequency.antt =====
-- Which frequencies rtc_write accepts, and what it makes of them.
use native.Mathlib.Numerals.{add-one}
use native.Mathlib.Decide.{ℕ_discrete}
use native.Mathlib.Nat.{pow-suc}
use pony_os.Base.{
  ltb, leb, ℕ, zero, suc, ◌+◌, ◌-◌, ◌*◌, ◌/◌, ◌%◌, ◌^◌, ◌≤◌, ◌<◌, ◌≡◌, ◌↔◌, refl, ◌∙◌, true, false,
  ◌&&◌, some, leb, ◌==◌, ==_iff, pos, arith, passes, passes_at,
}
use pony_os.Rtc.{Rtc, max_freq, with_rate, bit_length, rate_of, set_freq, has_low_bit, rtc_write}

has_low_bit-true : (fuel temp : ℕ) → has_low_bit fuel temp true ≡ true
unfolding has_low_bit
has_low_bit-true zero temp = refl
has_low_bit-true (suc fuel) temp = ground (arith, has_low_bit-true fuel (temp / 2))

pow_pos : (k : ℕ) → 0 < 2 ^ k
pow_pos zero = omega arith
pow_pos (suc k) = omega (arith, pow-suc 2 k, pow_pos k)

pow_half : (k : ℕ) → 2 ^ suc k ≡ 2 ^ k + 2 ^ k
pow_half k = omega (arith, pow-suc 2 k)

-- The loop passes the powers of two, and no other number.
has_low_bit-false :
    (fuel temp : ℕ)
    → temp ≤ fuel
    → 0 < temp
    → has_low_bit fuel temp false ≡ false
    → (k : ℕ) × (temp ≡ 2 ^ k)
unfolding has_low_bit
has_low_bit-false zero temp p q e = absurd (omega arith)
has_low_bit-false (suc fuel) temp p q e = elim (ℕ_discrete temp 1) [
  | yes single ↦ (0, single)
  | no more ↦
      let even : temp % 2 ≡ 0 = ground (arith, has_low_bit-true fuel (temp / 2)) in
      let (k, e') = has_low_bit-false fuel (temp / 2) (omega arith) (omega arith) (ground arith) in
      (suc k, omega (arith, pow_half k))
]

has_low_bit_zero : (fuel : ℕ) → has_low_bit fuel 0 false ≡ false
unfolding has_low_bit
has_low_bit_zero zero = refl
has_low_bit_zero (suc fuel) = refl

has_low_bit-pow : (k fuel : ℕ) → 2 ^ k ≤ fuel → has_low_bit fuel (2 ^ k) false ≡ false
unfolding has_low_bit
has_low_bit-pow zero zero h = absurd (omega arith)
has_low_bit-pow zero (suc fuel) h = has_low_bit_zero fuel
has_low_bit-pow (suc k) zero h = absurd (omega (arith, pow_half k, pow_pos k))
has_low_bit-pow (suc k) (suc fuel) h =
    let half : 2 ^ suc k / 2 ≡ 2 ^ k = omega (arith, pow_half k) in
    ground (
      arith,
      half,
      pow_half k,
      pow_pos k,
      has_low_bit-pow k fuel (omega (arith, pow_half k, pow_pos k)),
    )

-- Up to 1024 Hz a frequency is accepted exactly when it is a power of two.
pub rtc_write_accepts :
    (f : ℕ) (r : Rtc)
    → 0 < f
    → f ≤ max_freq
    → ((rtc_write (some f) 4 r).0 ≡ pos 0) ↔ ((k : ℕ) × (f ≡ 2 ^ k))
unfolding rtc_write
rtc_write_accepts f r h k = (
  λ e. has_low_bit-false f f (omega arith) h (ground arith),
  λ (n, e). ground (arith, has_low_bit-pow n f (omega arith)),
)

-- The rate that goes with 2 ^ k, and the store of a rate of four bits.
rate_table : passes (λ i. rate_of (bit_length (2 ^ (i + 1)) (2 ^ (i + 1)) 0) == 15 - i) 10 ≡ true
unfolding passes bit_length
rate_table = refl

with_rate_table :
    passes (λ prev. passes (λ rate. with_rate prev rate == prev / 16 * 16 + rate) 16) 256 ≡ true
unfolding passes with_rate
with_rate_table = refl

rate_lem : (k : ℕ) → 0 < k → k ≤ 10 → rate_of (bit_length (2 ^ k) (2 ^ k) 0) ≡ 16 - k
rate_lem zero p q = absurd (omega arith)
rate_lem (suc i) p q =
    let table = (==_iff _ _).0 (passes_at _ 10 i rate_table (omega arith)) in
    rw add-one at table ∙ omega arith

with_rate_lem :
    (prev rate : ℕ) → prev < 256 → rate < 16 → with_rate prev rate ≡ prev / 16 * 16 + rate
with_rate_lem prev rate p q =
    (==_iff _ _).0 (passes_at _ 16 rate (passes_at _ 256 prev with_rate_table p) q)

pow_table : passes (λ k. leb (2 ^ k) 1024 && (2 ^ k * 2 ^ (15 - k) == 2 ^ 15)) 11 ≡ true
unfolding passes
pow_table = refl

pow-le : (k : ℕ) → k ≤ 10 → (2 ^ k ≤ 1024) × (2 ^ k * 2 ^ (15 - k) ≡ 2 ^ 15)
pow-le k h = let table = passes_at _ 11 k pow_table (omega arith) in (ground arith, ground arith)

rtc_write_pow :
    (k : ℕ) (r : Rtc) → k ≤ 10 → rtc_write (some (2 ^ k)) 4 r ≡ (pos 0, set_freq (2 ^ k) r)
unfolding rtc_write
rtc_write_pow k r h = ground (arith, pow-le k h, pow_pos k, has_low_bit-pow k (2 ^ k) (omega arith))

set_freq_pow :
    (k : ℕ) (r : Rtc)
    → 0 < k
    → k ≤ 10
    → r.register_a < 256
    → (set_freq (2 ^ k) r).register_a ≡ r.register_a / 16 * 16 + (16 - k)
unfolding set_freq
set_freq_pow k r p q h = rw (rate_lem k p q) (with_rate_lem r.register_a (16 - k) h (omega arith))

-- From 2 Hz to 1024 Hz, rtc_write of a power of two stores the rate for which the chip divides its
-- 32768 Hz by 2 ^ (rate - 1), which is the frequency that was asked for, in the low half of register
-- A, and leaves the high half as it was.
pub rtc_write_rate :
    (k : ℕ) (r : Rtc)
    → 0 < k
    → k ≤ 10
    → r.register_a < 256
    → let (res, r') = rtc_write (some (2 ^ k)) 4 r in
      (res ≡ pos 0)
      × (r'.register_a % 16 ≡ 16 - k)
      × (2 ^ k * 2 ^ (r'.register_a % 16 - 1) ≡ 2 ^ 15)
      × (r'.register_a / 16 ≡ r.register_a / 16)
rtc_write_rate k r p q h =
    let stored = set_freq_pow k r p q h in
    let low : (set_freq (2 ^ k) r).register_a % 16 ≡ 16 - k = omega arith in
    let less : 16 - k - 1 ≡ 15 - k = omega arith in
    rw (rtc_write_pow k r q) (refl, low, rw (low, less) (pow-le k q).1, omega arith)

-- Above the limit every frequency is accepted, a power of two or not, and set as it was given: the
-- test is made on the clamped value only.
pub rtc_write_above :
    (f : ℕ) (r : Rtc) → max_freq < f → f < 2 ^ 31 → rtc_write (some f) 4 r ≡ (pos 0, set_freq f r)
unfolding rtc_write
rtc_write_above f r p q =
    let above : ltb max_freq f ≡ true = ground arith in
    let positive : f == 0 ≡ false = ground arith in
    let signed : leb (2 ^ 31) f ≡ false = ground arith in rw (above, positive, signed) refl

one_table : passes (λ a. with_rate a 16 % 16 == 0) 256 ≡ true
unfolding passes with_rate
one_table = refl

-- The frequency 1 is accepted and stops the periodic interrupts: its rate has five bits, so the
-- chip's rate becomes 0.
pub rtc_write_one :
    (r : Rtc)
    → r.register_a < 256
    → ((rtc_write (some 1) 4 r).0 ≡ pos 0) × ((rtc_write (some 1) 4 r).1.register_a % 16 ≡ 0)
unfolding set_freq
rtc_write_one r h =
    rw (rtc_write_pow 0 r (omega arith))
      (refl, (==_iff _ _).0 (passes_at _ 256 r.register_a one_table h))
