-- ===== src/Rtc/Tests.antt =====
-- The clock after rtc_init, and some frequencies.
use pony_os.Base.{ℕ, ◌*◌, ◌-◌, ◌/◌, ◌%◌, ◌^◌, ◌≡◌, ◌↔◌, some, pos, arith}
use pony_os.Rtc.{Rtc, rtc_write}
use pony_os.Rtc.Frequency.{rtc_write_accepts, rtc_write_rate}

abbrev pub clock : Rtc
clock = record { next_interrupt = 0; register_a = 0x26; register_b = 0x42; register_c = 0 }

rtc_write_accepts_example : ((rtc_write (some 96) 4 clock).0 ≡ pos 0) ↔ ((k : ℕ) × (96 ≡ 2 ^ k))
rtc_write_accepts_example = rtc_write_accepts 96 clock (omega arith) (omega arith)

rtc_write_rate_example :
    let (res, r') = rtc_write (some 8) 4 clock in
    (res ≡ pos 0)
    × (r'.register_a % 16 ≡ 13)
    × (8 * 2 ^ (r'.register_a % 16 - 1) ≡ 2 ^ 15)
    × (r'.register_a / 16 ≡ 2)
rtc_write_rate_example = rtc_write_rate 3 clock (omega arith) (omega arith) (omega arith)
