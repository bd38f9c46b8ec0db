-- ===== src/Digits/Tests.antt =====
-- The number 2026 in decimal, and the string "abc" turned round.
use pony_os.Base.{ℕ, ◌≡◌, ◌==◌, if◌then◌else◌, some, arith}
use pony_os.Memory.{Memory, load}
use pony_os.Memory.Copy.{Apart, kernel-Distinct}
use pony_os.Strings.{c_string}
use pony_os.Digits.{itoa}
use pony_os.Digits.Value.{number}
use pony_os.Digits.RoundTrip.{itoa_lem}

abbrev text : Memory
text a =
    if a == 0x700000
    then b'a'
    else if a == 0x700001
    then b'b'
    else if a == 0x700002
    then b'c'
    else 0

itoa_lem_example :
    (m' : Memory) × (itoa 3072 text 2026 0x700000 10 ≡ some m')
    × (number 10 0 (c_string 3072 33 m' 0x700000) ≡ 2026)
    × ((b : ℕ) → Apart 3072 0x700000 33 b → load 3072 m' b ≡ load 3072 text b)
itoa_lem_example =
    itoa_lem 3072 text 2026 0x700000 10 (omega arith) (omega arith) (omega arith)
      (kernel-Distinct 3072 0x700000 33 (omega arith))
