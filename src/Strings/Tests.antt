-- ===== src/Strings/Tests.antt =====
-- The string "abc", copied.
use pony_os.Base.{ℕ, ◌+◌, ◌<◌, ◌≡◌, ◌≢◌, ◌==◌, if◌then◌else◌, some, refl, arith}
use pony_os.Memory.{Memory, load, translate}
use pony_os.Memory.Copy.{Apart, Separate, kernel-Distinct}
use pony_os.Strings.{c_string}
use pony_os.Strings.Copies.{strcpy, strcpy_lem}

abbrev pub text : Memory
text a =
    if a == 0x700000
    then b'a'
    else if a == 0x700001
    then b'b'
    else if a == 0x700002
    then b'c'
    else 0

letters : (i : ℕ) → i < 3 → load 3072 text (0x700000 + i) ≢ 0
unfolding load translate
letters i p = ground arith

regions : Separate 3072 0x600000 4 0x700000
unfolding translate
regions i j p q = ground arith

strcpy_lem_example :
    (m' : Memory) × (strcpy 3072 text 0x600000 0x700000 ≡ some m')
    × (c_string 3072 4 m' 0x600000 ≡ c_string 3072 4 text 0x700000)
    × ((b : ℕ) → Apart 3072 0x600000 4 b → load 3072 m' b ≡ load 3072 text b)
unfolding load translate
strcpy_lem_example =
    strcpy_lem 3072 3 text 0x600000 0x700000 (omega arith) refl letters regions
      (kernel-Distinct 3072 0x600000 4 (omega arith))
