-- ===== src/UserLibrary/Tests.antt =====
-- "abc" compared with "bc", and the name "hi" of the disk printed.
use pony_os.Base.{
  returns, ℕ, zero, suc, ◌<◌, ◌≡◌, some, [], ◌∷◌, List, negsuc, is_zero, refl, arith, ◌+◌, get_or,
}
use pony_os.Memory.{load, translate}
use pony_os.Strings.{same}
use pony_os.Strings.Tests.{text}
use pony_os.Terminal.Read.{AreChars}
use pony_os.FileSystem.Tests.{disk}
use pony_os.Process.{Kernel}
use pony_os.Process.Tests.{kernel}
use pony_os.Screen.{puts_scroll}
use pony_os.SystemCall.Files.{initial_files-IsReady}
use pony_os.UserLibrary.{strcmp, fdputs}
use pony_os.UserLibrary.Print.{fdputs_lem}
use pony_os.UserLibrary.Compare.{IsString, strcmp_lem}

abbrev abc : List ℕ
abc = b'a' ∷ b'b' ∷ b'c' ∷ []

abbrev bc : List ℕ
bc = b'b' ∷ b'c' ∷ []

abc-IsString : IsString 3072 text 0x700000 abc
unfolding load translate
abc-IsString = record { chars = λ i p. chars i p; held = λ i p. held i p; end = refl }
  where
    chars : AreChars abc
    chars zero p = omega arith
    chars (suc zero) p = omega arith
    chars (suc (suc zero)) p = omega arith
    chars (suc (suc (suc i))) p = absurd (omega arith)

    held : (i : ℕ) → i < 3 → load 3072 text (0x700000 + i) ≡ get_or abc i 0
    held zero p = refl
    held (suc zero) p = refl
    held (suc (suc zero)) p = refl
    held (suc (suc (suc i))) p = absurd (omega arith)

bc-IsString : IsString 3072 text 0x700001 bc
unfolding load translate
bc-IsString = record { chars = λ i p. chars i p; held = λ i p. held i p; end = refl }
  where
    chars : AreChars bc
    chars zero p = omega arith
    chars (suc zero) p = omega arith
    chars (suc (suc i)) p = absurd (omega arith)

    held : (i : ℕ) → i < 2 → load 3072 text (0x700001 + i) ≡ get_or bc i 0
    held zero p = refl
    held (suc zero) p = refl
    held (suc (suc i)) p = absurd (omega arith)

strcmp_lem_example :
    (strcmp 3072 text 0x700000 0x700001 ≡ some (negsuc 0)) × (is_zero (negsuc 0) ≡ same abc bc)
strcmp_lem_example =
    strcmp_lem 3072 text abc bc 0x700000 0x700001 (omega arith) abc-IsString bc-IsString

abbrev name : List ℕ
name = b'h' ∷ b'i' ∷ []

name-IsString : IsString 3072 disk 0x600080 name
unfolding load translate disk
name-IsString = record { chars = λ i p. chars i p; held = λ i p. held i p; end = refl }
  where
    chars : AreChars name
    chars zero p = omega arith
    chars (suc zero) p = omega arith
    chars (suc (suc i)) p = absurd (omega arith)

    held : (i : ℕ) → i < 2 → load 3072 disk (0x600080 + i) ≡ get_or name i 0
    held zero p = refl
    held (suc zero) p = refl
    held (suc (suc i)) p = absurd (omega arith)

fdputs_lem_example :
    (k' : Kernel) × (fdputs kernel 1 0x600080 ≡ returns k')
    × (k'.screen ≡ puts_scroll name kernel.screen)
    × (k'.pcbs ≡ kernel.pcbs)
fdputs_lem_example =
    fdputs_lem kernel 1 0x600080 name refl (initial_files-IsReady _).0 name-IsString (omega arith)
