-- ===== src/Programs/Errors/Tests.antt =====
-- The tests of syscalls/ece391syserr.c on the kernel of Process/Tests. Its memory holds the string "."
-- and one other, which stands for all of the messages and for the names that are not found.
use Prim.Native.String.{String, len}
use pony_os.Base.{
  ℕ, zero, suc, ◌+◌, ◌*◌, ◌≤◌, ◌<◌, ◌≡◌, ◌==◌, if◌then◌else◌, Bool-cases, inl, inr, refl, arith,
  Option, some, List, [], ◌∷◌, pos, minus_one, returns, ℤ,
}
use pony_os.FileSystem.{Dentry, no_dentry, read_dentry_by_name, dentry_at}
use pony_os.FileSystem.Lookup.{first_named, read_dentry_by_name_lem}
use pony_os.FileSystem.Tests.{fs, disk, dot_name, task, entries_end}
use pony_os.Memory.{load, translate}
use pony_os.Process.{Kernel, fdt_size, initial_files}
use pony_os.Process.Tests.{kernel, no_file}
use pony_os.Scheduler.{Registers}
use pony_os.Screen.{puts_scroll}
use pony_os.Screen.Tests.{full-InRange}
use pony_os.Strings.{strlen, strlen_loop, c_string, same}
use pony_os.SystemCall.Files.{IsReady, initial_files-IsReady}
use pony_os.UserLibrary.Compare.{IsString}
use pony_os.Programs.Errors.{run_all}
use pony_os.Programs.Errors.Steady.{IsTestable}
use pony_os.Programs.Errors.Suite.{all_lines, run_all_lem}

abbrev literal : String → ℕ
literal s = if len s == 1 then dot_name else 0x700001

abbrev chars : String → List ℕ
chars s = if len s == 1 then b'.' ∷ [] else b'i' ∷ []

literal-IsString : (s : String) → IsString task disk (literal s) (chars s)
unfolding disk load
literal-IsString s = elim (Bool-cases (len s == 1)) [
  | inl dot ↦ rw dot (record {
    chars = λ i p. ground arith;
    held = λ i p. let e : i ≡ 0 = omega arith in rw e refl;
    end = refl;
  })
  | inr other ↦ rw other (record {
    chars = λ i p. ground arith;
    held = λ i p. let e : i ≡ 0 = omega arith in rw e refl;
    end = refl;
  })
]

kernel-IsTestable : IsTestable literal chars kernel 1
unfolding translate initial_files strlen strlen_loop load disk
kernel-IsTestable = record {
  current = refl;
  ready = (initial_files-IsReady (λ i. no_file)).0;
  free = (initial_files-IsReady (λ i. no_file)).1;
  range = full-InRange;
  low = omega arith;
  strings = literal-IsString;
  short = λ s. elim (Bool-cases (len s == 1)) [
    | inl dot ↦ rw dot (omega arith)
    | inr other ↦ rw other (omega arith)
  ];
  strings_off = λ s i p. elim (Bool-cases (len s == 1)) [
    | inl dot ↦ rw dot (ground arith)
    | inr other ↦ rw other (ground arith)
  ];
  names_end = names_end;
  entries_off = λ j i p q. ground arith;
}
  where
    names_end :
        (j : ℕ) → j < 2 → (l : ℕ) × (l < 64) × (strlen task disk (fs.dir_table + 64 * j) ≡ some l)
    names_end zero p = (1, omega arith, refl)
    names_end (suc zero) p = (2, omega arith, refl)
    names_end (suc (suc j)) p = absurd (omega arith)

abbrev look : String → Option (ℤ × Dentry)
look s = read_dentry_by_name task fs disk (literal s) no_dentry

dot_found : look "." ≡ some (pos 0, dentry_at task fs disk 0)
unfolding first_named same c_string strlen strlen_loop load disk
dot_found =
    read_dentry_by_name_lem task fs disk dot_name no_dentry (1, omega arith, refl) entries_end

not_found : read_dentry_by_name task fs disk 0x700001 no_dentry ≡ some (minus_one, no_dentry)
unfolding first_named same c_string strlen strlen_loop load disk
not_found =
    read_dentry_by_name_lem task fs disk 0x700001 no_dentry (1, omega arith, refl) entries_end

abbrev registers : Registers
registers = record { esp = 0; ebp = 0 }

run_all_lem_example :
    (k' : Kernel) × (run_all literal 0x8048000 0 0 0 0 0 0 registers kernel ≡ returns (0, k'))
    × (k'.screen ≡ puts_scroll (all_lines chars) kernel.screen)
    × IsReady (k'.pcbs 1).file_array
    × ((i : ℕ) → 2 ≤ i → i < fdt_size → ((k'.pcbs 1).file_array i).flags ≡ 0)
run_all_lem_example =
    run_all_lem literal chars kernel 1 0x8048000 0 0 0 0 0 0 registers _ kernel-IsTestable dot_found
      not_found not_found not_found
