-- ===== src/Boot/Information.antt =====
-- The first half of student-distrib/kernel.c's entry: what it prints of the boot loader's information,
-- and the module that it takes for the file system. Paging is off: an address is the same with this
-- number for the task's page, and the console's `video_page` is that of the video memory.
-- A message so far below the screen that it would reach the page 0xBC is outside of this.
use Prim.Native.String.{String}
use pony_os.Base.{
  ℕ, zero, suc, ◌+◌, ◌-◌, ◌/◌, ◌%◌, ◌^◌, Bool, ◌==◌, ltb, ◌&&◌, if◌then◌else◌, List, [], ◌∷◌, codes,
  get_or, Option, none, some, Outcome, returns, endless, and_then,
}
use pony_os.Boot.{SegDesc, Machine, boot}
use pony_os.Console.{Console, printf}
use pony_os.Interrupts.{Handler}
use pony_os.Memory.{Memory, load, load32}
use pony_os.Screen.{clear_on}

abbrev pub unpaged : ℕ
unpaged = 0x8000

abbrev pub multiboot_bootloader_magic : ℕ
multiboot_bootloader_magic = 0x2badb002

-- A step that prints.
abbrev pub Prints : Type 0 → Type 0
Prints A = Console → Outcome (A × Console)

infixl 5 ◌>>=◌
abbrev pub ◌>>=◌ : {A B : Type 0} → Prints A → (A → Prints B) → Prints B
◌>>=◌ m f con = and_then (m con) λ (a, con'). f a con'

abbrev pub done : {A : Type 0} → A → Prints A
done a con = returns (a, con)

abbrev pub word : ℕ → Prints ℕ
word a con = returns (load32 unpaged con.screen.memory a, con)

-- `*((char*)a)` as a word for printf.
abbrev pub char_word : ℕ → Prints ℕ
char_word a con =
    let c = load unpaged con.screen.memory a in
    returns (if ltb c 128 then c else 2 ^ 32 - 256 + c, con)

-- `conv_buf` is the address of printf's array, `addr` that of the information.
module _ (conv_buf addr : ℕ) where
  -- printf with these words behind the format, which has a conversion for each.
  pub say : String → List ℕ → Prints ℕ
  say format words con = printf unpaged conv_buf (codes format) (λ i. get_or words i 0) con

  -- `n` rounds of the loop over a module's first bytes.
  pub say_bytes : ℕ → ℕ → Prints ℕ
  unfolding say
  say_bytes zero a = done 0
  say_bytes (suc n) a = do c ← char_word a; printed ← say "0x%x " (c ∷ []); say_bytes n (a + 1)

  -- CHECK_FLAG(mbi->flags, bit)
  abbrev pub check_flag : ℕ → Prints Bool
  check_flag bit = word addr >>= λ flags. done (flags / 2 ^ bit % 2 == 1)

  -- `while (mod_count < mbi->mods_count)`, with `file_start` at the end of it.
  pub modules : ℕ → ℕ → ℕ → ℕ → Prints ℕ
  unfolding say_bytes
  modules zero mod_count entry_at file_start con = endless
  modules (suc fuel) mod_count entry_at file_start con =
      let rest = modules fuel (mod_count + 1) (entry_at + 16) in
      (do
        mods_count ← word (addr + 20)
        (if ltb mod_count mods_count
            then (do
              mod_start ← word entry_at
              loaded ← say "Module %d loaded at address: 0x%#x\n" (mod_count ∷ mod_start ∷ [])
              mod_start1 ← word entry_at
              mod_end ← word (entry_at + 4)
              ended ← say "Module %d ends at address: 0x%#x\n" (mod_count ∷ mod_end ∷ [])
              first ← say "First few bytes of module:\n" []
              mod_start2 ← word entry_at
              bytes ← say_bytes 16 mod_start2
              newline ← say "\n" []
              rest (if file_start == 0 then mod_start1 else file_start))
            else done file_start))
        con

  -- The loop over the memory map.
  pub memory_map : ℕ → ℕ → Prints ℕ
  unfolding say
  memory_map zero mmap con = endless
  memory_map (suc fuel) mmap con =
      let rest = memory_map fuel in
      (do
        mmap_length ← word (addr + 44)
        mmap_addr ← word (addr + 48)
        size ← word mmap
        base_addr_low ← word (mmap + 4)
        base_addr_high ← word (mmap + 8)
        length_low ← word (mmap + 12)
        length_high ← word (mmap + 16)
        type ← word (mmap + 20)
        (if ltb mmap ((mmap_addr + mmap_length) % 2 ^ 32)
            then (do
              line ←
                  say
                    "    size = 0x%x, base_addr = 0x%#x%#x\n    type = 0x%x,  length    = 0x%#x%#x\n"
                    (size ∷ base_addr_high ∷ base_addr_low ∷ type ∷ length_high ∷ length_low ∷ [])
              size1 ← word mmap
              rest ((mmap + size1 + 4) % 2 ^ 32))
            else done 0))
        con

  -- The flags 0 to 2.
  pub say_loader : Prints ℕ
  unfolding say
  say_loader = do
    flags ← word addr
    shown ← say "flags = 0x%#x\n" (flags ∷ [])
    memory ← check_flag 0
    mem_lower ← word (addr + 4)
    mem_upper ← word (addr + 8)
    shown0 ←
        (if memory
          then say "mem_lower = %uKB, mem_upper = %uKB\n" (mem_lower ∷ mem_upper ∷ [])
          else done 0)
    device ← check_flag 1
    boot_device ← word (addr + 12)
    shown1 ← (if device then say "boot_device = 0x%#x\n" (boot_device ∷ []) else done 0)
    command ← check_flag 2
    cmdline ← word (addr + 16)
    (if command then say "cmdline = %s\n" (cmdline ∷ []) else done 0)

  -- Flag 5, the section header table, and flag 6, the memory map.
  pub say_sections : Prints ℕ
  unfolding memory_map
  say_sections = do
    sections ← check_flag 5
    num ← word (addr + 28)
    size ← word (addr + 32)
    at ← word (addr + 36)
    shndx ← word (addr + 40)
    shown ←
        (if sections
          then say "elf_sec: num = %u, size = 0x%#x, addr = 0x%#x, shndx = 0x%#x\n"
              (num ∷ size ∷ at ∷ shndx ∷ [])
          else done 0)
    map ← check_flag 6
    mmap_length ← word (addr + 44)
    mmap_addr ← word (addr + 48)
    (if map
        then (do
          line ← say "mmap_addr = 0x%#x, mmap_length = 0x%x\n" (mmap_addr ∷ mmap_length ∷ [])
          mmap ← word (addr + 48)
          memory_map (2 ^ 32) mmap)
        else done 0)

  -- clear writes at physical_video_mem, the page 0xBC, which is not mapped to the displayed one yet.
  -- entry up to the descriptors: the start of the file system, which keeps its value without a module
  -- list, or `none` when entry returns.
  pub information : ℕ → ℕ → Prints (Option ℕ)
  unfolding modules say_loader say_sections
  information magic file_start con =
      (if magic == multiboot_bootloader_magic
          then (do
            loader ← say_loader
            list ← check_flag 3
            mods_addr ← word (addr + 24)
            start ← (if list then modules (2 ^ 32) 0 mods_addr 0 else done file_start)
            bit4 ← check_flag 4
            bit5 ← check_flag 5
            (if bit4 && bit5
                then (say "Both bits 4 and 5 are set.\n" [] >>= λ shown. done none)
                else (say_sections >>= λ shown. done (some start))))
          else (say "Invalid magic number: 0x%#x\n" (magic ∷ []) >>= λ shown. done none))
        (record con { screen = clear_on 0xbc con.screen })

  -- entry with the second half, up to the line that says that interrupts are enabled. Where the linker
  -- has put the tables, and what was in the two descriptors, are as in Boot.
  module _ (address : Handler → ℕ)
      (page_table_address user_video_page_table_address ldt ldt_size tss tss_size : ℕ)
      (d d' : SegDesc) where
    abbrev pub started : ℕ → Machine → Memory → Machine
    started file_start m memory =
        boot address page_table_address user_video_page_table_address ldt ldt_size tss tss_size d d'
          file_start memory m

    pub entry : ℕ → ℕ → Machine → Prints (Option Machine)
    unfolding information
    entry magic file_start m con = and_then (information magic file_start con) λ (start, con1).
        elim start [
          | none ↦ returns (none, con1)
          | some at ↦
              let m1 = started at m con1.screen.memory in
              let con2 = record con1 { screen = record (con1.screen) { paging = m1.paging } } in
              (say "Enabling Interrupts\n" [] >>= λ shown. done (some m1)) con2
        ]
