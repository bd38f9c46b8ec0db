-- ===== src/Boot/Ready.antt =====
-- What holds when student-distrib/kernel.c's entry enables interrupts.
use pony_os.Base.{ℕ, ◌+◌, ◌*◌, ◌/◌, ◌^◌, ◌<◌, ◌≡◌, ◌≢◌, arith}
use pony_os.Memory.{Memory}
use pony_os.Paging.Translation.{physical, initial_map, physical-paging_init}
use pony_os.Pic.Masks.{masked, boot_masks, boot_lines}
use pony_os.Rtc.{rtc_init}
use pony_os.Keyboard.{keyboard_init}
use pony_os.Scheduler.{pit_init}
use pony_os.Interrupts.{Handler, num_vec}
use pony_os.Interrupts.Vectors.{IsGate, target, handler_of, initialize_idt-IsGate}
use pony_os.Boot.{
  SegDesc, set_params, the_ldt_desc, the_tss_desc, Machine, load_descriptors, init_devices, boot,
}

-- The address and the limit that the processor reads in a descriptor.
abbrev pub base : SegDesc → ℕ
base d = d.base_31_24 * 2 ^ 24 + d.base_23_16 * 2 ^ 16 + d.base_15_00

abbrev pub limit : SegDesc → ℕ
limit d = d.seg_lim_19_16 * 2 ^ 16 + d.seg_lim_15_00

base-set_params : (d : SegDesc) (addr lim : ℕ) → addr < 2 ^ 32 → base (set_params d addr lim) ≡ addr
unfolding set_params
base-set_params d addr lim h = omega arith

limit-set_params : (d : SegDesc) (addr lim : ℕ) → lim < 2 ^ 20 → limit (set_params d addr lim) ≡ lim
unfolding set_params
limit-set_params d addr lim h = omega arith

module _ (address : Handler → ℕ) (low : (h : Handler) → address h < 2 ^ 32)
    (page_table_address user_video_page_table_address ldt ldt_size tss tss_size : ℕ)
    (apart : page_table_address / 2 ^ 12 ≢ user_video_page_table_address / 2 ^ 12)
    (ldt_low : ldt < 2 ^ 32) (ldt_short : ldt_size < 2 ^ 20) (tss_low : tss < 2 ^ 32)
    (tss_short : tss_size < 2 ^ 20) where
  -- Whatever state the machine was in: when the init functions have run, just the lines of the
  -- timer, the keyboard, the slave controller and the clock are unmasked; every vector's gate leads
  -- to its handler; the tables map each address as the kernel expects; the two descriptors hold the
  -- addresses and the limits of the LDT and the TSS; and the three lines of input are empty.
  pub boot_lem :
      (d d' : SegDesc) (file_start : ℕ) (memory : Memory) (m : Machine)
      → let m' =
          boot address page_table_address user_video_page_table_address ldt ldt_size tss tss_size d
            d' file_start memory m in
        ((k : ℕ) → k < 16 → masked m'.pic k ≡ boot_masks k)
        × ((i : ℕ)
            → i < num_vec
            → IsGate i (m'.idt i) × (target (m'.idt i) ≡ address (handler_of i)))
        × ((a : ℕ)
            → a < 2 ^ 32
            → physical page_table_address user_video_page_table_address m'.paging a ≡ initial_map a)
        × (base m'.ldt_desc ≡ ldt)
        × (limit m'.ldt_desc ≡ ldt_size)
        × (base m'.tss_desc ≡ tss)
        × (limit m'.tss_desc ≡ tss_size)
        × ((t : ℕ)
            → t < 3
            → (m'.terminals.cursor_ind t ≡ 0) × (m'.terminals.terminal_read_ready t ≡ 0))
  unfolding boot init_devices load_descriptors keyboard_init rtc_init pit_init
  boot_lem d d' file_start memory m = (
    λ k h. boot_lines m.pic k h,
    λ i h. initialize_idt-IsGate address low m.idt i h,
    λ a h. physical-paging_init page_table_address user_video_page_table_address apart m.paging a h,
    base-set_params (the_ldt_desc d) ldt ldt_size ldt_low,
    limit-set_params (the_ldt_desc d) ldt ldt_size ldt_short,
    base-set_params (the_tss_desc d') tss tss_size tss_low,
    limit-set_params (the_tss_desc d') tss tss_size tss_short,
    λ t h. (ground arith, ground arith),
  )
