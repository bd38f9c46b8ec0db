-- ===== src/Boot.antt =====
-- The second half of student-distrib/kernel.c's entry: the descriptors of the LDT and the TSS, and
-- the calls of the init functions. Boot/Information is the first half.
pub mod Ready
pub mod Information
mod Tests
use pony_os.Base.{ℕ, ◌+◌, ◌*◌, ◌/◌, ◌%◌, ◌^◌, List}
use pony_os.Memory.{Memory}
use pony_os.FileSystem.{FileSystem, filesys_init}
use pony_os.Paging.{Paging, paging_init}
use pony_os.Pic.{Pic, i8259_init}
use pony_os.Rtc.{Rtc, rtc_init}
use pony_os.Terminal.{Terminals}
use pony_os.Keyboard.{Keys, keyboard_init}
use pony_os.Scheduler.{pit_init}
use pony_os.Interrupts.{Handler, Gate, initialize_idt}

-- seg_desc_t.
pub record SegDesc : Type 0 where
  pub seg_lim_15_00 : ℕ
  pub base_15_00 : ℕ
  pub base_23_16 : ℕ
  pub type : ℕ
  pub sys : ℕ
  pub dpl : ℕ
  pub present : ℕ
  pub seg_lim_19_16 : ℕ
  pub avail : ℕ
  pub reserved : ℕ
  pub opsize : ℕ
  pub granularity : ℕ
  pub base_31_24 : ℕ

-- The macros SET_LDT_PARAMS and SET_TSS_PARAMS.
pub set_params : SegDesc → ℕ → ℕ → SegDesc
set_params d addr lim = record d {
  base_31_24 = addr % 2 ^ 32 / 2 ^ 24;
  base_23_16 = addr % 2 ^ 24 / 2 ^ 16;
  base_15_00 = addr % 2 ^ 16;
  seg_lim_19_16 = lim % 2 ^ 20 / 2 ^ 16;
  seg_lim_15_00 = lim % 2 ^ 16;
}

abbrev pub kernel_ds : ℕ
kernel_ds = 0x18

abbrev pub kernel_ldt : ℕ
kernel_ldt = 0x38

abbrev pub kernel_tss : ℕ
kernel_tss = 0x30

-- the_ldt_desc before SET_LDT_PARAMS. `d` is what was on the stack.
pub the_ldt_desc : SegDesc → SegDesc
the_ldt_desc d = record d {
  granularity = 0;
  opsize = 1;
  reserved = 0;
  avail = 0;
  present = 1;
  dpl = 0;
  sys = 0;
  type = 2;
}

pub the_tss_desc : SegDesc → SegDesc
the_tss_desc d = record d {
  granularity = 0;
  opsize = 0;
  reserved = 0;
  avail = 0;
  present = 1;
  dpl = 0;
  sys = 0;
  type = 9;
}

-- What the boot sets up: the descriptors, the selectors that lldt and ltr load, the task state's
-- stack, and the state of each part.
pub record Machine : Type 0 where
  pub ldt_desc : SegDesc
  pub tss_desc : SegDesc
  pub ldtr : ℕ
  pub tr : ℕ
  pub ldt_segment_selector : ℕ
  pub ss0 : ℕ
  pub esp0 : ℕ
  pub pic : Pic
  pub idt : ℕ → Gate
  pub paging : Paging
  pub fs : FileSystem
  pub keys : Keys
  pub terminals : Terminals
  pub rtc : Rtc
  pub timer : List (ℕ × ℕ)

-- Where the linker has put the tables, and what the assembly files define.
module _ (address : Handler → ℕ)
    (page_table_address user_video_page_table_address ldt ldt_size tss tss_size : ℕ) where
  pub load_descriptors : SegDesc → SegDesc → Machine → Machine
  unfolding set_params the_ldt_desc the_tss_desc
  load_descriptors d d' m = record m {
    ldt_desc = set_params (the_ldt_desc d) ldt ldt_size;
    ldtr = kernel_ldt;
    tss_desc = set_params (the_tss_desc d') tss tss_size;
    ldt_segment_selector = kernel_ldt;
    ss0 = kernel_ds;
    esp0 = 0x800000;
    tr = kernel_tss;
  }

  -- `i8259_init(); initialize_idt(); paging_init(); filesys_init(); keyboard_init(); rtc_init();
  -- pit_init();`, with the file system's start and the memory that the boot loader has left.
  pub init_devices : ℕ → Memory → Machine → Machine
  init_devices file_start memory m =
      let pic = i8259_init m.pic in
      let (keys, terminals, pic1) = keyboard_init m.keys m.terminals pic in
      let (rtc, pic8) = rtc_init m.rtc pic1 in
      let (timer, pic0) = pit_init pic8 in
      record m {
        pic = pic0;
        idt = initialize_idt address m.idt;
        paging = paging_init page_table_address user_video_page_table_address m.paging;
        fs = filesys_init 0 memory file_start;
        keys = keys;
        terminals = terminals;
        rtc = rtc;
        timer = timer;
      }

  -- `d` and `d'` are what was in the two descriptors on the stack.
  pub boot : SegDesc → SegDesc → ℕ → Memory → Machine → Machine
  unfolding load_descriptors init_devices
  boot d d' file_start memory m = init_devices file_start memory (load_descriptors d d' m)
