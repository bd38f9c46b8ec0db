-- ===== src/Interrupts/Exceptions.antt =====
-- The exception handlers and general_handler of student-distrib/idt.c. Each begins with cli and
-- clear, and prints one line.
pub mod Shown
use pony_os.Base.{
  ℕ, ◌+◌, ◌*◌, ◌/◌, ◌<◌, ◌≤◌, ◌≡◌, ◌≢◌, ◌⊎◌, refl, ap, sym, ◌∙◌, arith, List, [], ◌∷◌, length,
  get_or, codes, ltb, Bool, true, false, Outcome, returns, and_then,
}
use pony_os.Screen.{Screen, clear, physical_page, video_page}
use pony_os.Console.{Console, printf}
use pony_os.Interrupts.{
  Handler, exception_de, exception_db, exception_nmi, exception_bp, exception_of, exception_br,
  exception_ud, exception_nm, exception_df, exception_cs, exception_ts, exception_np, exception_ss,
  exception_gp, exception_pf, exception_rs, exception_mf, exception_ac, exception_mc, exception_xf,
  general_handler_wrapper, keyboard_handler_wrapper, rtc_handler_wrapper, pit_handler_wrapper,
}

-- The text that a handler prints. The wrappers print none.
unfoldable pub message : Handler → List ℕ
message exception_de = codes "0:Divide by zero!"
message exception_db = codes "1:Debug exception!"
message exception_nmi = codes "2:Non-maskable interrupt!"
message exception_bp = codes "3:Breakpoint Exception!"
message exception_of = codes "4:overflow!"
message exception_br = codes "5:bound range exceeded!"
message exception_ud = codes "6:Invalid Opcode!"
message exception_nm = codes "7:Device Not Available!"
message exception_df = codes "8:Double Fault!"
message exception_cs = codes "9:Coprocessor Segment Overrun!"
message exception_ts = codes "10:Invalid TSS!"
message exception_np = codes "11:Segment Not Present!"
message exception_ss = codes "12:Stack Fault!"
message exception_gp = codes "13:General Protection Exception!"
message exception_pf = codes "14:Page-Fault!"
message exception_rs = codes "15:reserved, test error!"
message exception_mf = codes "16:FPU Floating-Point Error!"
message exception_ac = codes "17:Alignment Check Exception!"
message exception_mc = codes "18:Machine-Check Exception!"
message exception_xf = codes "19:SIMD Floating-Point Exception!"
message general_handler_wrapper = []
message keyboard_handler_wrapper = []
message rtc_handler_wrapper = []
message pit_handler_wrapper = []

abbrev pub general_message : List ℕ
general_message = codes "out of the world, there is you interruption."

-- The interrupt flag and the console. `task`, `conv_buf` and `stack` are those of printf.
pub record Cpu : Type 0 where
  pub interrupts : Bool
  pub console : Console

module _ (task conv_buf : ℕ) (stack : ℕ → ℕ) where
  -- `cli(); clear(); printf(text);`
  pub report : List ℕ → Cpu → Outcome Cpu
  report text cpu =
      let con = cpu.console in
      let cleared = record con { screen = clear con.screen } in
      and_then (printf task conv_buf text stack cleared)
        λ (count, con'). returns (record { interrupts = false; console = con' })

  -- An exception handler up to its `while (1)`, in which the processor stays, deaf to interrupts.
  pub exception : Handler → Cpu → Outcome Cpu
  unfolding report message
  exception h cpu = report (message h) cpu

  pub general_handler : Cpu → Outcome Cpu
  unfolding report
  general_handler cpu =
      and_then (report general_message cpu) λ cpu'. returns (record cpu' { interrupts = true })
