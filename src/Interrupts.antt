-- ===== src/Interrupts.antt =====
-- The interrupt descriptor table of student-distrib/idt.c, as student-distrib/x86_desc.h lays it out.
pub mod Vectors
pub mod Exceptions
pub mod Tests
use pony_os.Base.{ℕ, zero, suc, ◌+◌, ◌*◌, ◌/◌, ◌%◌, ◌^◌, List, [], ◌∷◌, leb, ◌==◌, if◌then◌else◌}

-- The functions whose addresses the table holds.
pub data Handler : Type 0 where
  exception_de : Handler
  exception_db : Handler
  exception_nmi : Handler
  exception_bp : Handler
  exception_of : Handler
  exception_br : Handler
  exception_ud : Handler
  exception_nm : Handler
  exception_df : Handler
  exception_cs : Handler
  exception_ts : Handler
  exception_np : Handler
  exception_ss : Handler
  exception_gp : Handler
  exception_pf : Handler
  exception_rs : Handler
  exception_mf : Handler
  exception_ac : Handler
  exception_mc : Handler
  exception_xf : Handler
  general_handler_wrapper : Handler
  keyboard_handler_wrapper : Handler
  rtc_handler_wrapper : Handler
  pit_handler_wrapper : Handler

-- idt_desc_t: two halves of an address, and what the processor does on the way there.
pub record Gate : Type 0 where
  pub offset_15_00 : ℕ
  pub seg_selector : ℕ
  pub reserved4 : ℕ
  pub reserved3 : ℕ
  pub reserved2 : ℕ
  pub reserved1 : ℕ
  pub size : ℕ
  pub reserved0 : ℕ
  pub dpl : ℕ
  pub present : ℕ
  pub offset_31_16 : ℕ

abbrev pub num_vec : ℕ
num_vec = 256

abbrev pub kernel_cs : ℕ
kernel_cs = 0x10

abbrev pub syscall_index : ℕ
syscall_index = 0x80

abbrev pub pic_offset : ℕ
pic_offset = 0x20

-- What the loop stores into the fields of gate i, all but the address.
pub with_fields : ℕ → Gate → Gate
with_fields i g = record g {
  dpl = if i == syscall_index then 3 else 0;
  present = 1;
  seg_selector = kernel_cs;
  reserved0 = 0;
  size = 1;
  reserved1 = 1;
  reserved2 = 1;
  reserved4 = 0;
  reserved3 = if leb 0x20 i then 0 else 1;
}

-- The macro SET_IDT_ENTRY.
pub set_idt_entry : Gate → ℕ → Gate
set_idt_entry g handler = record g {
  offset_31_16 = handler % 2 ^ 32 / 2 ^ 16;
  offset_15_00 = handler % 2 ^ 32 % 2 ^ 16;
}

abbrev pub update_gate : (ℕ → Gate) → ℕ → Gate → ℕ → Gate
update_gate idt i g j = if j == i then g else idt j

-- `address` is where the linker has put each handler.
module _ (address : Handler → ℕ) where
  -- `for (i = 0; i < NUM_VEC; i++)`, with `n` rounds left.
  pub fill_gates : ℕ → ℕ → (ℕ → Gate) → ℕ → Gate
  unfolding with_fields set_idt_entry
  fill_gates zero i idt = idt
  fill_gates (suc n) i idt =
      fill_gates n (i + 1) (
        update_gate idt i (set_idt_entry (with_fields i (idt i)) (address general_handler_wrapper)))

  pub set_entries : List (ℕ × Handler) → (ℕ → Gate) → ℕ → Gate
  unfolding set_idt_entry
  set_entries [] idt = idt
  set_entries ((i, h) ∷ es) idt =
      set_entries es (update_gate idt i (set_idt_entry (idt i) (address h)))

-- The assignments behind the loop, in their order.
pub entries : List (ℕ × Handler)
entries =
    (pic_offset + 1, keyboard_handler_wrapper)
    ∷ (pic_offset + 8, rtc_handler_wrapper)
    ∷ (pic_offset + 0, pit_handler_wrapper)
    ∷ (0, exception_de)
    ∷ (1, exception_db)
    ∷ (2, exception_nmi)
    ∷ (3, exception_bp)
    ∷ (4, exception_of)
    ∷ (5, exception_br)
    ∷ (6, exception_ud)
    ∷ (7, exception_nm)
    ∷ (8, exception_df)
    ∷ (9, exception_cs)
    ∷ (10, exception_ts)
    ∷ (11, exception_np)
    ∷ (12, exception_ss)
    ∷ (13, exception_gp)
    ∷ (14, exception_pf)
    ∷ (15, exception_rs)
    ∷ (16, exception_mf)
    ∷ (17, exception_ac)
    ∷ (18, exception_mc)
    ∷ (19, exception_xf)
    ∷ (syscall_index, general_handler_wrapper)
    ∷ []

-- The table after initialize_idt; the processor's register holds its address from then on.
pub initialize_idt : (Handler → ℕ) → (ℕ → Gate) → ℕ → Gate
unfolding fill_gates set_entries entries
initialize_idt address idt = set_entries address entries (fill_gates address num_vec 0 idt)
