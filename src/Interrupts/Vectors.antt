-- ===== src/Interrupts/Vectors.antt =====
-- Where initialize_idt of student-distrib/idt.c sends each of the 256 vectors.
use pony_os.Base.{
  false, true, ℕ, zero, suc, ◌+◌, ◌*◌, ◌^◌, ◌≤◌, ◌<◌, ◌≡◌, refl, ◌∙◌, arith, List, [], ◌∷◌, get_or,
  ltb, ◌==◌, if◌then◌else◌, Each, Each-at,
}
use native.Mathlib.Decide.{ℕ_discrete, dec_lt}
use pony_os.Interrupts.{
  Handler, exception_de, exception_db, exception_nmi, exception_bp, exception_of, exception_br,
  exception_ud, exception_nm, exception_df, exception_cs, exception_ts, exception_np, exception_ss,
  exception_gp, exception_pf, exception_rs, exception_mf, exception_ac, exception_mc, exception_xf,
  general_handler_wrapper, keyboard_handler_wrapper, rtc_handler_wrapper, pit_handler_wrapper, Gate,
  num_vec, kernel_cs, syscall_index, with_fields, set_idt_entry, update_gate, fill_gates,
  set_entries, entries, initialize_idt,
}

-- The handlers of the processor's exceptions, from number 0 on.
abbrev pub exceptions : List Handler
exceptions =
    exception_de ∷ exception_db ∷ exception_nmi ∷ exception_bp ∷ exception_of ∷ exception_br
    ∷ exception_ud ∷ exception_nm ∷ exception_df ∷ exception_cs ∷ exception_ts ∷ exception_np
    ∷ exception_ss ∷ exception_gp ∷ exception_pf ∷ exception_rs ∷ exception_mf ∷ exception_ac
    ∷ exception_mc ∷ exception_xf ∷ []

-- What each vector is for: the exceptions, then the timer, the keyboard and the real-time clock behind
-- the interrupt controllers. All the others go the way of a system call.
abbrev pub handler_of : ℕ → Handler
handler_of i =
    if ltb i 20
    then get_or exceptions i general_handler_wrapper
    else if i == 0x20
    then pit_handler_wrapper
    else if i == 0x21
    then keyboard_handler_wrapper
    else if i == 0x28
    then rtc_handler_wrapper
    else general_handler_wrapper

-- The address that the processor puts together from the halves.
abbrev pub target : Gate → ℕ
target g = g.offset_31_16 * 2 ^ 16 + g.offset_15_00

-- A present 32-bit gate into the kernel's code: a trap gate below 0x20, which leaves interrupts as
-- they are, an interrupt gate from there on; user programs may call only 0x80.
pub record IsGate (i : ℕ) (g : Gate) : Type 0 where
  pub usable : g.present ≡ 1
  pub segment : g.seg_selector ≡ kernel_cs
  pub kind :
      g.reserved3 + 2 * g.reserved2 + 4 * g.reserved1 + 8 * g.size + 16 * g.reserved0
      ≡ (if ltb i 0x20 then 15 else 14)
  pub privilege : g.dpl ≡ (if i == syscall_index then 3 else 0)

set_idt_entry-IsGate : (i h : ℕ) (g : Gate) → IsGate i g → IsGate i (set_idt_entry g h)
unfolding set_idt_entry
set_idt_entry-IsGate i h g k = record {
  usable = k.usable;
  segment = k.segment;
  kind = k.kind;
  privilege = k.privilege;
}

with_fields-IsGate : (i : ℕ) (g : Gate) → IsGate i (with_fields i g)
unfolding with_fields
with_fields-IsGate i g = record {
  usable = refl;
  segment = refl;
  kind = ground arith;
  privilege = refl;
}

target-set_idt_entry : (g : Gate) (h : ℕ) → h < 2 ^ 32 → target (set_idt_entry g h) ≡ h
unfolding set_idt_entry
target-set_idt_entry g h p = omega arith

-- The last assignment to a vector counts.
abbrev assigned : List (ℕ × Handler) → ℕ → Handler → Handler
assigned [] j h = h
assigned ((i, g) ∷ es) j h = assigned es j (if j == i then g else h)

module _ (address : Handler → ℕ) (low : (h : Handler) → address h < 2 ^ 32) where
  abbrev Leads : ℕ → Gate → Handler → Type 0
  Leads j g h = IsGate j g × (target g ≡ address h)

  fill_gates_out : (n i : ℕ) (idt : ℕ → Gate) (j : ℕ) → j < i → fill_gates address n i idt j ≡ idt j
  unfolding fill_gates
  fill_gates_out zero i idt j p = refl
  fill_gates_out (suc n) i idt j p = fill_gates_out n (i + 1) _ j (omega arith) ∙ ground arith

  fill_gates-Leads :
      (n i : ℕ) (idt : ℕ → Gate) (j : ℕ)
      → i ≤ j
      → j < i + n
      → Leads j (fill_gates address n i idt j) general_handler_wrapper
  unfolding fill_gates
  fill_gates-Leads zero i idt j p q = absurd (omega arith)
  fill_gates-Leads (suc n) i idt j p q = elim (ℕ_discrete i j) [
    | no later ↦ fill_gates-Leads n (i + 1) _ j (omega arith) (omega arith)
    | yes here ↦
        let g = set_idt_entry (with_fields i (idt i)) (address general_handler_wrapper) in
        let this : fill_gates address (suc n) i idt i ≡ g =
          fill_gates_out n (i + 1) (update_gate idt i g) i (omega arith) ∙ ground arith in
        rw (← here) (
          rw this (
            set_idt_entry-IsGate i _ _ (with_fields-IsGate i (idt i)),
            target-set_idt_entry (with_fields i (idt i)) (address general_handler_wrapper)
                (low general_handler_wrapper),
          ))
  ]

  set_entries-Leads :
      (es : List (ℕ × Handler)) (idt : ℕ → Gate) (j : ℕ) (h : Handler)
      → Leads j (idt j) h
      → Leads j (set_entries address es idt j) (assigned es j h)
  unfolding set_entries
  set_entries-Leads [] idt j h k = k
  set_entries-Leads ((i, g) ∷ es) idt j h k =
      set_entries-Leads es (update_gate idt i (set_idt_entry (idt i) (address g))) j
        (if j == i then g else h)
        (elim (ℕ_discrete j i) [
          | yes same ↦
              let now : (j == i) ≡ true = ground arith in
              let gate : IsGate j (idt i) = rw (← same) (k.0) in
              rw now (
                set_idt_entry-IsGate j (address g) (idt i) gate,
                target-set_idt_entry (idt i) (address g) (low g),
              )
          | no other ↦ let later : (j == i) ≡ false = ground arith in rw later k
        ])

  assigned_exception : Each (λ i. assigned entries i general_handler_wrapper ≡ handler_of i) 20
  unfolding entries
  assigned_exception = (
    (
      (
        (
          (
            (
              (
                (
                  (
                    (
                      (
                        (((((((((tt, refl), refl), refl), refl), refl), refl), refl), refl), refl),
                        refl,
                      ),
                      refl,
                    ),
                    refl,
                  ),
                  refl,
                ),
                refl,
              ),
              refl,
            ),
            refl,
          ),
          refl,
        ),
        refl,
      ),
      refl,
    ),
    refl,
  )

  assigned-handler_of : (i : ℕ) → assigned entries i general_handler_wrapper ≡ handler_of i
  unfolding entries
  assigned-handler_of i = elim (dec_lt i 20) [
    | yes few ↦
        Each-at (λ i. assigned entries i general_handler_wrapper ≡ handler_of i) 20 i
          assigned_exception few
    | no more ↦ ground arith
  ]

  -- After initialize_idt, when each handler lies below 4 GB, each of the 256 vectors has a present
  -- gate of the right kind and privilege, whose two halves are the address of the handler that the
  -- vector is for.
  pub initialize_idt-IsGate :
      (idt : ℕ → Gate) (i : ℕ)
      → i < num_vec
      → let g = initialize_idt address idt i in IsGate i g × (target g ≡ address (handler_of i))
  unfolding initialize_idt
  initialize_idt-IsGate idt i p = rw (← assigned-handler_of i) (
      set_entries-Leads entries (fill_gates address num_vec 0 idt) i general_handler_wrapper
        (fill_gates-Leads num_vec 0 idt i (omega arith) p))
