-- ===== src/Screen/Cells.antt =====
-- The loops over character cells: what they write, and that they stay inside their page.
use native.Mathlib.Decide.{dec_lt}
use pony_os.Base.{
  ℕ, zero, suc, ◌+◌, ◌-◌, ◌*◌, ◌%◌, ◌^◌, ◌≤◌, ◌<◌, ◌≡◌, ◌⊎◌, refl, ap, ◌∙◌, arith, if◌then◌else◌,
  ltb,
}
use pony_os.Memory.{Memory}
use pony_os.Screen.{char_below, num_cols, num_rows, attrib, put_cell, fill_cells, shift_cells}

-- The cells of a page are those below this.
abbrev pub num_cells : ℕ
num_cells = num_rows * num_cols

module _ (page : ℕ) (low : page < 2 ^ 20) where
  pub put_cell_out :
      (i c : ℕ) (m : Memory) (a : ℕ)
      → i < num_cells
      → (a < page * 0x1000 + 2 * i) ⊎ (page * 0x1000 + 2 * i + 2 ≤ a)
      → put_cell page i c m a ≡ m a
  unfolding put_cell
  put_cell_out i c m a p h = ground arith

  pub put_cell_char :
      (i c : ℕ) (m : Memory) → i < num_cells → put_cell page i c m (page * 0x1000 + 2 * i) ≡ c
  unfolding put_cell
  put_cell_char i c m p = ground arith

  put_cell-attrib :
      (i c : ℕ) (m : Memory)
      → i < num_cells
      → put_cell page i c m (page * 0x1000 + 2 * i + 1) ≡ attrib
  unfolding put_cell
  put_cell-attrib i c m p = ground arith

  module _ (char : ℕ → Memory → ℕ) where
    pub fill_cells_out :
        (n i : ℕ) (m : Memory) (a : ℕ)
        → i + n ≤ num_cells
        → (a < page * 0x1000 + 2 * i) ⊎ (page * 0x1000 + 2 * (i + n) ≤ a)
        → fill_cells page char n i m a ≡ m a
    unfolding fill_cells
    fill_cells_out zero i m a p h = refl
    fill_cells_out (suc n) i m a p h =
        fill_cells_out n (i + 1) (put_cell page i (char i m) m) a (omega arith) (omega arith)
        ∙ put_cell_out i (char i m) m a (omega arith) (omega arith)

    -- Each attribute is set.
    fill_cells-attrib :
        (n i : ℕ) (m : Memory) (j : ℕ)
        → i + n ≤ num_cells
        → i ≤ j
        → j < i + n
        → fill_cells page char n i m (page * 0x1000 + 2 * j + 1) ≡ attrib
    unfolding fill_cells
    fill_cells-attrib zero i m j p q r = absurd (omega arith)
    fill_cells-attrib (suc n) i m j p q r = elim (dec_lt i j) [
      | yes later ↦
          fill_cells-attrib n (i + 1) (put_cell page i (char i m) m) j (omega arith) (omega arith)
            (omega arith)
      | no here ↦
          let e : i ≡ j = omega arith in
          fill_cells_out n (i + 1) (put_cell page i (char i m) m) _ (omega arith) (omega arith)
          ∙ rw (← e) (put_cell-attrib i (char i m) m (omega arith))
    ]

    -- Where `char` looks only behind the cell, it sees the memory from before the loop.
    fill_cells_char :
        (m0 : Memory) (bound : ℕ)
        → bound ≤ num_cells
        → ((k : ℕ) (m : Memory)
            → k < bound
            → ((a : ℕ) → page * 0x1000 + 2 * k ≤ a → m a ≡ m0 a)
            → char k m ≡ char k m0)
        → (n i : ℕ) (m : Memory) (j : ℕ) → ((a : ℕ) → page * 0x1000 + 2 * i ≤ a → m a ≡ m0 a)
        → i + n ≤ bound
        → i ≤ j
        → j < i + n
        → fill_cells page char n i m (page * 0x1000 + 2 * j) ≡ char j m0
    unfolding fill_cells
    fill_cells_char m0 bound b h zero i m j agree p q r = absurd (omega arith)
    fill_cells_char m0 bound b h (suc n) i m j agree p q r = elim (dec_lt i j) [
      | yes later ↦
          fill_cells_char m0 bound b h n (i + 1) (put_cell page i (char i m) m) j
            (λ a t.
              put_cell_out i (char i m) m a (omega arith) (omega arith) ∙ agree a (omega arith))
            (omega arith) (omega arith) (omega arith)
      | no here ↦
          let e : i ≡ j = omega arith in
          fill_cells_out n (i + 1) (put_cell page i (char i m) m) _ (omega arith) (omega arith)
          ∙ rw (← e) (put_cell_char i (char i m) m (omega arith) ∙ h i m (omega arith) agree)
    ]

  pub blank_char :
      (n i : ℕ) (m : Memory) (j : ℕ)
      → i + n ≤ num_cells
      → i ≤ j
      → j < i + n
      → fill_cells page (λ i m. b' ') n i m (page * 0x1000 + 2 * j) ≡ b' '
  blank_char n i m j p q r =
      fill_cells_char (λ i m. b' ') m (i + n) p (λ k m' t agree. refl) n i m j (λ a t. refl)
        (omega arith) q r

  pub blank_attrib :
      (n i : ℕ) (m : Memory) (j : ℕ)
      → i + n ≤ num_cells
      → i ≤ j
      → j < i + n
      → fill_cells page (λ i m. b' ') n i m (page * 0x1000 + 2 * j + 1) ≡ attrib
  blank_attrib n i m j p q r = fill_cells-attrib (λ i m. b' ') n i m j p q r

  above_char :
      (m : Memory) (j : ℕ)
      → j < 1920
      → fill_cells page (char_below page) 1920 0 m (page * 0x1000 + 2 * j)
        ≡ m (page * 0x1000 + 2 * (j + num_cols))
  above_char m j p =
      fill_cells_char (char_below page) m 1920 (omega arith)
        (λ k m' t agree.
          let e : (page * 0x1000 + (k + num_cols) * 2) % 2 ^ 32
              ≡ page * 0x1000 + 2 * (k + num_cols) =
            omega arith in
          rw e (agree _ (omega arith)))
        1920 0 m j (λ a t. refl) (omega arith) (omega arith) p
      ∙ ap m (omega arith)

  -- shift_up moves every row up by one, blanks the last, gives each cell the attribute 7, and
  -- writes nowhere but into the cells of its page.
  abbrev pub shifted : Memory → ℕ → ℕ
  shifted m j =
      if ltb j (num_cols * (num_rows - 1)) then m (page * 0x1000 + 2 * (j + num_cols)) else b' '

  pub shift_cells_lem :
      (m : Memory)
      → ((j : ℕ)
          → j < num_cells
          → (shift_cells page m (page * 0x1000 + 2 * j) ≡ shifted m j)
            × (shift_cells page m (page * 0x1000 + 2 * j + 1) ≡ attrib))
        × ((a : ℕ)
            → (a < page * 0x1000) ⊎ (page * 0x1000 + 2 * num_cells ≤ a)
            → shift_cells page m a ≡ m a)
  unfolding shift_cells
  shift_cells_lem m = (λ j p. cell j p, λ a h. outside a h)
    where
      rows : Memory
      rows = fill_cells page (char_below page) 1920 0 m

      cell :
          (j : ℕ)
          → j < num_cells
          → (shift_cells page m (page * 0x1000 + 2 * j) ≡ shifted m j)
            × (shift_cells page m (page * 0x1000 + 2 * j + 1) ≡ attrib)
      cell j p = elim (dec_lt j 1920) [
        | yes top ↦ (
          fill_cells_out (λ i m. b' ') 80 1920 rows _ (omega arith) (omega arith)
              ∙ above_char m j top
              ∙ ground arith,
          fill_cells_out (λ i m. b' ') 80 1920 rows _ (omega arith) (omega arith)
              ∙ fill_cells-attrib (char_below page) 1920 0 m j (omega arith) (omega arith) top,
        )
        | no last ↦ (
          blank_char 80 1920 rows j (omega arith) (omega arith) (omega arith) ∙ ground arith,
          blank_attrib 80 1920 rows j (omega arith) (omega arith) (omega arith),
        )
      ]

      outside :
          (a : ℕ)
          → (a < page * 0x1000) ⊎ (page * 0x1000 + 2 * num_cells ≤ a)
          → shift_cells page m a ≡ m a
      outside a h =
          fill_cells_out (λ i m. b' ') 80 1920 rows a (omega arith) (omega arith)
          ∙ fill_cells_out (char_below page) 1920 0 m a (omega arith) (omega arith)
