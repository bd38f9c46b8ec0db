-- ===== src/Console/Rows.antt =====
-- Where a message of student-distrib/lib.c's putc and printf stands on the screen.
use pony_os.Base.{
  ℕ, zero, suc, ◌+◌, ◌*◌, ◌%◌, ◌≤◌, ◌<◌, ◌≡◌, ◌⊎◌, inl, refl, ap, ◌∙◌, arith, Bool, true, false,
  not, ◌&&◌, List, [], ◌∷◌, length, get_or, ◌==◌, if◌then◌else◌, returns,
}
use native.Mathlib.Decide.{dec_lt}
use pony_os.Screen.{num_cols, num_rows, attrib, is_newline, video_page}
use pony_os.Console.{Console, putc, putc_all, plain, printf_loop, printf}

-- No line break and no '%'.
abbrev pub is_text : List ℕ → Bool
is_text [] = true
is_text (c ∷ cs) = not (is_newline c) && not (c == b'%') && is_text cs

-- No line break.
abbrev pub is_line : List ℕ → Bool
is_line [] = true
is_line (c ∷ cs) = not (is_newline c) && is_line cs

-- Only the memory of the screen differs.
abbrev pub SameButMemory : Console → Console → Type 0
SameButMemory con con' =
    (con'.screen.active_terminal ≡ con.screen.active_terminal)
    × (con'.screen.display_terminal ≡ con.screen.display_terminal)
    × (video_page con'.screen ≡ video_page con.screen)

-- The address of the cursor's cell.
abbrev pub cursor_address : Console → ℕ
cursor_address con = video_page con.screen * 0x1000 + 2 * (num_cols * con.screen_y + con.screen_x)

text_head :
    (c : ℕ) (cs : List ℕ)
    → is_text (c ∷ cs) ≡ true
    → (is_newline c ≡ false) × ((c == b'%') ≡ false) × (is_text cs ≡ true)
text_head c cs h = ground arith

putc_cursor :
    (c : ℕ) (con : Console)
    → is_newline c ≡ false
    → con.screen_x < num_cols
    → con.screen_y < num_rows
    → ((putc c con).screen_x ≡ (con.screen_x + 1) % num_cols)
      × ((putc c con).screen_y ≡ con.screen_y)
unfolding putc
putc_cursor c con h x y = ground arith

putc_memory :
    (c : ℕ) (con : Console) (a : ℕ)
    → is_newline c ≡ false
    → con.screen_x < num_cols
    → con.screen_y < num_rows
    → (putc c con).screen.memory a ≡ (
        if a == cursor_address con + 1
        then attrib
        else if a == cursor_address con
        then c
        else con.screen.memory a)
unfolding putc
putc_memory c con a h x y = ground arith

putc_same : (c : ℕ) (con : Console) → SameButMemory con (putc c con)
unfolding putc
putc_same c con = ground arith

putc_all_same : (cs : List ℕ) (con : Console) → SameButMemory con (putc_all cs con)
putc_all_same [] con = (refl, refl, refl)
putc_all_same (c ∷ cs) con =
    let (a, d, p) = putc_same c con in
    let (a', d', p') = putc_all_same cs (putc c con) in (a' ∙ a, d' ∙ d, p' ∙ p)

-- With the cursor in one of the 80 columns and 25 rows, and however long a text without a line break
-- is, putc leaves the cursor in its row: behind the last column it starts over at the first one.
pub putc_all_row :
    (cs : List ℕ) (con : Console)
    → is_line cs ≡ true
    → con.screen_x < num_cols
    → con.screen_y < num_rows
    → ((putc_all cs con).screen_x ≡ (con.screen_x + length cs) % num_cols)
      × ((putc_all cs con).screen_y ≡ con.screen_y)
putc_all_row [] con h x y = (omega arith, refl)
putc_all_row (c ∷ cs) con h x y =
    let (nl, rest) : (is_newline c ≡ false) × (is_line cs ≡ true) = ground arith in
    let (col, row) = putc_cursor c con nl x y in
    let (col', row') =
      putc_all_row cs (putc c con) rest (omega (arith, col)) (omega (arith, row)) in
    (omega (arith, col, col'), row' ∙ row)

abbrev pub Shown : List ℕ → Console → Type 0
Shown cs con =
    ((i : ℕ)
      → i < length cs
      → (putc_all cs con).screen.memory (cursor_address con + 2 * i) ≡ get_or cs i 0)
    × ((a : ℕ)
        → (a < cursor_address con) ⊎ (cursor_address con + 2 * length cs ≤ a)
        → (putc_all cs con).screen.memory a ≡ con.screen.memory a)

Shown-cons :
    (c : ℕ) (cs : List ℕ) (con : Console)
    → is_text (c ∷ cs) ≡ true
    → con.screen_x < num_cols
    → con.screen_y < num_rows
    → con.screen_x + length (c ∷ cs) ≤ num_cols
    → Shown cs (putc c con)
    → Shown (c ∷ cs) con
Shown-cons c cs con h x y fits rest = (inside, outside)
  where
    head : (is_newline c ≡ false) × ((c == b'%') ≡ false) × (is_text cs ≡ true)
    head = text_head c cs h

    cursor :
        ((putc c con).screen_x ≡ (con.screen_x + 1) % num_cols)
        × ((putc c con).screen_y ≡ con.screen_y)
    cursor = putc_cursor c con head.0 x y

    next : 0 < length cs → cursor_address (putc c con) ≡ cursor_address con + 2
    next p = omega (arith, cursor, putc_same c con)

    outside :
        (a : ℕ)
        → (a < cursor_address con) ⊎ (cursor_address con + 2 * length (c ∷ cs) ≤ a)
        → (putc_all cs (putc c con)).screen.memory a ≡ con.screen.memory a
    outside a out = elim (dec_lt 0 (length cs)) [
      | yes more ↦
          rest.1 a (omega (arith, next more)) ∙ putc_memory c con a head.0 x y ∙ ground arith
      | no last ↦ rest.1 a (ground arith) ∙ putc_memory c con a head.0 x y ∙ ground arith
    ]

    inside :
        (i : ℕ)
        → i < length (c ∷ cs)
        → (putc_all cs (putc c con)).screen.memory (cursor_address con + 2 * i)
          ≡ get_or (c ∷ cs) i 0
    inside zero p =
        rest.1 (cursor_address con + 2 * 0) (elim (dec_lt 0 (length cs)) [
          | yes more ↦ inl (omega (arith, next more))
          | no last ↦ ground arith
        ])
        ∙ putc_memory c con (cursor_address con + 2 * 0) head.0 x y
        ∙ ground arith
    inside (suc i) p =
        ap (putc_all cs (putc c con)).screen.memory (omega (arith, next (omega arith)))
        ∙ rest.0 i (omega arith)

-- A text that fits in its row stands there, and nothing else of memory changes.
pub putc_all-Shown :
    (cs : List ℕ) (con : Console)
    → is_text cs ≡ true
    → con.screen_x < num_cols
    → con.screen_y < num_rows
    → con.screen_x + length cs ≤ num_cols
    → Shown cs con
putc_all-Shown [] con h x y fits = (λ i p. absurd (omega arith), λ a out. refl)
putc_all-Shown (c ∷ cs) con h x y fits =
    let (nl, pc, rest) = text_head c cs h in
    let (col, row) = putc_cursor c con nl x y in
    Shown-cons c cs con h x y fits (
      putc_all-Shown cs (putc c con) rest (omega (arith, col)) (omega (arith, row))
        (omega (arith, col)))

-- printf of a format without a directive prints just its characters, and returns their number.
pub printf-text :
    (task conv_buf : ℕ) (stack : ℕ → ℕ) (cs : List ℕ) (con : Console)
    → is_text cs ≡ true
    → printf task conv_buf cs stack con ≡ returns (length cs, putc_all cs con)
unfolding printf printf_loop
printf-text task conv_buf stack cs con h =
    scan cs 0 con h ∙ ap (λ (n : ℕ). returns (n, putc_all cs con)) (omega arith)
  where
    scan :
        (cs : List ℕ) (n : ℕ) (con : Console)
        → is_text cs ≡ true
        → printf_loop task conv_buf plain cs n stack 0 con
          ≡ returns (n + length cs, putc_all cs con)
    scan [] n con h = ground arith
    scan (c ∷ cs) n con h =
        let (nl, pc, rest) = text_head c cs h in
        rw pc (scan cs (n + 1) (putc c con) rest ∙ ground arith)
