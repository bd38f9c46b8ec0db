-- ===== src/Keyboard/Line.antt =====
-- The line of the displayed terminal as a list, and what the keys do to it.
use pony_os.Base.{
  true, false, ℕ, suc, ◌+◌, ◌-◌, ◌≤◌, ◌<◌, ◌≡◌, refl, ap, sym, ◌∙◌, arith, List, [], ◌∷◌, ◌++◌,
  length, length-append, ltb, leb, ◌==◌, if◌then◌else◌,
}
use native.Mathlib.Decide.{ℕ_discrete, dec_lt}
use pony_os.Process.{Kernel}
use pony_os.Screen.Display.{
  putc_scroll_display-SameTerminals, erase_last_ch_display-SameTerminals, clear-SameTerminals,
}
use pony_os.Terminal.{keyboard_size, line_limit, get_bytes}
use pony_os.Terminal.Bytes.{get_bytes-suc, get_bytes-cong}
use pony_os.Keyboard.{enter, backspace, type_character, clear_line}

-- What a key does to a line.
pub data Action : Type 0 where
  typed : ℕ → Action
  erased : Action
  wiped : Action
  entered : Action

abbrev pub drop_last : List ℕ → List ℕ
drop_last [] = []
drop_last (x ∷ []) = []
drop_last (x ∷ y ∷ ys) = x ∷ drop_last (y ∷ ys)

-- A full line takes no more characters.
abbrev pub line_after : Action → List ℕ → List ℕ
line_after (typed c) xs = if ltb (length xs) line_limit then xs ++ c ∷ [] else xs
line_after erased xs = drop_last xs
line_after wiped xs = []
line_after entered xs = []

abbrev pub perform : Action → Kernel → Kernel
perform (typed c) k = type_character c k
perform erased k = backspace k
perform wiped k = clear_line k
perform entered k = enter k

-- A row of the line buffer and its cursor hold a line, with zeros behind it.
pub record Holds (row : ℕ → ℕ) (cursor : ℕ) (xs : List ℕ) : Type 0 where
  pub at : cursor ≡ length xs
  pub short : length xs ≤ line_limit
  pub chars : get_bytes row 0 (length xs) ≡ xs
  pub zeros : (i : ℕ) → length xs ≤ i → i < keyboard_size → row i ≡ 0

-- The line of the displayed terminal.
abbrev pub Shows : Kernel → List ℕ → Type 0
Shows k xs =
    let t = k.screen.display_terminal in
    Holds (k.terminals.keyboard_buffer t) (k.terminals.cursor_ind t) xs

drop_last-append : (xs : List ℕ) (c : ℕ) → drop_last (xs ++ c ∷ []) ≡ xs
drop_last-append [] c = refl
drop_last-append (x ∷ []) c = refl
drop_last-append (x ∷ y ∷ ys) c = ap (λ (zs : List ℕ). x ∷ zs) (drop_last-append (y ∷ ys) c)

length-drop_last : (xs : List ℕ) → length (drop_last xs) ≡ length xs - 1
length-drop_last [] = refl
length-drop_last (x ∷ []) = refl
length-drop_last (x ∷ y ∷ ys) = omega (arith, length-drop_last (y ∷ ys))

empty-drop_last : (xs : List ℕ) → length xs ≡ 0 → drop_last xs ≡ xs
empty-drop_last [] e = refl
empty-drop_last (x ∷ xs) e = absurd (omega arith)

Holds-same :
    (f g : ℕ → ℕ) (m n : ℕ) (xs : List ℕ)
    → Holds f m xs
    → ((i : ℕ) → g i ≡ f i)
    → n ≡ m
    → Holds g n xs
Holds-same f g m n xs h same e = record {
  at = e ∙ h.at;
  short = h.short;
  chars = get_bytes-cong (length xs) g f 0 (λ i p q. same i) ∙ h.chars;
  zeros = λ i p q. same i ∙ h.zeros i p q;
}

Holds-typed :
    (f g : ℕ → ℕ) (m n c : ℕ) (xs : List ℕ)
    → Holds f m xs
    → length xs < line_limit
    → ((i : ℕ) → g i ≡ (if i == m then c else f i))
    → n ≡ m + 1
    → Holds g n (xs ++ c ∷ [])
Holds-typed f g m n c xs h room same e =
    let size : length (xs ++ c ∷ []) ≡ suc (length xs) = omega (arith, length-append xs (c ∷ [])) in
    let front : get_bytes g 0 (length xs) ≡ get_bytes f 0 (length xs) =
      get_bytes-cong (length xs) g f 0 (λ i p q. ground (arith, same i, h.at)) in
    let last : g (0 + length xs) ≡ c = ground (arith, same (0 + length xs), h.at) in
    record {
      at = omega (arith, h.at);
      short = omega arith;
      chars = rw size (
          get_bytes-suc (length xs) g 0
          ∙ ap (λ (zs : List ℕ). zs ++ g (0 + length xs) ∷ []) (front ∙ h.chars)
          ∙ ap (λ (b : ℕ). xs ++ b ∷ []) last);
      zeros = λ i p q. ground (arith, same i, h.at, h.zeros i);
    }

Holds-erased :
    (f g : ℕ → ℕ) (m n : ℕ) (xs : List ℕ)
    → Holds f m xs
    → 0 < length xs
    → ((i : ℕ) → g i ≡ (if i == m - 1 then 0 else f i))
    → n ≡ m - 1
    → Holds g n (drop_last xs)
Holds-erased f g m n xs h some_left same e =
    let size = length-drop_last xs in
    let front : get_bytes g 0 (length xs - 1) ≡ get_bytes f 0 (length xs - 1) =
      get_bytes-cong (length xs - 1) g f 0 (λ i p q. ground (arith, same i, h.at)) in
    let whole : length xs ≡ suc (length xs - 1) = omega arith in
    let cut : drop_last (get_bytes f 0 (suc (length xs - 1))) ≡ get_bytes f 0 (length xs - 1) =
      ap drop_last (get_bytes-suc (length xs - 1) f 0)
      ∙ drop_last-append (get_bytes f 0 (length xs - 1)) (f (0 + (length xs - 1))) in
    record {
      at = omega (arith, h.at, size);
      short = omega (arith, h.short, size);
      chars =
          ap (λ (l : ℕ). get_bytes g 0 l) size
          ∙ front
          ∙ sym cut
          ∙ ap drop_last (ap (λ (l : ℕ). get_bytes f 0 l) (sym whole) ∙ h.chars);
      zeros = λ i p q. ground (arith, same i, h.at, h.zeros i, size);
    }

Holds-empty : (g : ℕ → ℕ) (n : ℕ) → ((i : ℕ) → i < keyboard_size → g i ≡ 0) → n ≡ 0 → Holds g n []
unfolding get_bytes
Holds-empty g n zeros e = record {
  at = e;
  short = omega arith;
  chars = refl;
  zeros = λ i p q. zeros i q;
}

-- Each key does to the line buffer of the displayed terminal what its action does to the line, and
-- the displayed and the active terminal stay.
pub perform-Shows :
    (a : Action) (k : Kernel) (xs : List ℕ)
    → Shows k xs
    → Shows (perform a k) (line_after a xs)
      × ((perform a k).screen.display_terminal ≡ k.screen.display_terminal)
      × ((perform a k).screen.active_terminal ≡ k.screen.active_terminal)
unfolding type_character backspace clear_line enter
perform-Shows (typed c) k xs h =
    let same = putc_scroll_display-SameTerminals c k.screen in
    elim (dec_lt (length xs) line_limit) [
      | yes room ↦
          let fits : ltb (length xs) line_limit ≡ true = ground arith in
          let more : leb line_limit (k.terminals.cursor_ind k.screen.display_terminal) ≡ false =
            ground (arith, h.at) in
          rw (fits, more)
            (
              Holds-typed _ _ _ _ c xs h room (λ i. ground (arith, same)) (ground (arith, same)),
              same.1,
              same.0,
            )
      | no full ↦
          let tight : ltb (length xs) line_limit ≡ false = ground arith in
          let none_more : leb line_limit (k.terminals.cursor_ind k.screen.display_terminal) ≡ true =
            ground (arith, h.at) in
          rw (tight, none_more) (h, refl, refl)
    ]
perform-Shows erased k xs h =
    let same = erase_last_ch_display-SameTerminals k.screen in
    elim (ℕ_discrete (length xs) 0) [
      | yes nothing ↦
          let start : k.terminals.cursor_ind k.screen.display_terminal == 0 ≡ true =
            ground (arith, h.at) in
          rw start (rw (← empty-drop_last xs nothing) at h, refl, refl)
      | no something ↦
          let inside : k.terminals.cursor_ind k.screen.display_terminal == 0 ≡ false =
            ground (arith, h.at) in
          rw inside (
            Holds-erased _ _ _ _ xs h (omega arith) (λ i. ground (arith, same))
                (ground (arith, same)),
            same.1,
            same.0,
          )
    ]
perform-Shows wiped k xs h =
    let same = clear-SameTerminals k.screen in
    (Holds-empty _ _ (λ i p. ground (arith, same)) (ground (arith, same)), same.1, same.0)
perform-Shows entered k xs h = (Holds-empty _ _ (λ i p. ground arith) (ground arith), refl, refl)
