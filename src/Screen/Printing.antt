-- ===== src/Screen/Printing.antt =====
-- What printing depends on, and what it leaves alone: the page of the active terminal.
use pony_os.Base.{
  ℕ, zero, suc, ◌+◌, ◌/◌, ◌%◌, ◌^◌, ◌≤◌, ◌<◌, ◌≡◌, ◌≢◌, refl, ap, sym, ◌∙◌, arith, List, [], ◌∷◌,
  ◌++◌, Bool-cases, inl, inr, ◌==◌,
}
use mathlib.Core.Path.{subst}
use pony_os.Memory.{Memory, translate, load}
use pony_os.Screen.{
  Screen, char_below, put_cell, fill_cells, shift_cells, shift_up_on, scroll, is_newline, next_row,
  new_line, cell_index, print, putc_on, putc_scroll, puts_scroll, update_cursor, video_page,
  below_screen,
}
use pony_os.Paging.{Paging}
use pony_os.Screen.Switch.{putc_scroll_page}
use pony_os.Screen.Cursor.{InRange, scroll_lem, putc_scroll-InRange}

abbrev pub with_memory : Screen → Memory → Screen
with_memory s m = record s { memory = m }

-- The two memories hold the same bytes in a page.
abbrev pub Agree : ℕ → Memory → Memory → Type 0
Agree page m m' = (a : ℕ) → a / 0x1000 ≡ page → m a % 256 ≡ m' a % 256

-- The two screens differ in the memory outside of a page only.
abbrev pub Alike : ℕ → Screen → Screen → Type 0
Alike page s s' = (s' ≡ with_memory s s'.memory) × Agree page s.memory s'.memory

module _ (page : ℕ) where
  put_cell-Agree :
      (i c c' : ℕ) (m m' : Memory)
      → c % 256 ≡ c' % 256
      → Agree page m m'
      → Agree page (put_cell page i c m) (put_cell page i c' m')
  unfolding put_cell
  put_cell-Agree i c c' m m' e h a p = ground (arith, h a p)

  fill_cells-Agree :
      (char : ℕ → Memory → ℕ) (bound : ℕ)
      → ((i : ℕ) (m m' : Memory) → i < bound → Agree page m m' → char i m % 256 ≡ char i m' % 256)
      → (n i : ℕ) (m m' : Memory) → i + n ≤ bound
      → Agree page m m'
      → Agree page (fill_cells page char n i m) (fill_cells page char n i m')
  unfolding fill_cells
  fill_cells-Agree char bound same zero i m m' fits h = h
  fill_cells-Agree char bound same (suc n) i m m' fits h =
      fill_cells-Agree char bound same n (i + 1) (put_cell page i (char i m) m)
        (put_cell page i (char i m') m') (omega arith)
        (put_cell-Agree i (char i m) (char i m') m m' (same i m m' (omega arith) h) h)

  module _ (low : page < 2 ^ 20) where
    shift_cells-Agree :
        (m m' : Memory) → Agree page m m' → Agree page (shift_cells page m) (shift_cells page m')
    unfolding shift_cells
    shift_cells-Agree m m' h =
        fill_cells-Agree (λ i m. b' ') 2000 (λ i m m' p h. refl) 80 1920 _ _ (omega arith)
          (fill_cells-Agree (char_below page) 1920 (λ i m m' p h. h _ (omega arith)) 1920 0 m m'
            (omega arith) h)

    shift_up_on-Alike :
        (t : ℕ) (s : Screen) (m : Memory)
        → Agree page s.memory m
        → Alike page (shift_up_on page t s) (shift_up_on page t (with_memory s m))
    unfolding shift_up_on
    shift_up_on-Alike t s m h = (refl, shift_cells-Agree s.memory m h)

    scroll-Alike :
        (t : ℕ) (s : Screen) (m : Memory)
        → Agree page s.memory m
        → Alike page (scroll 2 page t s) (scroll 2 page t (with_memory s m))
    scroll-Alike t s m h =
        rw (scroll_lem page t s, scroll_lem page t (with_memory s m))
          (elim (Bool-cases (below_screen (s.screen_y t))) [
            | inl low ↦ rw low (shift_up_on-Alike t s m h)
            | inr on ↦ rw on (refl, h)
          ])

    print-Alike :
        (t c : ℕ) (s : Screen) (m : Memory)
        → Agree page s.memory m
        → Alike page (print page t c s) (print page t c (with_memory s m))
    unfolding print
    print-Alike t c s m h = (refl, put_cell-Agree (cell_index t s) c c s.memory m refl h)

    putc_on-Alike :
        (t c : ℕ) (s : Screen) (m : Memory)
        → Agree page s.memory m
        → Alike page (putc_on page t c s) (putc_on page t c (with_memory s m))
    unfolding putc_on new_line
    putc_on-Alike t c s m h = elim (Bool-cases (is_newline c)) [
      | inl nl ↦ rw nl (scroll-Alike t (next_row t s) m h)
      | inr ch ↦
          let (e, h') = scroll-Alike t s m h in
          let moved = (scroll 2 page t (with_memory s m)).memory in
          rw (ch, e) (print-Alike t c (scroll 2 page t s) moved h')
    ]

-- The page that the process prints on.
pub page_of : (s s' : Screen) → s'.paging ≡ s.paging → video_page s' ≡ video_page s
page_of s s' e = ap (λ (p : Paging). (p.page_table 0xb8).page_address) e

-- Printing changes neither the terminals nor the tables.
abbrev pub Steady : Screen → Screen → Type 0
Steady s s' =
    (s'.paging ≡ s.paging)
    × (s'.active_terminal ≡ s.active_terminal)
    × (s'.display_terminal ≡ s.display_terminal)

putc_scroll-Steady : (c : ℕ) (s : Screen) → Steady s (putc_scroll c s)
unfolding putc_scroll putc_on update_cursor new_line print shift_up_on
putc_scroll-Steady c s = ground (
  arith,
  scroll_lem (video_page s) s.active_terminal s,
  scroll_lem (video_page s) s.active_terminal (next_row s.active_terminal s),
)

putc_scroll-Alike :
    (c : ℕ) (s : Screen) (m : Memory)
    → video_page s < 2 ^ 20
    → Agree (video_page s) s.memory m
    → Alike (video_page s) (putc_scroll c s) (putc_scroll c (with_memory s m))
unfolding putc_scroll update_cursor
putc_scroll-Alike c s m low h =
    let (e, h') = putc_on-Alike (video_page s) low s.active_terminal c s m h in
    elim (Bool-cases (s.active_terminal == s.display_terminal)) [
      | inl shown ↦ rw (shown, e) (refl, h')
      | inr back ↦ rw back (e, h')
    ]

pub puts_scroll-Steady : (cs : List ℕ) (s : Screen) → Steady s (puts_scroll cs s)
unfolding puts_scroll
puts_scroll-Steady [] s = (refl, refl, refl)
puts_scroll-Steady (c ∷ cs) s =
    let (paging, active, display) = putc_scroll-Steady c s in
    let (paging', active', display') = puts_scroll-Steady cs (putc_scroll c s) in
    (paging' ∙ paging, active' ∙ active, display' ∙ display)

-- What is printed depends on the active terminal's page only, not on the rest of memory.
pub puts_scroll-Alike :
    (cs : List ℕ) (s : Screen) (m : Memory)
    → video_page s < 2 ^ 20
    → Agree (video_page s) s.memory m
    → Alike (video_page s) (puts_scroll cs s) (puts_scroll cs (with_memory s m))
unfolding puts_scroll
puts_scroll-Alike [] s m low h = (refl, h)
puts_scroll-Alike (c ∷ cs) s m low h =
    let (e, h') = putc_scroll-Alike c s m low h in
    let moved = (putc_scroll c (with_memory s m)).memory in
    let page : video_page (putc_scroll c s) ≡ video_page s =
      page_of s (putc_scroll c s) (putc_scroll-Steady c s).0 in
    subst
      (λ (z : Screen). Alike (video_page s) (puts_scroll cs (putc_scroll c s)) (puts_scroll cs z))
      (sym e) (rw page at (puts_scroll-Alike cs (putc_scroll c s) moved (rw page low) (rw page h')))

pub puts_scroll-nil : (s : Screen) → puts_scroll [] s ≡ s
unfolding puts_scroll
puts_scroll-nil s = refl

pub puts_scroll-append :
    (xs ys : List ℕ) (s : Screen) → puts_scroll (xs ++ ys) s ≡ puts_scroll ys (puts_scroll xs s)
unfolding puts_scroll
puts_scroll-append [] ys s = refl
puts_scroll-append (x ∷ xs) ys s = puts_scroll-append xs ys (putc_scroll x s)

-- Memory outside of that page stays.
pub puts_scroll_page :
    (cs : List ℕ) (s : Screen) (a : ℕ)
    → video_page s < 2 ^ 20
    → InRange s
    → a / 0x1000 ≢ video_page s
    → (puts_scroll cs s).memory a ≡ s.memory a
unfolding puts_scroll
puts_scroll_page [] s a low h out = refl
puts_scroll_page (c ∷ cs) s a low h out =
    let page : video_page (putc_scroll c s) ≡ video_page s =
      page_of s (putc_scroll c s) (putc_scroll-Steady c s).0 in
    puts_scroll_page cs (putc_scroll c s) a (rw page low) (putc_scroll-InRange c s h) (rw page out)
    ∙ putc_scroll_page c s a low h out

-- Printing the same on two screens that are alike.
pub puts_scroll-Alike_both :
    (page : ℕ) (cs : List ℕ) (s s' : Screen)
    → video_page s ≡ page
    → page < 2 ^ 20
    → Alike page s s'
    → Alike page (puts_scroll cs s) (puts_scroll cs s')
puts_scroll-Alike_both page cs s s' own low (e, agree) =
    subst (λ (z : Screen). Alike page (puts_scroll cs s) (puts_scroll cs z)) (sym e)
      (subst (λ (w : ℕ). Alike w (puts_scroll cs s) (puts_scroll cs (with_memory s s'.memory))) own
        (puts_scroll-Alike cs s s'.memory (omega (arith, own)) (λ a q. agree a (q ∙ own))))

pub load-puts_scroll :
    (task : ℕ) (cs : List ℕ) (s : Screen) (b page : ℕ)
    → video_page s ≡ page
    → page < 2 ^ 20
    → InRange s
    → translate task b / 0x1000 ≢ page
    → load task (puts_scroll cs s).memory b ≡ load task s.memory b
unfolding load
load-puts_scroll task cs s b page own low range off =
    ap (λ (v : ℕ). v % 256)
      (puts_scroll_page cs s (translate task b) (omega (arith, own)) range (rw own off))
