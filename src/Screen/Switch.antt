-- ===== src/Screen/Switch.antt =====
-- Which page a terminal's output goes to, and what a change of the displayed terminal shows.
use pony_os.Base.{
  ℕ, ◌+◌, ◌*◌, ◌/◌, ◌^◌, ◌<◌, ◌≡◌, ◌≢◌, refl, ◌∙◌, arith, if◌then◌else◌, ◌==◌, List, [], ◌∷◌,
}
use pony_os.Paging.{set_active_terminal_paging}
use pony_os.Screen.{
  Screen, physical_page, video_page, set_active_terminal, set_display_terminal, update_cursor,
  scroll, shift_up_on, next_row, new_line, print, putc_on, putc_scroll, puts_scroll,
}
use pony_os.Screen.Cursor.{InRange, scroll_lem, putc_on_confined, putc_scroll-InRange}

-- Output goes to the displayed page exactly when the active terminal is displayed.
abbrev pub IsMapped : Screen → Type 0
IsMapped s = video_page s ≡ (
    if s.active_terminal == s.display_terminal
    then physical_page
    else physical_page + s.active_terminal + 1)

-- Both switches establish the mapping, whatever it was.
pub set_active_terminal-IsMapped : (t : ℕ) (s : Screen) → IsMapped (set_active_terminal t s)
unfolding set_active_terminal set_active_terminal_paging
set_active_terminal-IsMapped t s = ground arith

pub set_display_terminal-IsMapped : (t : ℕ) (s : Screen) → IsMapped (set_display_terminal t s)
unfolding set_display_terminal set_active_terminal_paging
set_display_terminal-IsMapped t s = ground arith

-- Printing changes neither the terminals nor the mapping.
abbrev pub SameTerminals : Screen → Screen → Type 0
SameTerminals s s' =
    (s'.active_terminal ≡ s.active_terminal)
    × (s'.display_terminal ≡ s.display_terminal)
    × (video_page s' ≡ video_page s)

scroll-SameTerminals : (page t : ℕ) (s : Screen) → SameTerminals s (scroll 2 page t s)
unfolding shift_up_on
scroll-SameTerminals page t s = ground (arith, scroll_lem page t s)

pub putc_on-SameTerminals : (page t c : ℕ) (s : Screen) → SameTerminals s (putc_on page t c s)
unfolding putc_on new_line print
putc_on-SameTerminals page t c s =
    ground (arith, scroll-SameTerminals page t s, scroll-SameTerminals page t (next_row t s))

putc_scroll-SameTerminals : (c : ℕ) (s : Screen) → SameTerminals s (putc_scroll c s)
unfolding putc_scroll update_cursor
putc_scroll-SameTerminals c s =
    ground (arith, putc_on-SameTerminals (video_page s) s.active_terminal c s)

pub putc_scroll_page :
    (c : ℕ) (s : Screen) (a : ℕ)
    → video_page s < 2 ^ 20
    → InRange s
    → a / 0x1000 ≢ video_page s
    → (putc_scroll c s).memory a ≡ s.memory a
unfolding putc_scroll update_cursor
putc_scroll_page c s a low h out =
    ground (arith, putc_on_confined (video_page s) s.active_terminal c s a low h (ground arith))

-- However much a process on a terminal in the background prints, the displayed page stays as it is.
pub puts_scroll_background :
    (cs : List ℕ) (s : Screen) (a : ℕ)
    → InRange s
    → IsMapped s
    → s.active_terminal ≢ s.display_terminal
    → s.active_terminal < 3
    → a / 0x1000 ≡ physical_page
    → (puts_scroll cs s).memory a ≡ s.memory a
unfolding puts_scroll
puts_scroll_background [] s a h mapped back few shown = refl
puts_scroll_background (c ∷ cs) s a h mapped back few shown =
    puts_scroll_background cs (putc_scroll c s) a (putc_scroll-InRange c s h) (ground (arith, same))
      (ground (arith, same)) (ground (arith, same)) shown
    ∙ putc_scroll_page c s a (ground arith) h (ground arith)
  where
    same : SameTerminals s (putc_scroll c s)
    same = putc_scroll-SameTerminals c s

-- The displayed page and the saved one change places: the old terminal's cells are kept, and the
-- new one's are shown; nothing outside of these two pages changes.
pub set_display_terminal_lem :
    (t : ℕ) (s : Screen)
    → t ≢ s.display_terminal
    → let s' = set_display_terminal t s in
      (s'.display_terminal ≡ t)
      × (s'.active_terminal ≡ s.active_terminal)
      × ((o : ℕ)
          → o < 0x1000
          → (s'.memory (physical_page * 0x1000 + o)
              ≡ s.memory ((physical_page + t + 1) * 0x1000 + o))
            × (s'.memory ((physical_page + s.display_terminal + 1) * 0x1000 + o)
                ≡ s.memory (physical_page * 0x1000 + o)))
      × ((a : ℕ)
          → a / 0x1000 ≢ physical_page
          → a / 0x1000 ≢ physical_page + s.display_terminal + 1
          → s'.memory a ≡ s.memory a)
unfolding set_display_terminal
set_display_terminal_lem t s ne =
    (refl, refl, λ o p. (ground arith, ground arith), λ a p q. ground arith)
