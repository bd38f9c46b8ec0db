-- ===== src/Keyboard/Codes.antt =====
-- From scan codes to lines: without Alt, the handler does to the line buffer what the keys' actions
-- do to the line.
use pony_os.Base.{
  ℕ, ◌≡◌, ◌≢◌, refl, ◌∙◌, arith, List, [], ◌∷◌, ◌++◌, ◌&&◌, ltb, ◌==◌, if◌then◌else◌, none, returns,
}
use pony_os.Pic.{Pic, send_eoi}
use pony_os.Process.{Kernel}
use pony_os.Scheduler.{Registers}
use pony_os.Keyboard.{
  Keys, character_convert, press, release, press_key, scancode_processing, read_codes,
  keyboard_interrupt_handler, edit,
}
use pony_os.Keyboard.Tables.{scancodes_map}
use pony_os.Keyboard.Line.{
  Action, typed, erased, wiped, entered, line_after, perform, Shows, perform-Shows,
}

-- The character that a key adds, or Ctrl and L.
abbrev main_action : Keys → ℕ → List Action
main_action keys c =
    if c == 38 && (keys.pressed_key 29 == 1)
    then wiped ∷ []
    else if scancodes_map c == 0
    then []
    else typed (character_convert keys c) ∷ []

-- What Enter and Backspace add.
abbrev last_action : ℕ → List Action
last_action c = if c == 28 then entered ∷ [] else if c == 14 then erased ∷ [] else []

abbrev pub keys_after : ℕ → Keys → Keys
keys_after c keys = if ltb 127 c then release c keys else press c keys

-- What a scan code does while no Alt key is held.
abbrev pub actions : ℕ → Keys → List Action
actions c keys = if ltb 127 c then [] else main_action (press c keys) c ++ last_action c

abbrev pub lines : List Action → List ℕ → List ℕ
lines [] xs = xs
lines (a ∷ as') xs = lines as' (line_after a xs)

abbrev pub performs : List Action → Kernel → Kernel
performs [] k = k
performs (a ∷ as') k = performs as' (perform a k)

performs-Shows :
    (as' : List Action) (k : Kernel) (xs : List ℕ)
    → Shows k xs
    → Shows (performs as' k) (lines as' xs)
      × ((performs as' k).screen.display_terminal ≡ k.screen.display_terminal)
      × ((performs as' k).screen.active_terminal ≡ k.screen.active_terminal)
performs-Shows [] k xs h = (h, refl, refl)
performs-Shows (a ∷ as') k xs h =
    let (now, shown, active) = perform-Shows a k xs h in
    let (later, shown', active') = performs-Shows as' (perform a k) (line_after a xs) now in
    (later, shown' ∙ shown, active' ∙ active)

performs-append :
    (as' bs : List Action) (k : Kernel) → performs (as' ++ bs) k ≡ performs bs (performs as' k)
performs-append [] bs k = refl
performs-append (a ∷ as') bs k = performs-append as' bs (perform a k)

edit-last_action : (c : ℕ) (k : Kernel) → edit c k ≡ performs (last_action c) k
unfolding edit
edit-last_action c k = ground arith

-- No Alt key is held, and none is pressed.
abbrev pub NoAlt : ℕ → Keys → Type 0
NoAlt c keys = (c ≢ 56) × (keys.pressed_key 56 ≢ 1)

abbrev pub all_actions : List ℕ → Keys → List Action
all_actions [] keys = []
all_actions (c ∷ codes) keys = actions c keys ++ all_actions codes (keys_after c keys)

abbrev pub all_after : List ℕ → Keys → Keys
all_after [] keys = keys
all_after (c ∷ codes) keys = all_after codes (keys_after c keys)

abbrev pub NoneIsAlt : List ℕ → Type 0
NoneIsAlt [] = Unit
NoneIsAlt (c ∷ codes) = (c ≢ 56) × NoneIsAlt codes

module _ (fname temp_buf shell_name name : ℕ) where
  press_key_plain :
      (c : ℕ) (keys : Keys) (r : Registers) (k : Kernel)
      → keys.pressed_key 56 ≢ 1
      → press_key fname temp_buf shell_name name c keys r k
        ≡ returns (none, keys, performs (main_action keys c ++ last_action c) k)
  unfolding press_key
  press_key_plain c keys r k plain = ground (
    arith,
    edit-last_action c k,
    edit-last_action c (perform wiped k),
    edit-last_action c (perform (typed (character_convert keys c)) k),
  )

  pub scancode_processing_plain :
      (c : ℕ) (keys : Keys) (r : Registers) (k : Kernel)
      → NoAlt c keys
      → (scancode_processing fname temp_buf shell_name name c keys r k
          ≡ returns (none, keys_after c keys, performs (actions c keys) k))
        × ((keys_after c keys).pressed_key 56 ≢ 1)
  unfolding scancode_processing press release edit
  scancode_processing_plain c keys r k (other, plain) =
      (ground (arith, press_key_plain c (press c keys) r k), ground arith)

  read_codes_plain :
      (codes : List ℕ) (keys : Keys) (r : Registers) (k : Kernel)
      → NoneIsAlt codes
      → keys.pressed_key 56 ≢ 1
      → read_codes fname temp_buf shell_name name codes keys r k
        ≡ returns (none, all_after codes keys, performs (all_actions codes keys) k)
  unfolding read_codes
  read_codes_plain [] keys r k others plain = refl
  read_codes_plain (c ∷ codes) keys r k (other, others) plain =
      let (this, still) = scancode_processing_plain c keys r k (other, plain) in
      let k' = performs (actions c keys) k in
      rw (this, performs-append (actions c keys) (all_actions codes (keys_after c keys)) k)
        (read_codes_plain codes (keys_after c keys) r k' others still)

  -- The interrupt handler on scan codes without Alt, with no Alt key held: it ends, it starts no
  -- program, and it does to the line buffer of the displayed terminal what the codes' actions do to
  -- the line; the displayed and the active terminal stay.
  pub keyboard_interrupt_handler-Shows :
      (codes : List ℕ) (pic : Pic) (keys : Keys) (r : Registers) (k : Kernel) (xs : List ℕ)
      → NoneIsAlt codes
      → keys.pressed_key 56 ≢ 1
      → Shows k xs
      → let k' = performs (all_actions codes keys) k in
        (keyboard_interrupt_handler fname temp_buf shell_name name codes pic keys r k
          ≡ returns (send_eoi 1 pic, none, all_after codes keys, k'))
        × Shows k' (lines (all_actions codes keys) xs)
        × (k'.screen.display_terminal ≡ k.screen.display_terminal)
        × (k'.screen.active_terminal ≡ k.screen.active_terminal)
  unfolding keyboard_interrupt_handler
  keyboard_interrupt_handler-Shows codes pic keys r k xs others plain h =
      let (held, shown, active) = performs-Shows (all_actions codes keys) k xs h in
      (rw (read_codes_plain codes keys r k others plain), held, shown, active)
