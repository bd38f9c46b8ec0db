-- ===== src/Keyboard/ReadLine.antt =====
-- A line from the keys to the process that reads it.
use pony_os.Base.{
  Bool-cases, inl, inr, zero, suc, length-append, ℕ, ◌+◌, ◌*◌, ◌≤◌, ◌<◌, ◌≡◌, ◌≢◌, ap, sym, ◌∙◌,
  arith, List, [], ◌∷◌, ◌++◌, length, get_or, ltb, none, returns, false,
}
use native.Mathlib.Decide.{dec_lt}
use pony_os.Memory.Copy.{Distinct}
use pony_os.Strings.{c_string}
use pony_os.Pic.{Pic, send_eoi}
use pony_os.Process.{Kernel}
use pony_os.Scheduler.{Registers}
use pony_os.Screen.{Screen}
use pony_os.Terminal.{Terminals, print_size, line_limit, terminal_read}
use pony_os.Terminal.Bytes.{get_or-get_bytes}
use pony_os.Terminal.Read.{AreChars, terminal_read-row, get_or_end}
use pony_os.Keyboard.{press, Keys, enter, is_shifted, character_convert, keyboard_interrupt_handler}
use pony_os.Keyboard.Tables.{scancodes_map}
use pony_os.Keyboard.Line.{Shows, line_after, typed, entered, perform, perform-Shows}
use pony_os.Keyboard.Codes.{actions, keyboard_interrupt_handler-Shows}

-- Enter moves the line to the print buffer of its terminal, with zeros behind it.
enter_row :
    (k : Kernel) (xs : List ℕ) (i : ℕ)
    → Shows k xs
    → i < print_size
    → let t = k.screen.display_terminal in
      (enter k).terminals.print_buffer (t * print_size + i) ≡ get_or xs i 0
unfolding enter
enter_row k xs i h p = elim (dec_lt i (length xs)) [
  | yes inside ↦
      let char : k.terminals.keyboard_buffer k.screen.display_terminal (0 + i) ≡ get_or xs i 0 =
        sym (get_or-get_bytes (length xs) _ 0 i inside)
        ∙ ap (λ (zs : List ℕ). get_or zs i 0) h.chars in
      ground (arith, char, h.short)
  | no behind ↦ ground (arith, get_or_end xs i, h.zeros i)
]

enter_row_active :
    (k : Kernel) (xs : List ℕ) (i : ℕ)
    → Shows k xs
    → k.screen.active_terminal ≡ k.screen.display_terminal
    → i < print_size
    → (enter k).terminals.print_buffer ((enter k).screen.active_terminal * print_size + i)
      ≡ get_or xs i 0
unfolding enter
enter_row_active k xs i h on p =
    ap (λ (t : ℕ). (enter k).terminals.print_buffer (t * print_size + i)) on ∙ enter_row k xs i h p

enter_ready :
    (k : Kernel)
    → k.screen.active_terminal ≡ k.screen.display_terminal
    → (enter k).terminals.terminal_read_ready (enter k).screen.active_terminal ≡ 1
unfolding enter
enter_ready k on = ground arith

-- The line that Enter ends: it takes a newline if there is room.
abbrev pub ended_line : List ℕ → List ℕ
ended_line xs = line_after (typed b'\n') xs

length-ended_line : (xs : List ℕ) → length xs ≤ line_limit → length (ended_line xs) ≤ length xs + 1
length-ended_line xs h = ground (arith, length-append xs (b'\n' ∷ []))

AreChars-append :
    (xs : List ℕ)
    → AreChars xs
    → (i : ℕ) → i < length xs + 1
    → (0 < get_or (xs ++ b'\n' ∷ []) i 0) × (get_or (xs ++ b'\n' ∷ []) i 0 < 256)
AreChars-append [] h zero p = omega arith
AreChars-append [] h (suc i) p = absurd (omega arith)
AreChars-append (x ∷ xs) h zero p = h 0 (omega arith)
AreChars-append (x ∷ xs) h (suc i) p =
    AreChars-append xs (λ j q. h (suc j) (omega arith)) i (omega arith)

AreChars-ended_line : (xs : List ℕ) → AreChars xs → AreChars (ended_line xs)
AreChars-ended_line xs h = elim (Bool-cases (ltb (length xs) line_limit)) [
  | inl room ↦ rw room (λ i p. AreChars-append xs h i (rw length-append at p))
  | inr full ↦ rw full h
]

newline : (keys : Keys) → is_shifted keys ≡ false → character_convert (press 28 keys) 28 ≡ b'\n'
unfolding character_convert press scancodes_map is_shifted
newline keys h = ground arith

enter_actions :
    (keys : Keys) → is_shifted keys ≡ false → actions 28 keys ≡ typed b'\n' ∷ entered ∷ []
unfolding scancodes_map
enter_actions keys h = rw (newline keys h)

module _ (fname temp_buf shell_name name : ℕ) (task buf count : ℕ)
    (distinct : Distinct task buf count) (fits : count ≤ print_size) where
  -- When the displayed terminal's line is `xs`, which holds no NUL, the active terminal is the displayed
  -- one, no Alt or Shift is held, and the buffer's bytes are distinct, at most 2050, and more than the
  -- line and a newline take: Enter empties the line, and terminal_read then returns the length of the
  -- line, with a newline at its end if the line had room for one, and leaves just these characters and
  -- a NUL in the process's buffer.
  pub read_line :
      (pic : Pic) (keys : Keys) (r : Registers) (k : Kernel) (xs : List ℕ)
      → Shows k xs
      → AreChars xs
      → length xs + 1 < count
      → keys.pressed_key 56 ≢ 1
      → is_shifted keys ≡ false
      → k.screen.active_terminal ≡ k.screen.display_terminal
      → let ys = ended_line xs in
        (k' : Kernel) × (keyboard_interrupt_handler fname temp_buf shell_name name
            (28 ∷ [])
            pic
            keys
            r
            k
          ≡ returns (send_eoi 1 pic, none, press 28 keys, k'))
        × Shows k' []
        × (ts' : Terminals) × (s' : Screen) × (terminal_read task k'.terminals k'.screen buf count
            ≡ returns (length ys, ts', s'))
        × (c_string task count s'.memory buf ≡ ys)
  read_line pic keys r k xs h chars short plain single same =
      let k1 = perform (typed b'\n') k in
      let acts = enter_actions keys single in
      let (typed_in, shown, active) = perform-Shows (typed b'\n') k xs h in
      let on : k1.screen.active_terminal ≡ k1.screen.display_terminal = active ∙ same ∙ sym shown in
      let (done, empty, shown', active') =
        keyboard_interrupt_handler-Shows fname temp_buf shell_name name (28 ∷ []) pic keys r k xs
          (omega arith, tt) plain h in
      let row = λ (i : ℕ) (p : i ≤ length (ended_line xs)).
        enter_row_active k1 (ended_line xs) i typed_in on (omega arith) in
      let (ts', s', result, string, cleared) =
        terminal_read-row task buf count distinct fits (enter k1).terminals (enter k1).screen
          (ended_line xs) (enter_ready k1 on) (omega (arith, length-ended_line xs h.short))
          (AreChars-ended_line xs chars) row in
      (enter k1, rw acts at done, rw acts at empty, ts', s', result, string)
