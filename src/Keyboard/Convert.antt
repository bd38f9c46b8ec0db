-- ===== src/Keyboard/Convert.antt =====
-- Which character a key stands for.
use pony_os.Base.{
  ℕ, ◌-◌, ◌≤◌, ◌≡◌, refl, true, false, not, ◌&&◌, ◌||◌, leb, ◌==◌, if◌then◌else◌, arith, passes,
  passes_at, Bool-cases, inl, inr,
}
use pony_os.Keyboard.{Keys, is_shifted, character_convert}
use pony_os.Keyboard.Tables.{scancodes_map, special_convert_map}

upper_table :
    passes
      (λ c.
        not (leb 97 c && leb c 122)
        || ((special_convert_map c == c - 32) && (special_convert_map (c - 32) == c)))
      256
    ≡ true
unfolding passes special_convert_map
upper_table = refl

upper_lem :
    (c : ℕ)
    → 97 ≤ c
    → c ≤ 122
    → (special_convert_map c ≡ c - 32) × (special_convert_map (c - 32) ≡ c)
upper_lem c low high =
    let table = passes_at _ 256 c upper_table (omega arith) in (ground arith, ground arith)

-- For a key with a letter: the character is the upper-case letter when just one of caps lock and
-- shift is on, and the lower-case letter otherwise.
pub character_convert_letter :
    (keys : Keys) (c : ℕ)
    → 97 ≤ scancodes_map c
    → scancodes_map c ≤ 122
    → character_convert keys c ≡ (
        if ((keys.cap_status == 1) && not (is_shifted keys))
          || (not (keys.cap_status == 1) && is_shifted keys)
        then scancodes_map c - 32
        else scancodes_map c)
unfolding character_convert
character_convert_letter keys c low high =
    let (up, down) = upper_lem (scancodes_map c) low high in
    let some_key : scancodes_map c == 0 ≡ false = ground arith in
    let from : leb 97 (scancodes_map c) ≡ true = ground arith in
    let to : leb (scancodes_map c) 122 ≡ true = ground arith in
    elim (Bool-cases (is_shifted keys)) [
      | inl shift ↦ elim (Bool-cases (keys.cap_status == 1)) [
        | inl caps ↦ rw (some_key, from, to, shift, caps, up) down
        | inr plain ↦ rw (some_key, from, to, shift, plain) up
      ]
      | inr single ↦ elim (Bool-cases (keys.cap_status == 1)) [
        | inl caps ↦ rw (some_key, from, to, single, caps) up
        | inr plain ↦ rw (some_key, from, to, single, plain) refl
      ]
    ]

space_table : (scancodes_map 57 == 32) && (special_convert_map 32 == 0) ≡ true
unfolding scancodes_map special_convert_map
space_table = refl

-- With shift, the space bar stands for the character 0, which ends the line in the line buffer.
pub character_convert_space : (keys : Keys) → is_shifted keys ≡ true → character_convert keys 57 ≡ 0
unfolding character_convert
character_convert_space keys shift = ground (arith, space_table)
