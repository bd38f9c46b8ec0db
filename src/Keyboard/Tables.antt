-- ===== src/Keyboard/Tables.antt =====
-- The character tables of student-distrib/scancode.c.
use pony_os.Base.{ℕ, ◌+◌, ◌-◌, List, [], ◌∷◌, ◌&&◌, leb, if◌then◌else◌}
use pony_os.Screen.{update}

-- Stores to a table, in order.
stores : List (ℕ × ℕ) → (ℕ → ℕ) → ℕ → ℕ
stores [] f = f
stores ((i, v) ∷ ps) f = stores ps (update f i v)

-- The two loops over the letters, on a table of zeros.
abbrev letters : ℕ → ℕ
letters i =
    if leb (b'a') i && leb i (b'z')
    then i - 32
    else if leb (b'A') i && leb i (b'Z')
    then i + 32
    else 0

-- Character codes: `1` becomes `!`, and so on.
abbrev shifted : List (ℕ × ℕ)
shifted =
    (49, 33)
    ∷ (50, 64)
    ∷ (51, 35)
    ∷ (52, 36)
    ∷ (53, 37)
    ∷ (54, 94)
    ∷ (55, 38)
    ∷ (56, 42)
    ∷ (57, 40)
    ∷ (48, 41)
    ∷ (45, 95)
    ∷ (61, 43)
    ∷ (91, 123)
    ∷ (93, 125)
    ∷ (92, 124)
    ∷ (59, 58)
    ∷ (39, 34)
    ∷ (44, 60)
    ∷ (46, 62)
    ∷ (47, 63)
    ∷ []

-- Scan codes and the codes of their characters.
abbrev keys : List (ℕ × ℕ)
keys =
    (82, 48)
    ∷ (79, 49)
    ∷ (80, 50)
    ∷ (81, 51)
    ∷ (75, 52)
    ∷ (76, 53)
    ∷ (77, 54)
    ∷ (71, 55)
    ∷ (72, 56)
    ∷ (73, 57)
    ∷ (78, 43)
    ∷ (74, 45)
    ∷ (11, 48)
    ∷ (2, 49)
    ∷ (3, 50)
    ∷ (4, 51)
    ∷ (5, 52)
    ∷ (6, 53)
    ∷ (7, 54)
    ∷ (8, 55)
    ∷ (9, 56)
    ∷ (10, 57)
    ∷ (16, 113)
    ∷ (17, 119)
    ∷ (18, 101)
    ∷ (19, 114)
    ∷ (20, 116)
    ∷ (21, 121)
    ∷ (22, 117)
    ∷ (23, 105)
    ∷ (24, 111)
    ∷ (25, 112)
    ∷ (30, 97)
    ∷ (31, 115)
    ∷ (32, 100)
    ∷ (33, 102)
    ∷ (34, 103)
    ∷ (35, 104)
    ∷ (36, 106)
    ∷ (37, 107)
    ∷ (38, 108)
    ∷ (44, 122)
    ∷ (45, 120)
    ∷ (46, 99)
    ∷ (47, 118)
    ∷ (48, 98)
    ∷ (49, 110)
    ∷ (50, 109)
    ∷ (57, 32)
    ∷ (15, 9)
    ∷ (28, 10)
    ∷ (51, 44)
    ∷ (52, 46)
    ∷ (43, 92)
    ∷ (53, 47)
    ∷ (12, 45)
    ∷ (13, 61)
    ∷ (40, 39)
    ∷ (39, 59)
    ∷ (26, 91)
    ∷ (27, 93)
    ∷ []

-- The tables after init_scancodes_map.
unfoldable pub special_convert_map : ℕ → ℕ
unfolding stores
special_convert_map = stores shifted letters

unfoldable pub scancodes_map : ℕ → ℕ
unfolding stores
scancodes_map = stores keys (λ i. 0)
