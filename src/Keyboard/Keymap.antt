-- ===== src/Keyboard/Keymap.antt =====
-- The key map of driver/character/keyboard.h: a row for each scan code, with the character of the key
-- alone and of the key with shift; the third column is not used.
use mks.Base.{
  ℕ, ◌<◌, ◌≤◌, ◌≡◌, Option, none, some, List, [], ◌∷◌, get_elem?, get_elem?-below, get_elem?-past,
}

abbrev pub table : List ℕ
table =
    0 ∷ 0 ∷ 0 ∷ 0 ∷ 0 ∷ 0 ∷ 49 ∷ 33 ∷ 0 ∷ 50 ∷ 64 ∷ 0 ∷ 51 ∷ 35 ∷ 0 ∷ 52 ∷ 36 ∷ 0 ∷ 53 ∷ 37 ∷ 0 ∷ 54
    ∷ 94 ∷ 0 ∷ 55 ∷ 38 ∷ 0 ∷ 56 ∷ 42 ∷ 0 ∷ 57 ∷ 40 ∷ 0 ∷ 48 ∷ 41 ∷ 0 ∷ 45 ∷ 95 ∷ 0 ∷ 61 ∷ 43 ∷ 0 ∷ 8
    ∷ 8 ∷ 0 ∷ 9 ∷ 9 ∷ 0 ∷ 113 ∷ 81 ∷ 0 ∷ 119 ∷ 87 ∷ 0 ∷ 101 ∷ 69 ∷ 0 ∷ 114 ∷ 82 ∷ 0 ∷ 116 ∷ 84 ∷ 0
    ∷ 121 ∷ 89 ∷ 0 ∷ 117 ∷ 85 ∷ 0 ∷ 105 ∷ 73 ∷ 0 ∷ 111 ∷ 79 ∷ 0 ∷ 112 ∷ 80 ∷ 0 ∷ 91 ∷ 123 ∷ 0 ∷ 93
    ∷ 125 ∷ 0 ∷ 10 ∷ 10 ∷ 0 ∷ 0 ∷ 0 ∷ 0 ∷ 97 ∷ 65 ∷ 0 ∷ 115 ∷ 83 ∷ 0 ∷ 100 ∷ 68 ∷ 0 ∷ 102 ∷ 70 ∷ 0
    ∷ 103 ∷ 71 ∷ 0 ∷ 104 ∷ 72 ∷ 0 ∷ 106 ∷ 74 ∷ 0 ∷ 107 ∷ 75 ∷ 0 ∷ 108 ∷ 76 ∷ 0 ∷ 59 ∷ 58 ∷ 0 ∷ 39
    ∷ 34 ∷ 0 ∷ 96 ∷ 126 ∷ 0 ∷ 0 ∷ 0 ∷ 0 ∷ 92 ∷ 124 ∷ 0 ∷ 122 ∷ 90 ∷ 0 ∷ 120 ∷ 88 ∷ 0 ∷ 99 ∷ 67 ∷ 0
    ∷ 118 ∷ 86 ∷ 0 ∷ 98 ∷ 66 ∷ 0 ∷ 110 ∷ 78 ∷ 0 ∷ 109 ∷ 77 ∷ 0 ∷ 44 ∷ 60 ∷ 0 ∷ 46 ∷ 62 ∷ 0 ∷ 47 ∷ 63
    ∷ 0 ∷ 0 ∷ 0 ∷ 0 ∷ 42 ∷ 42 ∷ 0 ∷ 0 ∷ 0 ∷ 0 ∷ 32 ∷ 32 ∷ 0 ∷ 0 ∷ 0 ∷ 0 ∷ []

-- `keymap[i]`, with `none` past its end.
unfoldable pub keymap : ℕ → Option ℕ
keymap i = get_elem? table i

-- The table has 59 rows of three.
pub keymap-below : (i : ℕ) → i < 177 → (c : ℕ) × (keymap i ≡ some c)
unfolding keymap
keymap-below i h = get_elem?-below table i h

pub keymap-past : (i : ℕ) → 177 ≤ i → keymap i ≡ none
unfolding keymap
keymap-past i h = get_elem?-past table i h
