-- ===== src/Printk.antt =====
-- Text output: kernel/printk.c. The screen memory is a function of its address.
pub mod Cursor
pub mod Cells
pub mod Numbers
pub mod Examples
use mks.Base.{
  ℕ, zero, suc, ◌+◌, ◌-◌, ◌*◌, ◌/◌, ◌%◌, ◌^◌, Bool, Option, none, some, List, [], ◌∷◌, ◌++◌, ◌&&◌,
  ltb, ◌==◌, if◌then◌else◌, bit_and, bit_or, word_mod, update, length, ◌>>=◌,
}

-- The bytes of the screen, the cursor, the static `pos`, and what has been sent to the ports.
pub record Screen : Type 0 where
  pub cell : ℕ → ℕ
  pub x : ℕ
  pub y : ℕ
  pub pos : ℕ
  pub ports : List (ℕ × ℕ)

-- `ORIG`
abbrev pub orig : ℕ
orig = 0xb8000

abbrev pub video_num_columns : ℕ
video_num_columns = 80

abbrev pub attr : ℕ
attr = 7

-- The address of the character at a place of the screen.
abbrev pub place : ℕ → ℕ → ℕ
place x y = orig + video_num_columns * 2 * y + x * 2

abbrev pub put_cell : ℕ → ℕ → (ℕ → ℕ) → ℕ → ℕ
put_cell a c f = update (update f a c) (a + 1) attr

-- `while (ph < pe) { *ph++ = 32; *ph++ = attr; }`, with the cells left.
unfoldable pub blank : ℕ → ℕ → (ℕ → ℕ) → ℕ → ℕ
blank zero ph f = f
blank (suc k) ph f = blank k (ph + 2) (put_cell ph 32 f)

-- The cells from `ph` up to `pe`; an odd byte at the end takes a cell of its own.
abbrev pub cells : ℕ → ℕ → ℕ
cells ph pe = (pe - ph + 1) / 2

unfoldable pub update_cursor : Screen → Screen
update_cursor s =
    let p = orig + (video_num_columns * s.y + s.x) * 2 in
    record s {
      pos = p;
      ports =
          s.ports
          ++ (0xe, 0x3d4)
            ∷ (bit_and (p / 2 ^ 8) 0xff, 0x3d5)
            ∷ (0xf, 0x3d4)
            ∷ (bit_and p 0xff, 0x3d5)
            ∷ [];
    }

unfoldable pub println : Screen → Screen
println s =
    let ph = place s.x s.y in
    let y = s.y + 1 in
    if ltb y 25
    then record s { cell = blank (cells ph (place 0 (y + 1))) ph s.cell; x = 0; y = y }
    else record s {
      cell = blank (cells ph (place 0 y)) ph (blank (cells orig (orig + 160)) orig s.cell);
      x = 0;
      y = 0;
    }

-- The part of `write_char` before its test for the end of the screen.
unfoldable pub store_char : ℕ → Screen → Screen
store_char ch s =
    let p = place s.x s.y in
    let x = s.x + 1 in
    record s {
      cell = put_cell p ch s.cell;
      pos = p;
      x = if ltb x 80 then x else x % 80;
      y = if ltb x 80 then s.y else s.y + x / 80;
    }

-- `prints`, by the function that writes a character.
unfoldable pub prints_with : (ℕ → Screen → Option Screen) → List ℕ → Screen → Option Screen
prints_with put [] s = some s
prints_with put (c ∷ cs) s = put c s >>= λ s'. prints_with put cs s'

-- What `con_init` prints.
abbrev pub banner : List ℕ
banner =
    32 ∷ 32 ∷ 32 ∷ 32 ∷ 32 ∷ 32 ∷ 32 ∷ 32 ∷ 32 ∷ 32 ∷ 32 ∷ 32 ∷ 32 ∷ 32 ∷ 32 ∷ 32 ∷ 32 ∷ 32 ∷ 77
    ∷ 75 ∷ 83 ∷ 32 ∷ 45 ∷ 45 ∷ 32 ∷ 77 ∷ 105 ∷ 99 ∷ 114 ∷ 111 ∷ 32 ∷ 75 ∷ 101 ∷ 114 ∷ 110 ∷ 101
    ∷ 108 ∷ 32 ∷ 102 ∷ 111 ∷ 114 ∷ 32 ∷ 83 ∷ 116 ∷ 117 ∷ 100 ∷ 121 ∷ 32 ∷ 32 ∷ 32 ∷ 32 ∷ 32 ∷ 32
    ∷ 32 ∷ 32 ∷ 32 ∷ 32 ∷ 32 ∷ 32 ∷ 32 ∷ 32 ∷ 32 ∷ 32 ∷ 32 ∷ 32 ∷ 32 ∷ []

unfoldable pub con_init_with : (ℕ → Screen → Option Screen) → Screen → Option Screen
con_init_with put s =
    let cleared = record s { cell = blank 2000 orig s.cell; x = 0; y = 0 } in
    prints_with put banner cleared >>= λ s'. some (update_cursor (println s'))

-- `write_char` calls `con_init` past the end of the screen, which calls `write_char` again. The first
-- argument bounds the depth of these calls.
unfoldable pub write_char_at : ℕ → ℕ → Screen → Option Screen
write_char_at zero ch s = none
write_char_at (suc depth) ch s =
    let put = write_char_at depth in
    let s' = store_char ch s in
    if ltb s'.y 25
    then some s'
    else (con_init_with put s' >>= λ s''. some (record s'' { y = s''.y % 25 }))

unfoldable pub write_char : ℕ → Screen → Option Screen
write_char = write_char_at 2

unfoldable pub con_init : Screen → Option Screen
con_init = con_init_with write_char

-- The result is the number of characters.
unfoldable pub prints : List ℕ → Screen → Option (ℕ × Screen)
prints text s = prints_with write_char text s >>= λ s'. some (length text, s')

unfoldable pub printk : List ℕ → Screen → Option (ℕ × Screen)
printk text s = prints text s >>= λ r. some (r.0, println r.1)

-- The characters that `print_charina` writes, by the depth of its recursion: ten digits at most.
unfoldable pub digits_of : ℕ → ℕ → List ℕ
digits_of zero a = []
digits_of (suc k) a = if a == 0 then [] else digits_of k (a / 10) ++ (a - a / 10 * 10 + 48) ∷ []

-- `b = ~(b - 1)`
abbrev pub negated : ℕ → ℕ
negated b = word_mod - 1 - (b + word_mod - 1) % word_mod

unfoldable pub chars_of_long : ℕ → List ℕ
chars_of_long a =
    let minus = a / 2 ^ 31 == 1 in
    let b = if minus then negated a else a in
    let c = b % 2 ^ 31 in
    (if minus then b'-' ∷ [] else []) ++ (if c == 0 then 48 ∷ [] else digits_of 10 c)

unfoldable pub printa : ℕ → Screen → Option Screen
printa a = prints_with write_char (chars_of_long a)

-- `for (i = 32; i > 0; i--)`: the top bit, then the word shifted left.
unfoldable pub bits_of : ℕ → ℕ → List ℕ
bits_of zero e = []
bits_of (suc k) e = (if e / 2 ^ 31 % 2 == 0 then 48 else 49) ∷ bits_of k (e * 2 % word_mod)

unfoldable pub printbin : ℕ → Screen → Option Screen
printbin e = prints_with write_char (bits_of 32 e)

-- `(c << 4) | (c >> 4)` as an unsigned char, and the digit of its lower half.
unfoldable pub turn_byte : ℕ → ℕ
turn_byte c = bit_or (c * 16 % 256) (c / 16)

unfoldable pub hex_digit : ℕ → ℕ
hex_digit c = let tmp = bit_and c 0xf in if ltb 9 tmp then tmp - 10 + b'A' else tmp + b'0'

unfoldable pub chars_of_byte : ℕ → List ℕ
chars_of_byte c =
    let high = turn_byte c in 48 ∷ 120 ∷ hex_digit high ∷ hex_digit (turn_byte high) ∷ []

unfoldable pub printhex : ℕ → Screen → Option Screen
printhex c = prints_with write_char (chars_of_byte c)

unfoldable pub printchar : ℕ → Screen → Screen
printchar c s =
    let p = orig + (video_num_columns * s.y + s.x) * 2 in
    let x = s.x + 1 in
    let x' = if ltb x 80 then x else 0 in
    let y' = if ltb x 80 then s.y else s.y + 1 in
    record s {
      cell = put_cell p c s.cell;
      pos = p;
      x = if ltb y' 25 then x' else 0;
      y = if ltb y' 25 then y' else 1;
    }
