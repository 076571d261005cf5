-- ===== src/Keyboard.antt =====
-- The keyboard driver: driver/character/keyboard.c and driver/character/keyboard.h.
pub mod Keymap
pub mod Queue
pub mod Strokes
pub mod Examples
use mks.Base.{
  ℕ, zero, suc, ◌+◌, ◌*◌, Bool, Option, none, some, List, [], ◌∷◌, ◌++◌, ◌&&◌, ◌||◌, not, ◌==◌,
  if◌then◌else◌, bit_and, minus_one, update,
}
use mks.Keyboard.Keymap.{keymap}

abbrev pub kbd_buf_size : ℕ
kbd_buf_size = 64

abbrev pub shift_l : ℕ
shift_l = 0x2a

abbrev pub shift_r : ℕ
shift_r = 0x36

abbrev pub map_col : ℕ
map_col = 3

-- `struct kbdqueue`: the pointers as indices of `buf`.
pub record KbdQueue : Type 0 where
  pub buf : ℕ → ℕ
  pub head : ℕ
  pub tail : ℕ

-- The static buffer is zero before it is first used.
unfoldable pub keyboard_init : KbdQueue → KbdQueue
keyboard_init k = record k { head = 0; tail = 0 }

unfoldable pub enqueue : ℕ → KbdQueue → ℕ × KbdQueue
enqueue code k =
    if k.tail == kbd_buf_size
    then (minus_one, k)
    else (0, record k { buf = update k.buf k.tail code; tail = k.tail + 1 })

unfoldable pub dequeue : KbdQueue → KbdQueue
dequeue k =
    if k.tail == 0
    then k
    else if k.head == k.tail && not (k.head == 0)
    then record k { head = 0; tail = 0 }
    else record k { head = k.head + 1 }

unfoldable pub headqueue : KbdQueue → ℕ
headqueue k = if k.tail == k.head then 0 else k.buf k.head

abbrev pub is_shift : ℕ → Bool
is_shift code = code == shift_l || code == shift_r

-- The character of a key; the code reads past the table for a key that it has no row for.
unfoldable pub char_of : ℕ → ℕ → Option ℕ
char_of scan_code col = keymap (scan_code * map_col + col)

-- What one interrupt does: the character printed, if one is, and the queue. `none` is a read past
-- the key map. The interrupt ends by sending 0x20 to port 0x20.
pub data Effect : Type 0 where
  quiet : Effect
  prints : ℕ → Effect

abbrev pub print_char : Option ℕ → KbdQueue → Option (Effect × KbdQueue)
print_char none k = none
print_char (some c) k = some (prints c, k)

unfoldable pub do_intr_keyboard : ℕ → KbdQueue → Option (Effect × KbdQueue)
do_intr_keyboard scan_code k =
    if bit_and scan_code 0x80 == 0
    then (if not (is_shift scan_code)
        then print_char (char_of scan_code (if is_shift (headqueue k) then 1 else 0)) k
        else some (quiet, (enqueue scan_code k).1))
    else if is_shift (bit_and scan_code 0x7f)
    then some (quiet, dequeue k)
    else some (quiet, k)
