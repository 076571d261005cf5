-- ===== src/Keyboard/Examples.antt =====
-- Interrupts of driver/character/keyboard.c on a fresh queue.
use mks.Base.{◌≡◌, refl, some, arith, ltb, ◌>>=◌}
use mks.Keyboard.{KbdQueue, keyboard_init, do_intr_keyboard, shift_l}
use mks.Keyboard.Queue.{is_held, IsValid, Handled, do_intr_keyboard-Handled}
use mks.Keyboard.Strokes.{after, strokes, strokes-is_held}

-- Left shift is held.
abbrev pub queue : KbdQueue
queue = record { buf = λ i. shift_l; head = 2; tail = 3 }

pub queue-IsValid : IsValid queue
queue-IsValid = record { ordered = omega arith; bounded = omega arith; shifts = λ i lo hi. refl }

-- The key A.
do_intr_keyboard-Handled_example : Handled 0x1e queue (do_intr_keyboard 0x1e queue)
do_intr_keyboard-Handled_example = do_intr_keyboard-Handled 0x1e queue (omega arith) queue-IsValid

strokes-is_held_example :
    (k' : KbdQueue) × ((strokes 64 (keyboard_init queue) >>= λ q. after shift_l q) ≡ some k')
    × (is_held k' ≡ ltb 64 64)
strokes-is_held_example = strokes-is_held 64 queue (omega arith)
