-- ===== src/Keyboard/Strokes.antt =====
-- A shift key that is pressed and released again and again, in driver/character/keyboard.c.
use mks.Base.{ℕ, zero, suc, ◌≤◌, ◌<◌, ◌≡◌, refl, Option, some, arith, ltb, ◌>>=◌}
use mks.Keyboard.{KbdQueue, keyboard_init, enqueue, dequeue, do_intr_keyboard, shift_l}
use mks.Keyboard.Queue.{is_held}

-- What the queue is after an interrupt.
abbrev pub after : ℕ → KbdQueue → Option KbdQueue
after code k = do_intr_keyboard code k >>= λ r. some r.1

-- Left shift goes down and up, `n` times.
unfoldable pub strokes : ℕ → KbdQueue → Option KbdQueue
strokes zero k = some k
strokes (suc n) k = strokes n k >>= λ k. after shift_l k >>= λ k. after 0xaa k

down : (k : KbdQueue) → after shift_l k ≡ some (enqueue shift_l k).1
unfolding do_intr_keyboard
down k = refl

up : (k : KbdQueue) → after 0xaa k ≡ some (dequeue k)
unfolding do_intr_keyboard
up k = refl

-- The queue is empty, and its pointers stand `n` places into the buffer.
abbrev pub At : ℕ → KbdQueue → Type 0
At n k = (k.head ≡ n) × (k.tail ≡ n)

next_place : (n : ℕ) (k : KbdQueue) → n < 64 → At n k → At (suc n) (dequeue (enqueue shift_l k).1)
unfolding enqueue dequeue
next_place n k lt (h, t) = ground arith

strokes-At :
    (n : ℕ) (k : KbdQueue)
    → n ≤ 64
    → (k' : KbdQueue) × (strokes n (keyboard_init k) ≡ some k') × At n k'
unfolding strokes keyboard_init
strokes-At zero k le = (keyboard_init k, refl, (refl, refl))
strokes-At (suc n) k le =
    let (k', e, at) = strokes-At n k (omega arith) in
    (
      dequeue (enqueue shift_l k').1,
      rw (e, down k') (up (enqueue shift_l k').1),
      next_place n k' (omega arith) at,
    )

held-At : (n : ℕ) (k : KbdQueue) → n ≤ 64 → At n k → is_held (enqueue shift_l k).1 ≡ ltb n 64
unfolding enqueue
held-At n k le (h, t) = ground arith

-- After the queue has been initialised, the left shift key can be pressed and released any `n` times up
-- to 64, and pressed once more. That last press has its effect exactly if `n` is below 64: each stroke
-- uses up a place of the buffer, and the 65th finds none.
pub strokes-is_held :
    (n : ℕ) (k : KbdQueue)
    → n ≤ 64
    → (k' : KbdQueue) × ((strokes n (keyboard_init k) >>= λ q. after shift_l q) ≡ some k')
      × (is_held k' ≡ ltb n 64)
strokes-is_held n k le =
    let (q, e, at) = strokes-At n k le in ((enqueue shift_l q).1, rw e (down q), held-At n q le at)
