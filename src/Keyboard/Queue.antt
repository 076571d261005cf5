-- ===== src/Keyboard/Queue.antt =====
-- The queue of shift keys in driver/character/keyboard.c, over all interrupts.
use mks.Base.{
  ℕ, ◌+◌, ◌-◌, ◌<◌, ◌≤◌, ◌≡◌, ◌≢◌, refl, Bool, true, false, Option, none, some, arith, inl, inr,
  Bool-cases, ◌==◌, not, if◌then◌else◌, bit_and, update_self, update_ne, bytes_eq, ==_true, ltb,
  ◌&&◌, ◌||◌, ◌*◌,
}
use mks.Keyboard.{
  KbdQueue, Effect, quiet, prints, print_char, enqueue, dequeue, headqueue, is_shift, char_of,
  do_intr_keyboard, kbd_buf_size,
}
use mks.Keyboard.Keymap.{keymap, keymap-below, keymap-past}

-- Head and tail lie in the buffer, in order, and the keys between them are shift keys.
pub record IsValid (k : KbdQueue) : Type 0 where
  pub ordered : k.head ≤ k.tail
  pub bounded : k.tail ≤ kbd_buf_size
  pub shifts : (i : ℕ) → k.head ≤ i → i < k.tail → is_shift (k.buf i) ≡ true

enqueue-IsValid : (c : ℕ) (k : KbdQueue) → is_shift c ≡ true → IsValid k → IsValid (enqueue c k).1
unfolding enqueue
enqueue-IsValid c k shift v = elim (Bool-cases (k.tail == kbd_buf_size)) [
  | inl full ↦ rw full v
  | inr space ↦ rw space (record {
    ordered = omega (arith, v.ordered);
    bounded = ground (arith, v.bounded);
    shifts = λ i lo hi. elim (Bool-cases (i == k.tail)) [
      | inl new ↦ rw (==_true i k.tail new, update_self k.buf k.tail c) shift
      | inr old ↦
          let ne : i ≢ k.tail = ground arith in
          rw (update_ne k.buf k.tail i c ne) (v.shifts i lo (omega arith))
    ];
  })
]

dequeue-IsValid : (k : KbdQueue) → IsValid k → IsValid (dequeue k)
unfolding dequeue
dequeue-IsValid k v = elim (Bool-cases (k.tail == 0)) [
  | inl empty ↦ rw empty v
  | inr some_key ↦ rw some_key (elim (Bool-cases (k.head == k.tail && not (k.head == 0))) [
    | inl spent ↦ rw spent (record {
      ordered = omega arith;
      bounded = omega arith;
      shifts = λ i lo hi. absurd (omega arith);
    })
    | inr held ↦ rw held (record {
      ordered = ground (arith, v.ordered);
      bounded = v.bounded;
      shifts = λ i lo hi. v.shifts i (omega arith) hi;
    })
  ])
]

-- A shift key is held: the queue has one more make code than break codes.
abbrev pub is_held : KbdQueue → Bool
is_held k = ltb k.head k.tail

headqueue-is_shift : (k : KbdQueue) → IsValid k → is_shift (headqueue k) ≡ is_held k
unfolding headqueue
headqueue-is_shift k v = elim (Bool-cases (k.tail == k.head)) [
  | inl none_held ↦ rw none_held (ground arith)
  | inr held ↦
      let lt : k.head < k.tail = ground (arith, v.ordered) in
      rw (held, v.shifts k.head (omega arith) lt) (ground arith)
]

make_bit : (code : ℕ) → code < 256 → (bit_and code 0x80 == 0) ≡ ltb code 128
make_bit code h = bytes_eq (λ c. bit_and c 0x80 == 0) (λ c. ltb c 128) code refl h

break_shift :
    (code : ℕ) → code < 256 → 128 ≤ code → is_shift (bit_and code 0x7f) ≡ is_shift (code - 128)
break_shift code h lo =
    let low : ltb code 128 ≡ false = ground arith in
    rw low at (
      bytes_eq (λ c. ltb c 128 || is_shift (bit_and c 0x7f)) (λ c. ltb c 128 || is_shift (c - 128))
        code refl h)

-- The make codes of shift keys that no break code has answered.
abbrev pub count : KbdQueue → ℕ
count k = k.tail - k.head

abbrev pub column : KbdQueue → ℕ
column k = if is_held k then 1 else 0

-- What an interrupt with the scan code `code` comes to.
pub data Handled (code : ℕ) (k : KbdQueue) (r : Option (Effect × KbdQueue)) : Type 0 where
  types :
      (c : ℕ)
      → is_shift code ≡ false
      → code < 59
      → keymap (code * 3 + column k) ≡ some c
      → r ≡ some (prints c, k)
      → Handled code k r
  reads_past : is_shift code ≡ false → 59 ≤ code → code < 128 → r ≡ none → Handled code k r
  shift_down :
      (k' : KbdQueue)
      → is_shift code ≡ true
      → IsValid k'
      → count k' ≡ (if k.tail == kbd_buf_size then count k else count k + 1)
      → r ≡ some (quiet, k')
      → Handled code k r
  shift_up :
      (k' : KbdQueue)
      → 128 ≤ code
      → is_shift (code - 128) ≡ true
      → IsValid k'
      → count k' ≡ count k - 1
      → r ≡ some (quiet, k')
      → Handled code k r
  key_up : 128 ≤ code → is_shift (code - 128) ≡ false → r ≡ some (quiet, k) → Handled code k r

enqueue-count :
    (c : ℕ) (k : KbdQueue)
    → IsValid k
    → count (enqueue c k).1 ≡ (if k.tail == kbd_buf_size then count k else count k + 1)
unfolding enqueue
enqueue-count c k v = elim (Bool-cases (k.tail == kbd_buf_size)) [
  | inl full ↦ rw full refl
  | inr space ↦ rw space (omega (arith, v.ordered))
]

dequeue-count : (k : KbdQueue) → IsValid k → count (dequeue k) ≡ count k - 1
unfolding dequeue
dequeue-count k v = ground (arith, v.ordered)

make-Handled :
    (code : ℕ) (k : KbdQueue)
    → IsValid k
    → code < 128
    → is_shift code ≡ false
    → Handled code k (print_char (char_of code (if is_shift (headqueue k) then 1 else 0)) k)
unfolding char_of
make-Handled code k v lo plain = rw (headqueue-is_shift k v) (elim (Bool-cases (ltb code 59)) [
  | inl row ↦
      let (c, e) = keymap-below (code * 3 + column k) (ground arith) in
      types c plain (ground arith) e (rw e refl)
  | inr past ↦
      reads_past plain (ground arith) lo
        (rw (keymap-past (code * 3 + column k) (ground arith)) refl)
])

-- For every scan code below 256 and every queue in order: a key of the map prints its character, that
-- of the shift column exactly if a shift key is held; a key beyond the map reads past it; a shift key
-- going down is counted unless the buffer is used up, and one going up takes one off the count; any
-- other break code does nothing. The queue stays in order.
pub do_intr_keyboard-Handled :
    (code : ℕ) (k : KbdQueue) → code < 256 → IsValid k → Handled code k (do_intr_keyboard code k)
unfolding do_intr_keyboard
do_intr_keyboard-Handled code k h v = rw (make_bit code h) (elim (Bool-cases (ltb code 128)) [
  | inl make ↦ rw make (elim (Bool-cases (is_shift code)) [
    | inl shift ↦ rw shift (
        shift_down (enqueue code k).1 shift (enqueue-IsValid code k shift v)
          (enqueue-count code k v) refl)
    | inr plain ↦ rw plain (make-Handled code k v (ground arith) plain)
  ])
  | inr break ↦
      rw (break, break_shift code h (ground arith))
        (elim (Bool-cases (is_shift (code - 128))) [
          | inl shift ↦ rw shift (
              shift_up (dequeue k) (ground arith) shift (dequeue-IsValid k v) (dequeue-count k v)
                refl)
          | inr plain ↦ rw plain (key_up (ground arith) plain refl)
        ])
])
