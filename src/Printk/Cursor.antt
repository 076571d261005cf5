-- ===== src/Printk/Cursor.antt =====
-- The cursor of kernel/printk.c: text output ends, and leaves the cursor on the screen.
use mks.Base.{
  ℕ, suc, ◌+◌, ◌%◌, ◌<◌, ◌≡◌, refl, Option, some, List, [], ◌∷◌, arith, ltb, inl, inr, Bool-cases,
  length,
}
use mks.Printk.{
  Screen, store_char, println, prints_with, update_cursor, banner, con_init_with, con_init,
  write_char_at, write_char, prints, printk, blank, orig,
}

-- 80 columns and 25 lines.
pub record IsOnScreen (s : Screen) : Type 0 where
  pub x_in : s.x < 80
  pub y_in : s.y < 25

-- A result, with the cursor on the screen.
abbrev pub Stays : Option Screen → Type 0
Stays r = (s : Screen) × (r ≡ some s) × IsOnScreen s

pub store_char-x : (c : ℕ) (s : Screen) → s.x < 80 → (store_char c s).x < 80
unfolding store_char
store_char-x c s h = ground arith

-- Away from the end of a line the cursor moves by one.
pub write_char_at-inside :
    (k c : ℕ) (s : Screen)
    → s.x + 1 < 80
    → s.y < 25
    → write_char_at (suc k) c s ≡ some (store_char c s)
unfolding write_char_at store_char
write_char_at-inside k c s hx hy = ground arith

pub store_char-next :
    (c : ℕ) (s : Screen)
    → s.x + 1 < 80
    → ((store_char c s).x ≡ s.x + 1) × ((store_char c s).y ≡ s.y)
unfolding store_char
store_char-next c s hx = ground arith

-- A text that fits in the line.
prints_with-line :
    (k : ℕ) (cs : List ℕ) (s : Screen)
    → s.x + length cs < 80
    → s.y < 25
    → (s' : Screen) × (prints_with (write_char_at (suc k)) cs s ≡ some s')
      × (s'.x ≡ s.x + length cs)
      × (s'.y ≡ s.y)
unfolding prints_with
prints_with-line k [] s hx hy = (s, refl, omega arith, refl)
prints_with-line k (c ∷ cs) s hx hy =
    let (nx, ny) = store_char-next c s (omega arith) in
    let (s', e, ex, ey) =
      prints_with-line k cs (store_char c s) (omega (arith, nx)) (omega (arith, ny)) in
    (
      s',
      rw (write_char_at-inside k c s (omega arith) hy) e,
      omega (arith, ex, nx),
      omega (arith, ey, ny),
    )

pub println-IsOnScreen : (s : Screen) → s.y < 25 → IsOnScreen (println s)
unfolding println
println-IsOnScreen s h = elim (Bool-cases (ltb (s.y + 1) 25)) [
  | inl more ↦ rw more (record { x_in = omega arith; y_in = ground arith })
  | inr end ↦ rw end (record { x_in = omega arith; y_in = omega arith })
]

con_init_with-Stays : (k : ℕ) (s : Screen) → Stays (con_init_with (write_char_at (suc k)) s)
unfolding con_init_with update_cursor
con_init_with-Stays k s =
    let (s', e, ex, ey) =
      prints_with-line k banner (record s { cell = blank 2000 orig s.cell; x = 0; y = 0 })
        (omega arith) (omega arith) in
    let on = println-IsOnScreen s' (omega (arith, ey)) in
    (update_cursor (println s'), rw e refl, record { x_in = on.x_in; y_in = on.y_in })

pub con_init-Stays : (s : Screen) → Stays (con_init s)
unfolding con_init write_char
con_init-Stays s = con_init_with-Stays 1 s

write_char-Stays : (c : ℕ) (s : Screen) → IsOnScreen s → Stays (write_char c s)
unfolding write_char write_char_at
write_char-Stays c s h = elim (Bool-cases (ltb (store_char c s).y 25)) [
  | inl more ↦
      rw more (store_char c s, refl, record { x_in = store_char-x c s h.x_in; y_in = ground arith })
  | inr end ↦
      let (s', e, on) = con_init_with-Stays 0 (store_char c s) in
      rw end
        (rw e (record s' { y = s'.y % 25 }, refl, record { x_in = on.x_in; y_in = omega arith }))
]

pub prints_with-Stays :
    (cs : List ℕ) (s : Screen) → IsOnScreen s → Stays (prints_with write_char cs s)
unfolding prints_with
prints_with-Stays [] s h = (s, refl, h)
prints_with-Stays (c ∷ cs) s h =
    let (s', e, on) = write_char-Stays c s h in rw e (prints_with-Stays cs s' on)

-- Printing any text ends, from any place of the cursor on the screen. The result is the number of
-- characters, and the cursor is on the screen again, at the start of a line. So is it after the
-- initialisation, wherever the cursor was.
pub printk-Stays :
    (cs : List ℕ) (s : Screen)
    → IsOnScreen s
    → ((s' : Screen) × (printk cs s ≡ some (length cs, s')) × IsOnScreen s' × (s'.x ≡ 0))
      × ((before : Screen) → Stays (con_init before))
unfolding printk prints con_init println write_char
printk-Stays cs s h =
    let (s', e, on) = prints_with-Stays cs s h in
    ((println s', rw e refl, println-IsOnScreen s' on.y_in, ground arith), con_init-Stays)
