-- ===== src/Printk/Cells.antt =====
-- The screen memory of kernel/printk.c: text output writes to the 4000 bytes from `ORIG` on, and to no others.
use mks.Base.{
  ℕ, zero, suc, ◌+◌, ◌*◌, ◌%◌, ◌<◌, ◌≤◌, ◌≡◌, ◌⊎◌, refl, ◌∙◌, Option, some, List, [], ◌∷◌, arith,
  ltb, inl, inr, Bool-cases, length, update, update_ne,
}
use mks.Printk.{
  Screen, store_char, println, prints_with, update_cursor, banner, con_init_with, con_init,
  write_char_at, write_char, prints, printk, printa, printbin, printhex, printchar, blank, orig,
  put_cell, chars_of_long, bits_of, chars_of_byte,
}
use mks.Printk.Cursor.{
  IsOnScreen, println-IsOnScreen, store_char-x, store_char-next, write_char_at-inside,
}

-- Outside of the screen memory.
abbrev pub IsOff : ℕ → Type 0
IsOff a = (a < orig) ⊎ (orig + 4000 ≤ a)

abbrev pub Keeps : (ℕ → ℕ) → (ℕ → ℕ) → Type 0
Keeps f g = (a : ℕ) → IsOff a → g a ≡ f a

-- The output ends with the cursor on the screen, and has written to the screen only.
abbrev pub Draws : Screen → Option Screen → Type 0
Draws s r = (s' : Screen) × (r ≡ some s') × IsOnScreen s' × Keeps s.cell s'.cell

put_cell-Keeps : (p c : ℕ) (f : ℕ → ℕ) → orig ≤ p → p + 2 ≤ orig + 4000 → Keeps f (put_cell p c f)
put_cell-Keeps p c f lo hi a off =
    update_ne (update f p c) (p + 1) a 7 (omega arith) ∙ update_ne f p a c (omega arith)

blank-Keeps : (k p : ℕ) (f : ℕ → ℕ) → orig ≤ p → p + 2 * k ≤ orig + 4000 → Keeps f (blank k p f)
unfolding blank
blank-Keeps zero p f lo hi a off = refl
blank-Keeps (suc k) p f lo hi a off =
    blank-Keeps k (p + 2) (put_cell p 32 f) (omega arith) (omega arith) a off
    ∙ put_cell-Keeps p 32 f lo (omega arith) a off

store_char-Keeps : (c : ℕ) (s : Screen) → IsOnScreen s → Keeps s.cell (store_char c s).cell
unfolding store_char
store_char-Keeps c s h = put_cell-Keeps _ c s.cell (omega arith) (omega (arith, h.x_in, h.y_in))

println-Keeps : (s : Screen) → IsOnScreen s → Keeps s.cell (println s).cell
unfolding println
println-Keeps s h = elim (Bool-cases (ltb (s.y + 1) 25)) [
  | inl more ↦
      let lt : s.y + 1 < 25 = ground arith in
      rw more (blank-Keeps _ _ s.cell (omega arith) (omega (arith, h.x_in)))
  | inr end ↦
      let last : s.y ≡ 24 = ground (arith, h.y_in) in
      rw end λ a off.
        blank-Keeps _ _ _ (omega arith) (omega (arith, h.x_in, last)) a off
        ∙ blank-Keeps 80 orig s.cell (omega arith) (omega arith) a off
]

-- A text that fits in the line.
prints_with-line :
    (k : ℕ) (cs : List ℕ) (s : Screen)
    → s.x + length cs < 80
    → s.y < 25
    → (s' : Screen) × (prints_with (write_char_at (suc k)) cs s ≡ some s')
      × (s'.x ≡ s.x + length cs)
      × (s'.y ≡ s.y)
      × Keeps s.cell s'.cell
unfolding prints_with
prints_with-line k [] s hx hy = (s, refl, omega arith, refl, λ a off. refl)
prints_with-line k (c ∷ cs) s hx hy =
    let (nx, ny) = store_char-next c s (omega arith) in
    let (s', e, ex, ey, kept) =
      prints_with-line k cs (store_char c s) (omega (arith, nx)) (omega (arith, ny)) in
    (
      s',
      rw (write_char_at-inside k c s (omega arith) hy) e,
      omega (arith, ex, nx),
      omega (arith, ey, ny),
      λ a off. kept a off ∙ store_char-Keeps c s (record { x_in = omega arith; y_in = hy }) a off,
    )

con_init_with-Draws : (k : ℕ) (s : Screen) → Draws s (con_init_with (write_char_at (suc k)) s)
unfolding con_init_with update_cursor
con_init_with-Draws k s =
    let (s', e, ex, ey, kept) =
      prints_with-line k banner (record s { cell = blank 2000 orig s.cell; x = 0; y = 0 })
        (omega arith) (omega arith) in
    let here : IsOnScreen s' = record { x_in = omega (arith, ex); y_in = omega (arith, ey) } in
    let on = println-IsOnScreen s' here.y_in in
    (
      update_cursor (println s'),
      rw e refl,
      record { x_in = on.x_in; y_in = on.y_in },
      λ a off.
          println-Keeps s' here a off
          ∙ kept a off
          ∙ blank-Keeps 2000 orig s.cell (omega arith) (omega arith) a off,
    )

write_char-Draws : (c : ℕ) (s : Screen) → IsOnScreen s → Draws s (write_char c s)
unfolding write_char write_char_at
write_char-Draws c s h = elim (Bool-cases (ltb (store_char c s).y 25)) [
  | inl more ↦ rw more (
    store_char c s,
    refl,
    record { x_in = store_char-x c s h.x_in; y_in = ground arith },
    store_char-Keeps c s h,
  )
  | inr end ↦
      let (s', e, on, kept) = con_init_with-Draws 0 (store_char c s) in
      rw end (
        rw e (
          record s' { y = s'.y % 25 },
          refl,
          record { x_in = on.x_in; y_in = omega arith },
          λ a off. kept a off ∙ store_char-Keeps c s h a off,
        ))
]

prints_with-Draws :
    (cs : List ℕ) (s : Screen) → IsOnScreen s → Draws s (prints_with write_char cs s)
unfolding prints_with
prints_with-Draws [] s h = (s, refl, h, λ a off. refl)
prints_with-Draws (c ∷ cs) s h =
    let (s', e, on, kept) = write_char-Draws c s h in
    let (s'', e', on', kept') = prints_with-Draws cs s' on in
    (s'', rw e e', on', λ a off. kept' a off ∙ kept a off)

printchar-Draws : (c : ℕ) (s : Screen) → IsOnScreen s → Draws s (some (printchar c s))
unfolding printchar
printchar-Draws c s h = (
  printchar c s,
  refl,
  record { x_in = ground (arith, h.x_in); y_in = ground (arith, h.y_in) },
  put_cell-Keeps _ c s.cell (omega arith) (omega (arith, h.x_in, h.y_in)),
)

-- All that prints, from any place of the cursor on the screen, ends with the cursor on the screen and has
-- written no byte outside of the screen memory: a text, with and without the end of the line, a number as a
-- decimal, binary or hexadecimal numeral, and a character. So does the initialisation, wherever the cursor was.
pub printk-Draws :
    (s : Screen)
    → IsOnScreen s
    → ((cs : List ℕ)
        → (s' : Screen) × (printk cs s ≡ some (length cs, s'))
          × IsOnScreen s'
          × Keeps s.cell s'.cell)
      × ((cs : List ℕ)
          → (s' : Screen) × (prints cs s ≡ some (length cs, s'))
            × IsOnScreen s'
            × Keeps s.cell s'.cell)
      × ((n : ℕ) → Draws s (printa n s))
      × ((n : ℕ) → Draws s (printbin n s))
      × ((n : ℕ) → Draws s (printhex n s))
      × ((c : ℕ) → Draws s (some (printchar c s)))
      × ((before : Screen) → Draws before (con_init before))
unfolding printk prints printa printbin printhex con_init write_char
printk-Draws s h = (
  λ cs.
      let (s', e, on, kept) = prints_with-Draws cs s h in
      (
        println s',
        rw e refl,
        println-IsOnScreen s' on.y_in,
        λ a off. println-Keeps s' on a off ∙ kept a off,
      ),
  λ cs. let (s', e, on, kept) = prints_with-Draws cs s h in (s', rw e refl, on, kept),
  λ n. prints_with-Draws (chars_of_long n) s h,
  λ n. prints_with-Draws (bits_of 32 n) s h,
  λ n. prints_with-Draws (chars_of_byte n) s h,
  λ c. printchar-Draws c s h,
  λ before. con_init_with-Draws 1 before,
)
