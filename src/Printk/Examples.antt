-- ===== src/Printk/Examples.antt =====
-- Output of kernel/printk.c at the end of the screen and at the ends of the numbers.
use mks.Base.{ℕ, ◌≡◌, some, List, [], ◌∷◌, arith, length}
use mks.Printk.{
  Screen, con_init, printk, prints, printa, printbin, printhex, printchar, chars_of_long,
  chars_of_byte,
}
use mks.Printk.Cursor.{IsOnScreen, Stays, printk-Stays}
use mks.Printk.Cells.{Keeps, Draws, printk-Draws}
use mks.Printk.Numbers.{Shown, chars_of_long-Shown, read, chars_of_byte-read}

-- The last place of the screen.
abbrev pub last_place : Screen
last_place = record { cell = λ a. 0; x = 79; y = 24; pos = 0; ports = [] }

abbrev text : List ℕ
text = 79 ∷ 75 ∷ []

printk-Stays_example :
    ((s' : Screen) × (printk text last_place ≡ some (length text, s')) × IsOnScreen s' × (s'.x ≡ 0))
    × ((before : Screen) → Stays (con_init before))
printk-Stays_example =
    printk-Stays text last_place (record { x_in = omega arith; y_in = omega arith })

chars_of_long-Shown_example : Shown 0xffff_ffff (chars_of_long 0xffff_ffff)
chars_of_long-Shown_example = chars_of_long-Shown 0xffff_ffff (omega arith)

chars_of_byte-read_example :
    (ds : List ℕ) × (chars_of_byte 0xa7 ≡ 48 ∷ 120 ∷ ds)
    × (length ds ≡ 2)
    × (read 16 0 ds ≡ some 0xa7)
chars_of_byte-read_example = chars_of_byte-read 0xa7 (omega arith)

printk-Draws_example :
    ((cs : List ℕ)
      → (s' : Screen) × (printk cs last_place ≡ some (length cs, s'))
        × IsOnScreen s'
        × Keeps last_place.cell s'.cell)
    × ((cs : List ℕ)
        → (s' : Screen) × (prints cs last_place ≡ some (length cs, s'))
          × IsOnScreen s'
          × Keeps last_place.cell s'.cell)
    × ((n : ℕ) → Draws last_place (printa n last_place))
    × ((n : ℕ) → Draws last_place (printbin n last_place))
    × ((n : ℕ) → Draws last_place (printhex n last_place))
    × ((c : ℕ) → Draws last_place (some (printchar c last_place)))
    × ((before : Screen) → Draws before (con_init before))
printk-Draws_example = printk-Draws last_place (record { x_in = omega arith; y_in = omega arith })
