-- ===== src/Interrupt/Kept.antt =====
-- Every interrupt handler of the kernel keeps the machine in order.
use mks.Base.{ℕ, ◌≡◌, refl, ◌<◌, ◌≤◌, false, none, some, List, arith, inl, inr, Option-cases}
use mks.Proc.Sound.{Ready, IsTable, IsSound}
use mks.Time.Kept.{do_intr_clock-Ticked}
use mks.Memory.Fault.{do_intr_page}
use mks.Keyboard.{KbdQueue, Effect, quiet, prints, is_shift, do_intr_keyboard}
use mks.Keyboard.Queue.{
  IsValid, Handled, types, reads_past, shift_down, shift_up, key_up, do_intr_keyboard-Handled,
}
use mks.Printk.{Screen, println, printchar, printbin, bits_of}
use mks.Printk.Cursor.{IsOnScreen, printk-Stays, prints_with-Stays, println-IsOnScreen}
use mks.Interrupt.{Handler, reserved, debug2, page, clock, keyboard, parallel, kercall, numbered}
use mks.Interrupt.Handlers.{Machine, Raised, print_line, end_of_interrupt, show, run}

pub record IsGood (m : Machine) (l : Ready) : Type 0 where
  pub table : IsTable m.clock.procs
  pub sound : IsSound m.clock.procs l
  pub kbd : IsValid m.kbd
  pub screen : IsOnScreen m.screen

-- The handler returns with the machine in order, or it is one of the two that may not return well: the
-- page fault, where its loops do not end, and a key that the key map has no row for.
pub data Kept (h : Handler) (r : Raised) (m : Machine) (l : Ready) : Type 0 where
  returns : (m' : Machine) (l' : Ready) → run h r m ≡ some m' → IsGood m' l' → Kept h r m l
  no_memory :
      h ≡ page → do_intr_page r.cr2 r.error_code m.memory ≡ none → run h r m ≡ none → Kept h r m l
  no_row :
      h ≡ keyboard
      → is_shift r.scan_code ≡ false
      → 59 ≤ r.scan_code
      → r.scan_code < 128
      → run h r m ≡ none
      → Kept h r m l

printchar-IsOnScreen : (c : ℕ) (s : Screen) → IsOnScreen s → IsOnScreen (printchar c s)
unfolding printchar
printchar-IsOnScreen c s h = record { x_in = ground (arith, h.x_in); y_in = ground (arith, h.y_in) }

show-IsOnScreen : (e : Effect) (s : Screen) → IsOnScreen s → IsOnScreen (show e s)
show-IsOnScreen quiet s h = h
show-IsOnScreen (prints c) s h = printchar-IsOnScreen c s h

module _ (r : Raised) (m : Machine) (l : Ready) (g : IsGood m l) where
  on_screen : (s : Screen) → IsOnScreen s → IsGood (record m { screen = s }) l
  on_screen s h = record { table = g.table; sound = g.sound; kbd = g.kbd; screen = h }

  print_line-Kept : (h : Handler) (text : List ℕ) → run h r m ≡ print_line text m → Kept h r m l
  unfolding print_line
  print_line-Kept h text is =
      let (s, e, on, x) = (printk-Stays text m.screen g.screen).0 in
      returns (record m { screen = s }) l (rw is (rw e refl)) (on_screen s on)

  keyboard-Kept : r.scan_code < 256 → Kept keyboard r m l
  unfolding run end_of_interrupt
  keyboard-Kept lt = go (do_intr_keyboard-Handled r.scan_code m.kbd lt g.kbd)
    where
      done :
          (e : Effect) (k : KbdQueue)
          → do_intr_keyboard r.scan_code m.kbd ≡ some (e, k)
          → IsValid k
          → Kept keyboard r m l
      done e k is v =
          returns (end_of_interrupt (record m { screen = show e m.screen; kbd = k })) l (rw is refl)
            (record {
              table = g.table;
              sound = g.sound;
              kbd = v;
              screen = show-IsOnScreen e m.screen g.screen;
            })

      go : Handled r.scan_code m.kbd (do_intr_keyboard r.scan_code m.kbd) → Kept keyboard r m l
      go (types c plain lo e is) = done (prints c) m.kbd is g.kbd
      go (reads_past plain lo hi is) = no_row refl plain lo hi (rw is refl)
      go (shift_down k is_it v n is) = done quiet k is v
      go (shift_up k lo is_it v n is) = done quiet k is v
      go (key_up lo plain is) = done quiet m.kbd is g.kbd

-- Where the process table, the ready queues, the shift queue and the cursor are in order, every handler
-- of the table returns with all of these in order, for any state of the registers and any scan code
-- below 256. There are two exceptions: a page fault whose loops do not end, and a scan code between 59
-- and 127 that is not a shift key.
pub run-Kept :
    (h : Handler) (r : Raised) (m : Machine) (l : Ready)
    → IsGood m l
    → r.scan_code < 256
    → Kept h r m l
unfolding run end_of_interrupt printbin
run-Kept reserved r m l g lt = print_line-Kept r m l g reserved _ refl
run-Kept kercall r m l g lt = print_line-Kept r m l g kercall _ refl
run-Kept (numbered n) r m l g lt = print_line-Kept r m l g (numbered n) _ refl
run-Kept parallel r m l g lt =
    returns (end_of_interrupt m) l refl
      (record { table = g.table; sound = g.sound; kbd = g.kbd; screen = g.screen })
run-Kept debug2 r m l g lt =
    let (s, e, on) = prints_with-Stays (bits_of 32 r.error_code) m.screen g.screen in
    returns (record m { screen = println s }) l (rw e refl)
      (on_screen r m l g (println s) (println-IsOnScreen s on.y_in))
run-Kept page r m l g lt = elim (Option-cases (do_intr_page r.cr2 r.error_code m.memory)) [
  | inl e ↦ no_memory refl e (rw e refl)
  | inr (mem, e) ↦
      returns (record m { memory = mem }) l (rw e refl)
        (record { table = g.table; sound = g.sound; kbd = g.kbd; screen = g.screen })
]
run-Kept clock r m l g lt =
    let (c, e, t) = do_intr_clock-Ticked r.cpl m.clock l g.table g.sound in
    returns (record m { clock = c }) t.waiting (rw e refl)
      (record { table = t.table; sound = t.sound; kbd = g.kbd; screen = g.screen })
run-Kept keyboard r m l g lt = keyboard-Kept r m l g lt

-- Whatever handler returns, it leaves the machine in order.
pub run-IsGood :
    (h : Handler) (r : Raised) (m m' : Machine) (l : Ready)
    → IsGood m l
    → r.scan_code < 256
    → run h r m ≡ some m'
    → (l' : Ready) × IsGood m' l'
run-IsGood h r m m' l g lt e = go (run-Kept h r m l g lt)
  where
    go : Kept h r m l → (l' : Ready) × IsGood m' l'
    go (returns m1 l' is good) = let same : m1 ≡ m' = cc in (l', rw same at good)
    go (no_memory _ _ is) = cc
    go (no_row _ _ _ _ is) = cc
