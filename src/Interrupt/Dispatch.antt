-- ===== src/Interrupt/Dispatch.antt =====
-- Which handler of kernel/interrupt.c runs for each interrupt vector.
use mks.Base.{
  ℕ, zero, suc, ◌+◌, ◌<◌, ◌≡◌, ◌≢◌, arith, Bool, true, Option, none, some, ◌&&◌, ◌||◌, ltb, leb,
  ◌==◌, ==_true, inl, inr, Bool-cases, if◌then◌else◌, update_at, ◌>>=◌,
}
use mks.Interrupt.{
  Entry, pushes, Handler, reserved, debug2, page, clock, keyboard, parallel, kercall, numbered,
  Table, assign, fill_table, handler_at, Interrupts, intr_init,
}
use mks.Interrupt.Gates.{entry_of}

-- The handler that the entry of a vector calls, by the number that it pushes.
abbrev pub called : Table → ℕ → Option Handler
called t i = pushes (entry_of i) >>= λ n. handler_at t n

-- The vectors with an entry of their own, but for the one for messages.
abbrev pub is_known : ℕ → Bool
is_known i = ltb i 20 || (leb 32 i && ltb i 48) || i == 0x88

-- The exceptions 0 to 9 share the handler for reserved interrupts, as the code does not set theirs.
unfoldable pub handler_for : ℕ → Handler
handler_for i =
    if i == 13
    then debug2
    else if i == 14
    then page
    else if i == 32
    then clock
    else if i == 33
    then keyboard
    else if i == 39
    then parallel
    else if i == 0x88
    then kercall
    else if ltb i 10
    then reserved
    else numbered i

assign-at :
    (k i j : ℕ) (t : Table)
    → assign k i t j ≡ (if leb i j && ltb j (k + i) then numbered j else t j)
unfolding assign
assign-at zero i j t = ground arith
assign-at (suc k) i j t =
    simp (assign-at k (i + 1) j, update_at)
      (elim (Bool-cases (j == i)) [
        | inl e ↦ rw (e, ==_true j i e) (ground arith)
        | inr e ↦ rw e (ground arith)
      ])

fill_table-at :
    (j : ℕ)
    → (ltb j 20 || (leb 32 j && ltb j 48) || j == 0x88) ≡ true
    → fill_table j ≡ handler_for j
unfolding fill_table handler_for
fill_table-at j h = simp (update_at, assign-at) (ground arith)

-- After `intr_init` the exceptions 10 to 19, the hardware interrupts 32 to 47 and the kernel call lead to
-- handlers of their own: 13 to `do_intr_debug2`, 14 to `do_intr_page`, 32 to `do_intr_clock`, 33 to
-- `do_intr_keyboard`, 39 to `do_intr_parallel`, the kernel call to `do_intr_kercall`, and the others to the
-- `do_intr_` of their number. The exceptions 0 to 9 all lead to `do_intr_reserved`. The entry of every other
-- vector but that of the messages pushes 255, which is past the end of the table of handlers.
pub intr_init-called :
    (address : Entry → ℕ) (mask : ℕ) (s : Interrupts) (i : ℕ)
    → i < 256
    → i ≢ 0x80
    → called (intr_init address mask s).table i
      ≡ (if is_known i then some (handler_for i) else none)
unfolding intr_init pushes entry_of handler_at
intr_init-called address mask s i h ne = ground (arith, fill_table-at i)
