-- ===== src/Interrupt/Reach.antt =====
-- Every state that interrupts lead to from a state of the machine.
use mks.Base.{ℕ, ◌<◌, ◌≡◌, some}
use mks.Proc.Sound.{Ready}
use mks.Interrupt.{Handler, Table}
use mks.Interrupt.Dispatch.{called}
use mks.Interrupt.Handlers.{Machine, Raised, run}
use mks.Interrupt.Kept.{IsGood, run-IsGood}

-- An interrupt of any vector whose entry leads to a handler, with any state of the registers.
pub data Step (t : Table) (m m' : Machine) : Type 0 where
  interrupt :
      (vector : ℕ) (h : Handler) (r : Raised)
      → called t vector ≡ some h
      → r.scan_code < 256
      → run h r m ≡ some m'
      → Step t m m'

pub data Reach (t : Table) (m : Machine) : Machine → Type 0 where
  here : Reach t m m
  next : {u v : Machine} → Reach t m u → Step t u v → Reach t m v

Step-IsGood :
    {t : Table} {m m' : Machine} {l : Ready}
    → Step t m m'
    → IsGood m l
    → (l' : Ready) × IsGood m' l'
Step-IsGood {l} (interrupt vector h r c lt e) g = run-IsGood h r _ _ l g lt e

pub Reach-IsGood :
    {t : Table} {m m' : Machine} {l : Ready}
    → IsGood m l
    → Reach t m m'
    → (l' : Ready) × IsGood m' l'
Reach-IsGood {l} g here = (l, g)
Reach-IsGood g (next r st) = let (l', g') = Reach-IsGood g r in Step-IsGood st g'
