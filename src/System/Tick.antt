-- ===== src/System/Tick.antt =====
-- The timer interrupt of kernel/time.c leaves those who wait for messages asleep.
use mks.Base.{ℕ, ◌≡◌, refl, some, [], ◌∷◌, ◌++◌, inl, inr, Bool-cases, ◌==◌, add32, update}
use mks.Linked.{Ptr}
use mks.Messaging.Store.{Store}
use mks.Messaging.Kernel.{Kernel}
use mks.Messaging.Lists.{Waiting}
use mks.Proc.Table.{Procs}
use mks.Proc.Sound.{Ready}
use mks.Time.{Clock, charge, has_time, do_intr_clock}
use mks.Time.Kept.{retimed, retimed-IsTable, retimed-IsSound, Charged, charge-Charged}
use mks.System.Runs.{schedule-Scheduled}
use mks.System.Calm.{procs, Blocked-with, Calm, schedule-Calm}

-- The store with other processes.
abbrev pub with_procs : Procs → Store Kernel → Store Kernel
with_procs s m = record m { kernel = (s, m.kernel.1) }

module _ (owner : Ptr → ℕ) where
  retimed-Calm :
      (m : Store Kernel) (l : Waiting) (r : Ready) (u t c : Ptr → ℕ)
      → Calm owner m l r
      → Calm owner (with_procs (retimed (procs m) u t c) m) l r
  retimed-Calm m l r u t c h = record {
    rested = record {
      table = retimed-IsTable (procs m) u t c h.table;
      sound = retimed-IsSound (procs m) u t c r h.sound;
      blocked = λ q p i.
          let b = h.blocked q p i in
          Blocked-with owner m (with_procs (retimed (procs m) u t c) m) q p b refl refl b.sleeps;
      once = h.once;
      slots = h.slots;
      slots_there = h.slots_there;
    };
    runs = h.runs;
  }

  pub tick-Calm :
      (cpl : ℕ) (c : Clock) (m : Store Kernel) (l : Waiting) (r : Ready)
      → Calm owner (with_procs c.procs m) l r
      → (after : Clock) × (do_intr_clock cpl c ≡ some after)
        × (r' : Ready) × Calm owner (with_procs after.procs m) l r'
  unfolding do_intr_clock
  tick-Calm cpl c m l r h = elim (Bool-cases (has_time p)) [
    | inl more ↦ (record ticked { procs = p }, rw more refl, r, charged)
    | inr used_up ↦ elim (Bool-cases (cpl == 0)) [
      | inl kernel ↦ (record ticked { procs = spent }, rw (used_up, kernel) refl, r, out)
      | inr user ↦
          let d = schedule-Scheduled spent r out.table out.sound in
          (
            record ticked { procs = d.after },
            rw (used_up, user, d.is) refl,
            d.waiting,
            schedule-Calm owner (with_procs spent m) l r out.rested d,
          )
    ]
  ]
    where
      ticked : Clock
      ticked = record c { jiffies = add32 c.jiffies 1; ports = c.ports ++ (0x20, 0x20) ∷ [] }

      p : Procs
      p = charge cpl c.procs

      ch : Charged c.procs p
      ch = charge-Charged cpl c.procs

      charged : Calm owner (with_procs p m) l r
      charged = rw ch.is (retimed-Calm (with_procs c.procs m) l r ch.u ch.t ch.c h)

      spent : Procs
      spent = record p { counter = update p.counter p.proc_current 0 }

      out : Calm owner (with_procs spent m) l r
      out = retimed-Calm (with_procs p m) l r p.utime p.stime spent.counter charged
