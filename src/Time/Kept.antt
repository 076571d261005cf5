-- ===== src/Time/Kept.antt =====
-- The timer interrupt of kernel/time.c keeps the process table and the ready queues in order.
use mks.Base.{ℕ, ◌≡◌, refl, some, [], ◌∷◌, ◌++◌, inl, inr, Bool-cases, ◌==◌, add32, update}
use mks.Linked.{Ptr}
use mks.Proc.Table.{Procs}
use mks.Proc.Sound.{Ready, IsTable, IsSound}
use mks.Proc.Plan.{plan}
use mks.Proc.Refine.{schedule-Outcome}
use mks.Time.{Clock, charge, has_time, do_intr_clock}

-- The processes with other times.
abbrev pub retimed : Procs → (Ptr → ℕ) → (Ptr → ℕ) → (Ptr → ℕ) → Procs
retimed s u t c = record s { utime = u; stime = t; counter = c }

pub retimed-IsTable : (s : Procs) (u t c : Ptr → ℕ) → IsTable s → IsTable (retimed s u t c)
retimed-IsTable s u t c h = record {
  numbered = h.numbered;
  typed = h.typed;
  idle = h.idle;
  current = h.current;
  current_below = h.current_below;
  current_at = h.current_at;
}

pub retimed-IsSound :
    (s : Procs) (u t c : Ptr → ℕ) (l : Ready) → IsSound s l → IsSound (retimed s u t c) l
retimed-IsSound s u t c l h = record {
  ordered = record {
    rep = h.rep;
    waits = λ d a i.
        let w = h.waits d a i in
        record {
          at = w.at;
          not_idle = w.not_idle;
          below = w.below;
          class = w.class;
          runs = w.runs;
        };
  };
  not_current = h.not_current;
}

-- Which times are changed, and how, is of no matter to the queues.
pub record Charged (s s' : Procs) : Type 0 where
  pub u : Ptr → ℕ
  pub t : Ptr → ℕ
  pub c : Ptr → ℕ
  pub is : s' ≡ retimed s u t c

pub charge-Charged : (cpl : ℕ) (s : Procs) → Charged s (charge cpl s)
unfolding charge
charge-Charged cpl s = elim (Bool-cases (cpl == 0)) [
  | inl e ↦ rw e (record { u = s.utime; t = _; c = _; is = refl })
  | inr e ↦ rw e (record { u = _; t = s.stime; c = _; is = refl })
]

-- A clock interrupt returns.
pub record Ticked (s : Clock) (l : Ready) (after : Clock) : Type 0 where
  pub waiting : Ready
  pub table : IsTable after.procs
  pub sound : IsSound after.procs waiting
  pub jiffies : after.jiffies ≡ add32 s.jiffies 1

-- The timer interrupt returns, in user mode and in the kernel, at any state of the time slice, where the
-- process table and the ready queues are in order: they are in order again, and one more tick is counted.
pub do_intr_clock-Ticked :
    (cpl : ℕ) (s : Clock) (l : Ready)
    → IsTable s.procs
    → IsSound s.procs l
    → (after : Clock) × (do_intr_clock cpl s ≡ some after) × Ticked s l after
unfolding do_intr_clock
do_intr_clock-Ticked cpl s l t h = elim (Bool-cases (has_time p)) [
  | inl more ↦ (
    record c { procs = p },
    rw more refl,
    record { waiting = l; table = tp; sound = hp; jiffies = refl },
  )
  | inr used_up ↦ elim (Bool-cases (cpl == 0)) [
    | inl kernel ↦ (
      record c { procs = spent },
      rw (used_up, kernel) refl,
      record { waiting = l; table = ts; sound = hs; jiffies = refl },
    )
    | inr user ↦
        let (p', e, o) = schedule-Outcome spent l ts hs in
        (
          record c { procs = p' },
          rw (used_up, user, e) refl,
          record {
            waiting = (plan spent l).waiting;
            table = o.table;
            sound = o.sound;
            jiffies = refl;
          },
        )
  ]
]
  where
    c : Clock
    c = record s { jiffies = add32 s.jiffies 1; ports = s.ports ++ (0x20, 0x20) ∷ [] }

    p : Procs
    p = charge cpl s.procs

    ch : Charged s.procs p
    ch = charge-Charged cpl s.procs

    tp : IsTable p
    tp = rw ch.is (retimed-IsTable s.procs ch.u ch.t ch.c t)

    hp : IsSound p l
    hp = rw ch.is (retimed-IsSound s.procs ch.u ch.t ch.c l h)

    spent : Procs
    spent = record p { counter = update p.counter p.proc_current 0 }

    ts : IsTable spent
    ts = retimed-IsTable p p.utime p.stime _ tp

    hs : IsSound spent l
    hs = retimed-IsSound p p.utime p.stime _ l hp
