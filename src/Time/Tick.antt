-- ===== src/Time/Tick.antt =====
-- The timer interrupt `do_intr_clock` of kernel/time.c: the time slice of a process in user mode.
use mathlib.Core.List.{append-nil, append_assoc}
use mks.Base.{
  ℕ, zero, suc, ◌+◌, ◌%◌, ◌^◌, ◌≤◌, ◌<◌, ◌≡◌, refl, sym, ◌∙◌, ◌≢◌, true, false, Option, some, ◌∷◌,
  ◌++◌, [], ◌&&◌, not, arith, ◌==◌, ==_of_ne, add32, sub32, is_negative, List, ap, update,
  update_self, update_same, update_again, ◌>>=◌,
}
use mks.Proc.Table.{Procs}
use mks.Proc.Sound.{Ready, IsTable, IsSound}
use mks.Proc.Plan.{plan}
use mks.Proc.Outcome.{Outcome}
use mks.Proc.Refine.{schedule-Outcome}
use mks.Time.{Clock, charge, has_time, do_intr_clock}

-- The ticks that come one after another in user mode, where `cpl` is not 0.
unfoldable pub ticks : ℕ → ℕ → Clock → Option Clock
ticks zero cpl s = some s
ticks (suc k) cpl s = do_intr_clock cpl s >>= λ s'. ticks k cpl s'

abbrev pub left : Clock → ℕ
left s = s.procs.counter s.procs.proc_current

abbrev pub used : Clock → ℕ
used s = s.procs.utime s.procs.proc_current

-- The commands that end `k` interrupts.
abbrev pub ended : ℕ → List (ℕ × ℕ)
ended zero = []
ended (suc k) = (0x20, 0x20) ∷ ended k

-- `k` ticks later the same process runs, with `k` ticks less left and `k` more used. All else in the table
-- is as before, and so is the time of the start.
pub record Later (k : ℕ) (s after : Clock) : Type 0 where
  pub same : after.procs.proc_current ≡ s.procs.proc_current
  pub left_is : left after + k ≡ left s
  pub used_is : used after % 2 ^ 32 ≡ (used s + k) % 2 ^ 32
  pub jiffies_is : after.jiffies % 2 ^ 32 ≡ (s.jiffies + k) % 2 ^ 32
  pub queues_are : after.procs.queue ≡ s.procs.queue
  pub rest_is : after.procs ≡ record s.procs {
    utime = update s.procs.utime s.procs.proc_current (used after);
    counter = update s.procs.counter s.procs.proc_current (left after);
  }
  pub startup_is : after.startup_time ≡ s.startup_time
  pub ports_are : after.ports ≡ s.ports ++ ended k

abbrev pub charged : Procs → Procs
charged s =
    let p = s.proc_current in
    record s {
      utime = update s.utime p (add32 (s.utime p) 1);
      counter = update s.counter p (sub32 (s.counter p) 1);
    }

-- What the one tick and those after it set, they set at once.
rest-after :
    (s t after : Procs) (u c u' c' : ℕ)
    → t ≡ record s {
      utime = update s.utime s.proc_current u;
      counter = update s.counter s.proc_current c;
    }
    → after ≡ record t {
      utime = update t.utime t.proc_current u';
      counter = update t.counter t.proc_current c';
    }
    → after ≡ record s {
      utime = update s.utime s.proc_current u';
      counter = update s.counter s.proc_current c';
    }
rest-after s t after u c u' c' e f =
    rw (f, e, update_again s.utime s.proc_current u u', update_again s.counter s.proc_current c c')
      refl

charge_user : (cpl : ℕ) (s : Procs) → cpl ≢ 0 → charge cpl s ≡ charged s
unfolding charge
charge_user cpl s user = rw (==_of_ne cpl 0 user) refl

has_time_left :
    (s : Procs)
    → 1 < s.counter s.proc_current
    → s.counter s.proc_current < 2 ^ 31
    → has_time (charged s) ≡ true
unfolding has_time
has_time_left s lo hi =
    rw (update_self s.counter s.proc_current (sub32 (s.counter s.proc_current) 1))
      (positive (s.counter s.proc_current) lo hi)
  where
    positive :
        (c : ℕ)
        → 1 < c
        → c < 2 ^ 31
        → (not (is_negative (sub32 c 1)) && not (sub32 c 1 == 0)) ≡ true
    positive c lo hi = ground arith

no_time_left : (s : Procs) → s.counter s.proc_current ≤ 1 → has_time (charged s) ≡ false
unfolding has_time
no_time_left s hi =
    rw (update_self s.counter s.proc_current (sub32 (s.counter s.proc_current) 1))
      (spent (s.counter s.proc_current) hi)
  where
    spent : (c : ℕ) → c ≤ 1 → (not (is_negative (sub32 c 1)) && not (sub32 c 1 == 0)) ≡ false
    spent c hi = ground arith

one_tick :
    (cpl : ℕ) (s : Clock)
    → cpl ≢ 0
    → 1 < left s
    → left s < 2 ^ 31
    → (after : Clock) × (do_intr_clock cpl s ≡ some after) × Later 1 s after
unfolding do_intr_clock
one_tick cpl s user lo hi = (
  record s {
    jiffies = add32 s.jiffies 1;
    ports = s.ports ++ (0x20, 0x20) ∷ [];
    procs = charged s.procs;
  },
  rw (charge_user cpl s.procs user, has_time_left s.procs lo hi) refl,
  record {
    same = refl;
    left_is = omega (arith, update_self s.procs.counter s.procs.proc_current (sub32 (left s) 1));
    used_is = omega (arith, update_self s.procs.utime s.procs.proc_current (add32 (used s) 1));
    jiffies_is = omega arith;
    queues_are = refl;
    rest_is =
        rw
          (
            update_self s.procs.counter s.procs.proc_current (sub32 (left s) 1),
            update_self s.procs.utime s.procs.proc_current (add32 (used s) 1),
          )
          refl;
    startup_is = refl;
    ports_are = refl;
  },
)

-- A process in user mode keeps the processor as long as its time slice lasts: any `k` ticks, where
-- the slice has more than `k` left, make the slice shorter by `k` and the user time of the process and the
-- jiffies greater by `k`, as words, and send the end of each interrupt to the controller. Of the process
-- table and the clock nothing else has changed, also not the time of the process in the kernel.
pub ticks-Later :
    (k cpl : ℕ) (s : Clock)
    → cpl ≢ 0
    → k < left s
    → left s < 2 ^ 31
    → (after : Clock) × (ticks k cpl s ≡ some after) × Later k s after
unfolding ticks
ticks-Later zero cpl s user lo hi = (
  s,
  refl,
  record {
    same = refl;
    left_is = omega arith;
    used_is = omega arith;
    jiffies_is = omega arith;
    queues_are = refl;
    rest_is =
        rw
          (
            update_same s.procs.utime s.procs.proc_current,
            update_same s.procs.counter s.procs.proc_current,
          )
          refl;
    startup_is = refl;
    ports_are = sym (append-nil s.ports);
  },
)
ticks-Later (suc k) cpl s user lo hi =
    let (s', e, one) = one_tick cpl s user (omega arith) hi in
    let (after, f, rest) =
      ticks-Later k cpl s' user (omega (arith, one.left_is)) (omega (arith, one.left_is)) in
    (
      after,
      rw e f,
      record {
        same = rest.same ∙ one.same;
        left_is = omega (arith, rest.left_is, one.left_is);
        used_is = omega (arith, rest.used_is, one.used_is);
        jiffies_is = omega (arith, rest.jiffies_is, one.jiffies_is);
        queues_are = rest.queues_are ∙ one.queues_are;
        rest_is = rest-after s.procs s'.procs after.procs _ _ _ _ one.rest_is rest.rest_is;
        startup_is = rest.startup_is ∙ one.startup_is;
        ports_are =
            rest.ports_are
            ∙ ap (λ xs. xs ++ ended k) one.ports_are
            ∙ append_assoc s.ports ((0x20, 0x20) ∷ []) (ended k);
      },
    )

-- The running process with its slice used up.
abbrev pub spent : Procs → Procs
spent s = record (charged s) { counter = update (charged s).counter s.proc_current 0 }

pub IsSound-spent : (s : Procs) (l : Ready) → IsSound s l → IsSound (spent s) l
IsSound-spent s l h = record {
  ordered = record {
    rep = h.rep;
    waits = λ c a i.
        let w = h.waits c a i in
        record {
          at = w.at;
          not_idle = w.not_idle;
          below = w.below;
          class = w.class;
          runs = w.runs;
        };
  };
  not_current = h.not_current;
}

pub IsTable-spent : (s : Procs) → IsTable s → IsTable (spent s)
IsTable-spent s t = record {
  numbered = t.numbered;
  typed = t.typed;
  idle = t.idle;
  current = t.current;
  current_below = t.current_below;
  current_at = t.current_at;
}

-- The last tick of a slice in user mode calls the scheduler, and what it has planned for the process
-- with an empty slice comes about.
pub last_tick-Outcome :
    (cpl : ℕ) (s : Clock) (l : Ready)
    → cpl ≢ 0
    → left s ≤ 1
    → IsTable s.procs
    → IsSound s.procs l
    → (after : Clock) × (do_intr_clock cpl s ≡ some after)
      × Outcome (spent s.procs) (plan (spent s.procs) l) after.procs
unfolding do_intr_clock
last_tick-Outcome cpl s l user lo t h =
    let (p, e, o) =
      schedule-Outcome (spent s.procs) l (IsTable-spent s.procs t) (IsSound-spent s.procs l h) in
    (
      record s { jiffies = add32 s.jiffies 1; ports = s.ports ++ (0x20, 0x20) ∷ []; procs = p },
      rw (charge_user cpl s.procs user, no_time_left s.procs lo, ==_of_ne cpl 0 user, e) refl,
      o,
    )
