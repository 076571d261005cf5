-- ===== src/Proc/Examples.antt =====
-- A table of four processes of kernel/proc.c, one of which waits in a queue.
use mks.Base.{
  ◌++◌, inl, inr, Bool-cases, ==_true, ℕ, ◌+◌, ◌*◌, ◌-◌, ◌/◌, ◌<◌, ◌≤◌, ◌≡◌, ◌≢◌, refl, true, false,
  some, [], ◌∷◌, arith, ltb, ◌==◌, if◌then◌else◌, has,
}
use mks.Linked.{Ptr, null, ends}
use mks.Linked.Chain.{IsQueue}
use mks.Messaging.Store.{running, nr_procs}
use mks.Proc.Table.{Class, task, server, user, Procs, class_of, is_ready, add_running_proc}
use mks.Proc.Schedule.{schedule}
use mks.Proc.Dropped.{schedule-drops}
use mks.Proc.Sound.{set_list, Ready, IsTable, IsSound, Waits}
use mks.Proc.AddRunning.{Queued, joins, join_all}
use mks.Proc.AddAll.{Keeps, add_running_proc_complete}
use mks.Proc.Plan.{plan}
use mks.Proc.Outcome.{Outcome}
use mks.Proc.Refine.{schedule-Outcome}

-- Process 0 is idle, 1 runs, 2 is a task that is ready but not queued, 3 waits behind the users.
abbrev pub table : ℕ → Ptr
table i = if ltb i 4 then 0x1000 * (i + 1) else null

abbrev pub busy : Procs
busy = record {
  proc = table;
  proc_type = λ p. if p == 0x3000 then 1 else 3;
  state = λ p. running;
  counter = λ p. 5;
  pid = λ p. p / 0x1000 - 1;
  utime = λ p. 0;
  stime = λ p. 0;
  next_ready = λ p. null;
  queue =
      λ c. elim c [ task ↦ ends null null | server ↦ ends null null | user ↦ ends 0x4000 0x4000 ];
  proc_current = 0x2000;
}

abbrev pub waiting : Ready
waiting task = []
waiting server = []
waiting user = 0x4000 ∷ []

busy_typed :
    (i : ℕ)
    → i < nr_procs
    → table i ≢ null
    → (c : Class) × (class_of (if table i == 0x3000 then 1 else 3) ≡ some c)
unfolding class_of
busy_typed i lt ne =
    elim (table i == 0x3000) as (λ b. (c : Class) × (class_of (if b then 1 else 3) ≡ some c)) [
      | true ↦ (task, refl)
      | false ↦ (user, refl)
    ]

pub busy-IsTable : IsTable busy
busy-IsTable = record {
  numbered = λ i lt ne. ground arith;
  typed = busy_typed;
  idle = ground arith;
  current = ground arith;
  current_below = omega arith;
  current_at = refl;
}

busy_queue : (c : Class) → IsQueue busy.next_ready (busy.queue c) (waiting c)
busy_queue task = record { chain = refl; tail = refl; distinct = tt }
busy_queue server = record { chain = refl; tail = refl; distinct = tt }
busy_queue user = record { chain = (refl, ground arith, refl); tail = refl; distinct = (refl, tt) }

busy-Waits : (c : Class) (a : Ptr) → has a (waiting c) ≡ true → Waits busy c a
unfolding class_of
busy-Waits task a h = ground arith
busy-Waits server a h = ground arith
busy-Waits user a h =
    let e : a ≡ 0x4000 = ground arith in
    rw e (record {
      at = refl;
      not_idle = ground arith;
      below = omega arith;
      class = refl;
      runs = refl;
    })

pub busy-IsSound : IsSound busy waiting
busy-IsSound = record {
  ordered = record {
    rep = record { at = busy_queue; apart = λ q r p ne h. ground arith };
    waits = busy-Waits;
  };
  not_current = λ c a h. ground arith;
}

schedule-Outcome_example :
    (after : Procs) × (schedule busy ≡ some after) × Outcome busy (plan busy waiting) after
schedule-Outcome_example = schedule-Outcome busy waiting busy-IsTable busy-IsSound

add_running_proc_complete_example :
    (l' : Ready) × Queued busy l' (add_running_proc busy)
    × Keeps waiting l'
    × ((i : ℕ) (c : Class)
        → 1 ≤ i
        → i < nr_procs
        → is_ready busy i ≡ true
        → class_of (busy.proc_type (busy.proc i)) ≡ some c
        → has (busy.proc i) (l' c) ≡ true)
add_running_proc_complete_example = add_running_proc_complete busy waiting busy-IsTable busy-IsSound

-- All processes are user processes, and two of them wait.
abbrev users : Procs
users = record busy {
  proc_type = λ p. 3;
  next_ready = λ p. if p == 0x3000 then 0x4000 else null;
  queue =
      λ c. elim c [ task ↦ ends null null | server ↦ ends null null | user ↦ ends 0x3000 0x4000 ];
}

abbrev in_line : Ready
in_line task = []
in_line server = []
in_line user = 0x3000 ∷ 0x4000 ∷ []

users-IsTable : IsTable users
unfolding class_of
users-IsTable = record {
  numbered = λ i lt ne. ground arith;
  typed = λ i lt ne. (user, refl);
  idle = ground arith;
  current = ground arith;
  current_below = omega arith;
  current_at = refl;
}

users_queue : (c : Class) → IsQueue users.next_ready (users.queue c) (in_line c)
users_queue task = record { chain = refl; tail = refl; distinct = tt }
users_queue server = record { chain = refl; tail = refl; distinct = tt }
users_queue user = record {
  chain = (refl, ground arith, (refl, ground arith, refl));
  tail = refl;
  distinct = (refl, (refl, tt));
}

users-Waits : (c : Class) (a : Ptr) → has a (in_line c) ≡ true → Waits users c a
unfolding class_of
users-Waits task a h = ground arith
users-Waits server a h = ground arith
users-Waits user a h = elim (Bool-cases (a == 0x3000)) [
  | inl e ↦ rw (==_true a 0x3000 e) (record {
    at = refl;
    not_idle = ground arith;
    below = omega arith;
    class = refl;
    runs = refl;
  })
  | inr ne ↦
      let e : a ≡ 0x4000 = ground arith in
      rw e (record {
        at = refl;
        not_idle = ground arith;
        below = omega arith;
        class = refl;
        runs = refl;
      })
]

users-IsSound : IsSound users in_line
users-IsSound = record {
  ordered = record {
    rep = record { at = users_queue; apart = λ q r p ne h. ground arith };
    waits = users-Waits;
  };
  not_current = λ c a h. ground arith;
}

schedule-drops_example :
    (after : Procs) × (w : Ready) × (schedule users ≡ some after)
    × IsSound after w
    × (after.proc_current ≡ 0x3000)
    × (w user ≡ [] ++ 0x2000 ∷ [])
    × (has 0x4000 (w user) ≡ false)
unfolding join_all joins is_ready class_of set_list
schedule-drops_example =
    schedule-drops users in_line 0x3000 0x4000 [] users-IsTable users-IsSound refl (ground arith)
      refl refl refl refl
