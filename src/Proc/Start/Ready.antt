-- ===== src/Proc/Start/Ready.antt =====
-- After `proc_init` of kernel/proc.c the scheduler can start.
use mks.Base.{
  ℕ, ◌+◌, ◌*◌, ◌<◌, ◌≡◌, ◌≢◌, ◌⊎◌, refl, sym, ◌∙◌, none, some, Option, [], arith, ltb, ◌==◌, inl,
  inr, Bool-cases, Option-cases, if◌then◌else◌, update_at,
}
use mks.Linked.{Ptr, null}
use mks.Messaging.Store.{nr_procs, running}
use mks.Memory.{Memory}
use mks.Proc.Table.{Class, task, user, Procs, class_of}
use mks.Proc.Sound.{Ready, IsTable, IsSound}
use mks.Proc.Start.{
  Start, Labels, clear_tables, copy_struct, set_struct, set_up, share_kernel, set_up_all, set_code,
  set_all_code, set_queues, proc_init, load,
}

-- All that `proc_init` does but for the pages.
abbrev pub tables : Labels → Start → Start
tables at s = set_queues (set_all_code at (set_up 2 (set_up 1 (set_up 0 (clear_tables s)))))

-- The struct of process `i`.
abbrev pub struct_of : Start → ℕ → Ptr
struct_of s i = s.init_procs + 4096 * i

tables-proc :
    (at : Labels) (s : Start) (i : ℕ)
    → i < nr_procs
    → (tables at s).procs.proc i ≡ (if ltb i 3 then struct_of s i else null)
unfolding set_queues set_all_code set_code set_up set_struct copy_struct clear_tables
tables-proc at s i h = simp update_at (ground arith)

tables-pid : (at : Labels) (s : Start) (i : ℕ) → i < 3 → (tables at s).procs.pid (struct_of s i) ≡ i
unfolding set_queues set_all_code set_code set_up set_struct copy_struct clear_tables
tables-pid at s i h = simp update_at (ground arith)

tables-type :
    (at : Labels) (s : Start) (i : ℕ)
    → i < 3
    → (tables at s).procs.proc_type (struct_of s i) ≡ (if i == 2 then 1 else 3)
unfolding set_queues set_all_code set_code set_up set_struct copy_struct clear_tables
tables-type at s i h = simp update_at (ground arith)

tables-state :
    (at : Labels) (s : Start) (i : ℕ)
    → i < 3
    → (tables at s).procs.state (struct_of s i) ≡ s.procs.state (struct_of s 0)
unfolding set_queues set_all_code set_code set_up set_struct copy_struct clear_tables
tables-state at s i h = simp update_at (ground arith)

tables-current : (at : Labels) (s : Start) → (tables at s).procs.proc_current ≡ struct_of s 0
unfolding set_queues
tables-current at s = tables-proc at s 0 (omega arith)

tables-first :
    (at : Labels) (s : Start) → (tables at s).procs.pid (tables at s).procs.proc_current ≡ 0
tables-first at s = rw (tables-current at s) (tables-pid at s 0 (omega arith))

tables-IsTable : (at : Labels) (s : Start) → s.init_procs ≢ null → IsTable (tables at s).procs
unfolding class_of
tables-IsTable at s ne = record {
  numbered = λ i lt there. elim (Bool-cases (ltb i 3)) [
    | inl one ↦ rw (tables-proc at s i lt, one) (tables-pid at s i (ground arith))
    | inr none_there ↦ absurd (there (rw (tables-proc at s i lt, none_there) refl))
  ];
  typed = λ i lt there. elim (Bool-cases (ltb i 3)) [
    | inl one ↦
        rw (tables-proc at s i lt, one, tables-type at s i (ground arith)) (class_of_start i)
    | inr none_there ↦ absurd (there (rw (tables-proc at s i lt, none_there) refl))
  ];
  idle = λ e. ne (omega (arith, sym (tables-proc at s 0 (omega arith)) ∙ e));
  current = λ e. ne (omega (arith, sym (tables-current at s) ∙ e));
  current_below = omega (arith, tables-first at s);
  current_at = rw (tables-first at s, tables-current at s) (tables-proc at s 0 (omega arith));
}
  where
    class_of_start : (i : ℕ) → (c : Class) × (class_of (if i == 2 then 1 else 3) ≡ some c)
    class_of_start i = elim (Bool-cases (i == 2)) [
      | inl e ↦ rw e (task, refl)
      | inr e ↦ rw e (user, refl)
    ]

abbrev pub nobody_ready : Ready
nobody_ready c = []

tables-IsSound : (at : Labels) (s : Start) → IsSound (tables at s).procs nobody_ready
unfolding set_queues
tables-IsSound at s = record {
  ordered = record {
    rep = record {
      at = λ c. record { chain = refl; tail = refl; distinct = tt };
      apart = λ q r p ne h. refl;
    };
    waits = λ c a h. ground arith;
  };
  not_current = λ c a h. ground arith;
}

share_none : (m : Memory) → share_kernel 0 m ≡ some m
unfolding share_kernel
share_none m = refl

-- The process table that the scheduler starts from.
pub record IsReady (s : Start) (after : Procs) : Type 0 where
  pub table : IsTable after
  pub sound : IsSound after nobody_ready
  pub idle_runs : after.proc_current ≡ struct_of s 0
  pub there : (i : ℕ) → i < nr_procs → after.proc i ≡ (if ltb i 3 then struct_of s i else null)
  pub types : (i : ℕ) → i < 3 → after.proc_type (struct_of s i) ≡ (if i == 2 then 1 else 3)
  pub runnable : (i : ℕ) → i < 3 → after.state (struct_of s i) ≡ running

loaded : (s : Start) → (load s).procs.state (struct_of s 0) ≡ running
unfolding load
loaded s = simp update_at (ground arith)

tables-IsReady :
    (at : Labels) (s : Start) → s.init_procs ≢ null → IsReady s (tables at (load s)).procs
unfolding load
tables-IsReady at s ne = record {
  table = tables-IsTable at (load s) ne;
  sound = tables-IsSound at (load s);
  idle_runs = tables-current at (load s);
  there = tables-proc at (load s);
  types = tables-type at (load s);
  runnable = λ i lt. tables-state at (load s) i lt ∙ loaded s;
}

-- The calls that share the pages of the kernel return, with this memory.
abbrev pub Shares : Memory → Memory → Type 0
Shares m m' = (m₁ : Memory) × (share_kernel 1 m ≡ some m₁) × (share_kernel 2 m₁ ≡ some m')

-- How `proc_init` ends. The pages for the processes 1 and 2 may be missing; then its loops do not end.
pub data Started (at : Labels) (s : Start) (r : Option Start) : Type 0 where
  started :
      (after : Start)
      → r ≡ some after
      → IsReady s after.procs
      → Shares s.memory after.memory
      → Started at s r
  no_memory :
      (share_kernel 1 s.memory ≡ none)
        ⊎ ((m : Memory) × (share_kernel 1 s.memory ≡ some m) × (share_kernel 2 m ≡ none))
      → r ≡ none
      → Started at s r

-- From the data that the program is loaded with, where the first struct does not lie at address 0,
-- `proc_init` returns: the processes 0, 1 and 2 are in the table, as two user processes and a task, all
-- of them ready to run, no other is there, the queues are empty, process 0 runs, and table and queues
-- are in order for the scheduler. Only the loop that shares the kernel's pages may not end.
pub proc_init-Started :
    (at : Labels) (s : Start) → s.init_procs ≢ null → Started at s (proc_init at (load s))
unfolding load proc_init set_up_all set_up set_queues set_all_code set_code set_struct copy_struct
    clear_tables
proc_init-Started at s ne = elim (Option-cases (share_kernel 1 s.memory)) [
  | inl e ↦ no_memory (inl e) (rw (share_none s.memory, e) refl)
  | inr (m, e) ↦ elim (Option-cases (share_kernel 2 m)) [
    | inl f ↦ no_memory (inr (m, e, f)) (rw (share_none s.memory, e, f) refl)
    | inr (m', f) ↦
        started (record (tables at (load s)) { memory = m' }) (rw (share_none s.memory, e, f) refl)
          (tables-IsReady at s ne) (m, e, f)
  ]
]
