-- ===== src/Proc/AddRunning.antt =====
-- `add_running_proc` of kernel/proc.c: every process that is ready to run waits in its queue.
use mathlib.Core.Bool.{false≢true}
use mks.Base.{
  ℕ, zero, suc, ◌+◌, ◌≤◌, ◌<◌, ◌≡◌, refl, sym, ◌∙◌, ap, ◌≢◌, ◌⊎◌, inl, inr, Bool, true, false, not,
  Option, none, some, List, [], ◌∷◌, ◌++◌, arith, ◌==◌, ==_of_ne, ==_true, ==_self, if◌then◌else◌,
  Bool-cases, has, has-append, ◌>>=◌,
}
use mks.Linked.{Ptr, null, Links, Ends, walk}
use mks.Linked.Chain.{
  last_or, IsQueue, Chain-behind, found, walk-found, NoneOf, Split, split, found_absent, found_at,
}
use mks.Messaging.Store.{nr_procs, running}
use mks.Proc.Table.{Class, same, Procs, class_of, is_ready, add_behind, rounds, add_proc}
use mks.Proc.Sound.{
  Ready, set_list, IsTable, Waits, IsSound, length-le_nr_procs, with_queues, add_behind-IsSound,
}

-- The lists after one round of the loop: process `i` joins its queue unless it waits there already.
abbrev pub join_class : Ptr → Option Class → Ready → Ready
join_class p none l = l
join_class p (some c) l = if has p (l c) then l else set_list l c (l c ++ p ∷ [])

unfoldable pub joins : ℕ → Procs → Ready → Ready
joins i s l =
    if not (is_ready s i) then l else join_class (s.proc i) (class_of (s.proc_type (s.proc i))) l

unfoldable pub join_all : ℕ → ℕ → Procs → Ready → Ready
join_all zero i s l = l
join_all (suc k) i s l = join_all k (i + 1) s (joins i s l)

NoneOf-has :
    (test : Ptr → Bool) (a : Ptr) (xs : List Ptr)
    → NoneOf test xs
    → has a xs ≡ true
    → test a ≡ false
NoneOf-has test a [] n h = absurd (false≢true h)
NoneOf-has test a (x ∷ xs) (e, n) h = elim (Bool-cases (a == x)) [
  | inl same ↦ rw (==_true a x same) e
  | inr other ↦ NoneOf-has test a xs n (rw other at h)
]

has_middle : (a : Ptr) (xs ys : List Ptr) → has a (xs ++ a ∷ ys) ≡ true
has_middle a xs ys = rw (has-append a xs (a ∷ ys)) (ground arith)

-- The walk for a number stops at `NULL` exactly if the process is not in the queue.
find_number :
    (s : Procs) (l : Ready) (c : Class) (i : ℕ)
    → IsSound s l
    → s.pid (s.proc i) ≡ i
    → (r : Ptr × Ptr) × (walk rounds (λ a. s.pid a == i) s.next_ready null (s.queue c).head
        ≡ some r)
      × ((r.1 == null) ≡ not (has (s.proc i) (l c)))
find_number s l c i h e = (found test null (l c), walked, agree (split test (l c)))
  where
    test : Ptr → Bool
    test a = s.pid a == i

    walked : walk rounds test s.next_ready null (s.queue c).head ≡ some (found test null (l c))
    walked =
        walk-found rounds test s.next_ready null (s.queue c).head (l c) (h.rep.at c).chain
          (omega (arith, length-le_nr_procs s l c h.ordered))

    here : (test (s.proc i)) ≡ true
    here = rw e (==_self i)

    agree :
        NoneOf test (l c) ⊎ Split test (l c)
        → ((found test null (l c)).1 == null) ≡ not (has (s.proc i) (l c))
    agree (inl n) = elim (Bool-cases (has (s.proc i) (l c))) [
      | inl waits ↦ absurd (false≢true (sym (NoneOf-has test (s.proc i) (l c) n waits) ∙ here))
      | inr absent ↦ rw (found_absent test null (l c) n, absent)
    ]
    agree (inr sp) = rw (stops, waits, ==_of_ne sp.at null at_ne)
      where
        stops : found test null (l c) ≡ (last_or null sp.before, sp.at)
        stops = rw sp.is (found_at test null sp.at sp.before sp.behind sp.first sp.passes)

        at_ne : sp.at ≢ null
        at_ne =
            (Chain-behind s.next_ready (s.queue c).head sp.at sp.before sp.behind
              (rw sp.is at ((h.rep.at c).chain))).0

        listed : has sp.at (l c) ≡ true
        listed = rw sp.is (has_middle sp.at sp.before sp.behind)

        is_it : sp.at ≡ s.proc i
        is_it = sym ((h.waits c sp.at listed).at) ∙ ap s.proc (==_true (s.pid sp.at) i sp.passes)

        waits : has (s.proc i) (l c) ≡ true
        waits = rw is_it at listed

-- A run that changed the queues only, and left them standing for the lists `l`.
pub record Queued (s : Procs) (l : Ready) (r : Option Procs) : Type 0 where
  pub next : Links
  pub queue : Class → Ends
  pub is : r ≡ some (with_queues s next queue)
  pub sound : IsSound (with_queues s next queue) l

is_ready_facts :
    (s : Procs) (i : ℕ)
    → is_ready s i ≡ true
    → (s.proc i ≢ null) × (s.state (s.proc i) ≡ running) × (s.proc i ≢ s.proc_current)
unfolding is_ready
is_ready_facts s i h = ground arith

empty_of_head :
    (next : Links) (e : Ends) (xs : List Ptr)
    → IsQueue next e xs
    → (e.head == null) ≡ true
    → xs ≡ []
empty_of_head next e [] q h = refl
empty_of_head next e (x ∷ xs) q h = absurd (q.chain.1 (sym (q.chain.0) ∙ ==_true e.head null h))

pub add_proc-Queued :
    (s : Procs) (l : Ready) (i : ℕ)
    → IsTable s
    → IsSound s l
    → 1 ≤ i
    → i < nr_procs
    → Queued s (joins i s l) (add_proc i s)
unfolding add_proc joins add_behind
add_proc-Queued s l i t h lo hi = elim (Bool-cases (is_ready s i)) [
  | inr no_one ↦ rw no_one (record { next = s.next_ready; queue = s.queue; is = refl; sound = h })
  | inl ready ↦
      let (ne, runs, other) = is_ready_facts s i ready in
      let (c, class) = t.typed i hi ne in rw (ready, class) (add c ne runs other class)
]
  where
    p : Ptr
    p = s.proc i

    add :
        (c : Class)
        → p ≢ null
        → s.state p ≡ running
        → p ≢ s.proc_current
        → class_of (s.proc_type p) ≡ some c
        → Queued s (if has p (l c) then l else set_list l c (l c ++ p ∷ [])) (
            if (s.queue c).head == null
            then some (add_behind c p s)
            else (walk rounds (λ a. s.pid a == i) s.next_ready null (s.queue c).head >>= λ r.
                if r.1 == null then some (add_behind c p s) else some s))
    add c ne runs other class = elim (Bool-cases ((s.queue c).head == null)) [
      | inl empty ↦
          let nil = empty_of_head s.next_ready (s.queue c) (l c) (h.rep.at c) empty in
          let out : has p (l c) ≡ false = rw nil in rw (empty, out) (joined out)
      | inr full ↦
          let (r, walked, agree) = find_number s l c i h number in
          rw (full, walked, agree)
            (elim (Bool-cases (has p (l c))) [
              | inl old ↦
                  rw old (record { next = s.next_ready; queue = s.queue; is = refl; sound = h })
              | inr new ↦ rw new (joined new)
            ])
    ]
      where
        number : s.pid p ≡ i
        number = t.numbered i hi ne

        w : Waits s c p
        w = record {
          at = ap s.proc number;
          not_idle = λ z. omega (arith, number, z);
          below = rw number hi;
          class = class;
          runs = runs;
        }

        joined :
            has p (l c) ≡ false → Queued s (set_list l c (l c ++ p ∷ [])) (some (add_behind c p s))
        joined out = record {
          next = (add_behind c p s).next_ready;
          queue = (add_behind c p s).queue;
          is = refl;
          sound = add_behind-IsSound s l c p h ne w other out;
        }
