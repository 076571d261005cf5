-- ===== src/Proc/Sound.antt =====
-- When the process table is in order, and the ready queues stand for lists of ready processes.
use mathlib.Core.Bool.{false≢true}
use mks.Base.{
  ℕ, ◌≤◌, ◌<◌, ◌≡◌, refl, sym, ◌∙◌, ap, ◌≢◌, ◌⊎◌, inl, inr, true, false, some, List, [], ◌∷◌, ◌++◌,
  arith, if◌then◌else◌, Bool-cases, length, has, has-append, length-le_of_names, update,
}
use mks.Linked.{Ptr, null, Links, Ends, append}
use mks.Linked.Family.{Rep, Rep-set}
use mks.Linked.Turn.{Joined, append-Joined}
use mks.Messaging.Store.{running, nr_procs}
use mks.Proc.Table.{Class, task, server, user, same, Procs, set_queue, class_of, add_behind}

-- The processes that wait in each queue, the next one first.
abbrev pub Ready : Type 0
Ready = Class → List Ptr

unfoldable pub set_list : Ready → Class → List Ptr → Ready
set_list l c xs d = if same d c then xs else l d

pub record IsTable (s : Procs) : Type 0 where
  pub numbered : (i : ℕ) → i < nr_procs → s.proc i ≢ null → s.pid (s.proc i) ≡ i
  pub typed :
      (i : ℕ)
      → i < nr_procs
      → s.proc i ≢ null
      → (c : Class) × (class_of (s.proc_type (s.proc i)) ≡ some c)
  pub idle : s.proc 0 ≢ null
  pub current : s.proc_current ≢ null
  pub current_below : s.pid s.proc_current < nr_procs
  pub current_at : s.proc (s.pid s.proc_current) ≡ s.proc_current

-- What is known of a process `a` in the queue of the class `c`.
pub record Waits (s : Procs) (c : Class) (a : Ptr) : Type 0 where
  pub at : s.proc (s.pid a) ≡ a
  pub not_idle : s.pid a ≢ 0
  pub below : s.pid a < nr_procs
  pub class : class_of (s.proc_type a) ≡ some c
  pub runs : s.state a ≡ running

pub record IsOrdered (s : Procs) (l : Ready) : Type 0 where
  pub rep : Rep same s.next_ready s.queue l
  pub waits : (c : Class) (a : Ptr) → has a (l c) ≡ true → Waits s c a

-- Between two calls of the scheduler the running process waits in no queue.
pub record IsSound (s : Procs) (l : Ready) : Type 0 where
  pub ordered : IsOrdered s l
  pub open ordered use *
  pub not_current : (c : Class) (a : Ptr) → has a (l c) ≡ true → a ≢ s.proc_current

pub same_meet : (r t q : Class) → same r q ≡ true → same t q ≡ true → same r t ≡ false → ⊥
same_meet r t q h k ne = ground arith

pub same_eq : (r q : Class) → same r q ≡ true → r ≡ q
same_eq r q h = ground arith

pub same_self : (q : Class) → same q q ≡ true
same_self task = refl
same_self server = refl
same_self user = refl

-- A queue holds at most 64 processes: the numbers of different ones differ.
pub length-le_nr_procs :
    (s : Procs) (l : Ready) (c : Class) → IsOrdered s l → length (l c) ≤ nr_procs
length-le_nr_procs s l c h =
    length-le_of_names s.pid nr_procs (l c) (h.rep.at c).distinct
      (λ a b i k e. sym ((h.waits c a i).at) ∙ ap s.proc e ∙ (h.waits c b k).at)
      (λ a i. (h.waits c a i).below)

-- A process of the class `c` is in no other queue.
pub other_class :
    (s : Procs) (l : Ready) (c d : Class) (p : Ptr)
    → IsOrdered s l
    → class_of (s.proc_type p) ≡ some c
    → same d c ≡ false
    → has p (l d) ≡ false
other_class s l c d p h e ne = elim (Bool-cases (has p (l d))) [
  | inl i ↦ absurd (clash ((h.waits d p i).class))
  | inr o ↦ o
]
  where
    clash : class_of (s.proc_type p) ≡ some d → ⊥
    clash k = ground arith

-- The queues with new pointers, and all else as before.
abbrev pub with_queues : Procs → Links → (Class → Ends) → Procs
with_queues s next queue = record s { next_ready = next; queue = queue }

pub Waits-with :
    (s : Procs) (next : Links) (queue : Class → Ends) (c : Class) (a : Ptr)
    → Waits s c a
    → Waits (with_queues s next queue) c a
Waits-with s next queue c a w = record {
  at = w.at;
  not_idle = w.not_idle;
  below = w.below;
  class = w.class;
  runs = w.runs;
}

-- Putting a ready process of the class `c` behind its queue.
pub add_behind-IsOrdered :
    (s : Procs) (l : Ready) (c : Class) (p : Ptr)
    → IsOrdered s l
    → p ≢ null
    → Waits s c p
    → has p (l c) ≡ false
    → IsOrdered (add_behind c p s) (set_list l c (l c ++ p ∷ []))
unfolding add_behind set_queue set_list
add_behind-IsOrdered s l c p h np w out = record {
  rep =
      Rep-set same same_meet s.next_ready _ s.queue l c _ (l c ++ p ∷ []) h.rep joined.queue
        (λ r a ne i.
          joined.outside a (apart r a ne i) (λ e. false≢true (sym (absent r ne) ∙ (rw e at i))))
        (λ r a ne i. absent_after r a ne i);
  waits = λ d a i. waits d a i;
}
  where
    joined :
        Joined s.next_ready
          (l c)
          (l c ++ p ∷ [])
          p
          (update (append s.next_ready (s.queue c) p).0 p null)
          (append s.next_ready (s.queue c) p).1
    joined = append-Joined s.next_ready (s.queue c) p (l c) (h.rep.at c) np out

    absent : (r : Class) → same r c ≡ false → has p (l r) ≡ false
    absent r ne = other_class s l c r p h w.class ne

    apart : (r : Class) (a : Ptr) → same r c ≡ false → has a (l r) ≡ true → has a (l c) ≡ false
    apart r a ne i = h.rep.apart r c a ne i

    absent_after :
        (r : Class) (a : Ptr)
        → same r c ≡ false
        → has a (l r) ≡ true
        → has a (l c ++ p ∷ []) ≡ false
    absent_after r a ne i = ground (arith, has-append a (l c) (p ∷ []), apart r a ne i, absent r ne)

    joins : (a : Ptr) → has a (l c ++ p ∷ []) ≡ true → Waits s c a
    joins a i = elim (Bool-cases (has a (l c))) [
      | inl old ↦ h.waits c a old
      | inr new ↦ let e : a ≡ p = ground (arith, has-append a (l c) (p ∷ [])) in rw e w
    ]

    waits :
        (d : Class) (a : Ptr)
        → has a (if same d c then l c ++ p ∷ [] else l d) ≡ true
        → Waits (add_behind c p s) d a
    waits d a i = elim (Bool-cases (same d c)) [
      | inl e ↦ rw (same_eq d c e) (Waits-with s _ _ c a (joins a (rw e at i)))
      | inr e ↦ Waits-with s _ _ d a (h.waits d a (rw e at i))
    ]

-- The members of a list that one process has joined.
pub joined_or_old :
    (l : Ready) (c d : Class) (p a : Ptr)
    → has a (set_list l c (l c ++ p ∷ []) d) ≡ true
    → (has a (l d) ≡ true) ⊎ (a ≡ p)
unfolding set_list
joined_or_old l c d p a i = elim (Bool-cases (same d c)) [
  | inl e ↦ rw (same_eq d c e) (ground (arith, has-append a (l c) (p ∷ []), (rw e at i)))
  | inr e ↦ inl (rw e at i)
]

pub add_behind-IsSound :
    (s : Procs) (l : Ready) (c : Class) (p : Ptr)
    → IsSound s l
    → p ≢ null
    → Waits s c p
    → p ≢ s.proc_current
    → has p (l c) ≡ false
    → IsSound (add_behind c p s) (set_list l c (l c ++ p ∷ []))
unfolding add_behind
add_behind-IsSound s l c p h np w other out = record {
  ordered = add_behind-IsOrdered s l c p h.ordered np w out;
  not_current = λ d a i. elim (joined_or_old l c d p a i) [
    | inl old ↦ h.not_current d a old
    | inr new ↦ rw new other
  ];
}
