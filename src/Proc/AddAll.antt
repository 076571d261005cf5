-- ===== src/Proc/AddAll.antt =====
-- The loop of `add_running_proc` of kernel/proc.c over the whole table.
use mks.Base.{
  ℕ, zero, suc, ◌+◌, ◌≤◌, ◌<◌, ◌≡◌, refl, sym, inl, inr, true, Option, none, some, List, [], ◌∷◌,
  ◌++◌, arith, ◌==◌, ==_true, Bool-cases, has, has-append,
}
use mathlib.Core.List.{append-nil, append_assoc}
use mks.Linked.{Ptr, Links, Ends}
use mks.Messaging.Store.{nr_procs}
use mks.Proc.Table.{Class, same, Procs, class_of, is_ready, add_procs, add_running_proc}
use mks.Proc.Sound.{Ready, set_list, IsTable, IsSound, same_eq, same_self, with_queues}
use mks.Proc.AddRunning.{join_class, joins, join_all, Queued, add_proc-Queued}

pub IsTable-with :
    (s : Procs) (next : Links) (queue : Class → Ends)
    → IsTable s
    → IsTable (with_queues s next queue)
IsTable-with s next queue t = record {
  numbered = t.numbered;
  typed = t.typed;
  idle = t.idle;
  current = t.current;
  current_below = t.current_below;
  current_at = t.current_at;
}

join_all_with :
    (k i : ℕ) (s : Procs) (next : Links) (queue : Class → Ends) (l : Ready)
    → join_all k i (with_queues s next queue) l ≡ join_all k i s l
unfolding join_all joins is_ready
join_all_with zero i s next queue l = refl
join_all_with (suc k) i s next queue l = join_all_with k (i + 1) s next queue (joins i s l)

add_procs-Queued :
    (k i : ℕ) (s : Procs) (l : Ready)
    → IsTable s
    → IsSound s l
    → 1 ≤ i
    → k + i ≡ nr_procs
    → Queued s (join_all k i s l) (add_procs k i s)
unfolding add_procs join_all
add_procs-Queued zero i s l t h lo e = record {
  next = s.next_ready;
  queue = s.queue;
  is = refl;
  sound = h;
}
add_procs-Queued (suc k) i s l t h lo e =
    let one = add_proc-Queued s l i t h lo (omega arith) in
    let s' = with_queues s one.next one.queue in
    let rest =
      add_procs-Queued k (i + 1) s' (joins i s l) (IsTable-with s one.next one.queue t) one.sound
        (omega arith) (omega arith) in
    rw one.is (record {
      next = rest.next;
      queue = rest.queue;
      is = rest.is;
      sound = rw (join_all_with k (i + 1) s one.next one.queue (joins i s l)) at (rest.sound);
    })

-- A process is added at most once, and the processes that waited keep their places.
abbrev pub Keeps : Ready → Ready → Type 0
Keeps l l' = (c : Class) → (zs : List Ptr) × (l' c ≡ l c ++ zs)

Keeps-trans : (l m n : Ready) → Keeps l m → Keeps m n → Keeps l n
Keeps-trans l m n h k c =
    let (xs, e) = h c in let (ys, f) = k c in (xs ++ ys, rw (f, e) (append_assoc (l c) xs ys))

Keeps-refl : (l : Ready) → Keeps l l
Keeps-refl l c = ([], sym (append-nil (l c)))

join_class-Keeps : (p : Ptr) (o : Option Class) (l : Ready) → Keeps l (join_class p o l)
unfolding set_list
join_class-Keeps p none l d = Keeps-refl l d
join_class-Keeps p (some c) l d = elim (Bool-cases (has p (l c))) [
  | inl old ↦ rw old (Keeps-refl l d)
  | inr new ↦ rw new (elim (Bool-cases (same d c)) [
    | inl e ↦ (p ∷ [], rw (e, same_eq d c e))
    | inr e ↦ ([], rw e (sym (append-nil (l d))))
  ])
]

join_class-has : (p : Ptr) (c : Class) (l : Ready) → has p (join_class p (some c) l c) ≡ true
unfolding set_list
join_class-has p c l = elim (Bool-cases (has p (l c))) [
  | inl old ↦ rw old old
  | inr new ↦ rw (new, same_self c, has-append p (l c) (p ∷ [])) (ground arith)
]

joins-Keeps : (i : ℕ) (s : Procs) (l : Ready) → Keeps l (joins i s l)
unfolding joins
joins-Keeps i s l = elim (Bool-cases (is_ready s i)) [
  | inr no_one ↦ rw no_one (Keeps-refl l)
  | inl ready ↦ rw ready (join_class-Keeps (s.proc i) (class_of (s.proc_type (s.proc i))) l)
]

pub join_all-Keeps : (k i : ℕ) (s : Procs) (l : Ready) → Keeps l (join_all k i s l)
unfolding join_all
join_all-Keeps zero i s l = Keeps-refl l
join_all-Keeps (suc k) i s l =
    Keeps-trans l (joins i s l) _ (joins-Keeps i s l) (join_all-Keeps k (i + 1) s (joins i s l))

Keeps-has :
    (l m : Ready) (c : Class) (p : Ptr) → Keeps l m → has p (l c) ≡ true → has p (m c) ≡ true
Keeps-has l m c p k h = let (zs, e) = k c in rw (e, has-append p (l c) zs, h)

-- Every ready process with a number in the range of the loop waits at its end.
pub join_all-has :
    (k i j : ℕ) (s : Procs) (l : Ready) (c : Class)
    → i ≤ j
    → j < k + i
    → is_ready s j ≡ true
    → class_of (s.proc_type (s.proc j)) ≡ some c
    → has (s.proc j) (join_all k i s l c) ≡ true
unfolding join_all joins
join_all-has zero i j s l c lo hi ready class = absurd (omega arith)
join_all-has (suc k) i j s l c lo hi ready class = elim (Bool-cases (i == j)) [
  | inl e ↦
      Keeps-has (joins i s l) _ c (s.proc j) (join_all-Keeps k (i + 1) s (joins i s l))
        (rw (==_true i j e, ready, class) (join_class-has (s.proc j) c l))
  | inr ne ↦ join_all-has k (i + 1) j s (joins i s l) c (ground arith) (omega arith) ready class
]

pub add_running_proc-Queued :
    (s : Procs) (l : Ready)
    → IsTable s
    → IsSound s l
    → Queued s (join_all 63 1 s l) (add_running_proc s)
unfolding add_running_proc
add_running_proc-Queued s l t h = add_procs-Queued 63 1 s l t h (omega arith) (omega arith)

-- Where the process table is in order and the ready queues stand for lists of ready processes,
-- `add_running_proc` ends. After it every process but the running one and process 0 that is ready to
-- run waits in the queue of its class, the processes that waited before it keep their places at the
-- front, the queues' pointers stand for the new lists, and nothing but the queues has changed.
pub add_running_proc_complete :
    (s : Procs) (l : Ready)
    → IsTable s
    → IsSound s l
    → (l' : Ready) × Queued s l' (add_running_proc s)
      × Keeps l l'
      × ((i : ℕ) (c : Class)
          → 1 ≤ i
          → i < nr_procs
          → is_ready s i ≡ true
          → class_of (s.proc_type (s.proc i)) ≡ some c
          → has (s.proc i) (l' c) ≡ true)
add_running_proc_complete s l t h = (
  join_all 63 1 s l,
  add_running_proc-Queued s l t h,
  join_all-Keeps 63 1 s l,
  λ i c lo hi ready class. join_all-has 63 1 i s l c lo (omega arith) ready class,
)
