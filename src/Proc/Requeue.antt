-- ===== src/Proc/Requeue.antt =====
-- `requeue` of kernel/proc.c: the running process goes back to its queue.
use mathlib.Core.Bool.{false≢true}
use mks.Base.{
  ℕ, ◌≡◌, refl, sym, ◌∙◌, ◌≢◌, ◌⊎◌, inl, inr, true, false, Option, none, some, List, [], ◌∷◌, ◌++◌,
  arith, ◌==◌, ==_of_ne, if◌then◌else◌, Bool-cases, has, has-append, update,
}
use mks.Linked.{Ptr, null, Links, Ends, ends}
use mks.Linked.Chain.{IsQueue}
use mks.Linked.Append.{append_nil}
use mks.Linked.Family.{Rep-set}
use mks.Linked.Turn.{Joined, append-Joined, requeue-Joined}
use mks.Proc.Table.{Class, same, Procs, set_queue, class_of}
use mks.Proc.Schedule.{requeue_in, requeue}
use mks.Proc.Sound.{Ready, set_list, Waits, IsOrdered, same_meet, same_eq, with_queues, Waits-with}
use mks.Proc.Plan.{tail, turn}
use mks.Proc.Switch.{has_tail, not_true}

-- A queue that the process `p` of its class has joined, whatever it held before.
pub Joined-IsOrdered :
    (s : Procs) (l : Ready) (c : Class) (p : Ptr) (ys : List Ptr) (next : Links) (e : Ends)
    → IsOrdered s l
    → Waits s c p
    → ((d : Class) → has p (l d) ≡ false)
    → ((a : Ptr) → has a ys ≡ true → has a (l c) ≡ true)
    → Joined s.next_ready (l c) (ys ++ p ∷ []) p next e
    → IsOrdered (with_queues s next (set_queue s.queue c e)) (set_list l c (ys ++ p ∷ []))
unfolding set_queue set_list
Joined-IsOrdered s l c p ys next e h w out old j = record {
  rep =
      Rep-set same same_meet s.next_ready next s.queue l c e (ys ++ p ∷ []) h.rep j.queue spared
        other;
  waits = waits;
}
  where
    members : (a : Ptr) → has a (ys ++ p ∷ []) ≡ true → (has a (l c) ≡ true) ⊎ (a ≡ p)
    members a i = elim (Bool-cases (has a ys)) [
      | inl k ↦ inl (old a k)
      | inr k ↦ inr (ground (arith, has-append a ys (p ∷ [])))
    ]

    spared : (r : Class) (a : Ptr) → same r c ≡ false → has a (l r) ≡ true → next a ≡ s.next_ready a
    spared r a ne i =
        j.outside a (h.rep.apart r c a ne i) (λ k. false≢true (sym (out r) ∙ rw k at i))

    other :
        (r : Class) (a : Ptr) → same r c ≡ false → has a (l r) ≡ true → has a (ys ++ p ∷ []) ≡ false
    other r a ne i = not_true _ λ k. elim (members a k) [
      | inl in_c ↦ false≢true (sym (h.rep.apart r c a ne i) ∙ in_c)
      | inr is_p ↦ false≢true (sym (out r) ∙ rw is_p at i)
    ]

    waits :
        (d : Class) (a : Ptr)
        → has a (if same d c then ys ++ p ∷ [] else l d) ≡ true
        → Waits (with_queues s next (set_queue s.queue c e)) d a
    waits d a i = elim (Bool-cases (same d c)) [
      | inl k ↦ elim (members a (rw k at i)) [
        | inl in_c ↦ rw (same_eq d c k) (Waits-with s _ _ c a (h.waits c a in_c))
        | inr is_p ↦ rw (same_eq d c k, is_p) (Waits-with s _ _ c p w)
      ]
      | inr k ↦ Waits-with s _ _ d a (h.waits d a (rw k at i))
    ]

requeue_in_empty :
    (s : Procs) (c : Class)
    → (s.queue c).head ≡ null
    → requeue_in c s
      ≡ with_queues s s.next_ready (set_queue s.queue c (ends s.proc_current s.proc_current))
unfolding requeue_in
requeue_in_empty s c h = rw h

requeue_in_full :
    (s : Procs) (c : Class)
    → (s.queue c).head ≢ null
    → requeue_in c s
      ≡ with_queues s (update s.next_ready (s.queue c).tail s.proc_current) (
          set_queue s.queue c (
            ends
              (update s.next_ready (s.queue c).tail s.proc_current (s.queue c).head)
              s.proc_current))
unfolding requeue_in
requeue_in_full s c h = rw (==_of_ne (s.queue c).head null h)

-- The process that gives up the processor joins its queue, and the head of the queue is lost.
pub requeue-IsOrdered :
    (s : Procs) (l : Ready) (c : Class)
    → IsOrdered s l
    → s.proc_current ≢ null
    → Waits s c s.proc_current
    → ((d : Class) → has s.proc_current (l d) ≡ false)
    → IsOrdered
        (requeue (s.proc_type s.proc_current) s)
        (turn (class_of (s.proc_type s.proc_current)) s.proc_current l)
unfolding requeue turn
requeue-IsOrdered s l c h np w out = rw (w.class) (go (l c) refl (h.rep.at c))
  where
    p : Ptr
    p = s.proc_current

    e : Ends
    e = s.queue c

    go :
        (ys : List Ptr)
        → l c ≡ ys
        → IsQueue s.next_ready e ys
        → IsOrdered
            (let after = requeue_in c s in
              record after { next_ready = update after.next_ready after.proc_current null })
            (set_list l c (tail (l c) ++ p ∷ []))
    go [] is q =
        rw (requeue_in_empty s c q.chain, is)
          (Joined-IsOrdered s l c p [] _ _ h w out (λ a i. absurd (false≢true i)) (rw is alone))
      where
        alone : Joined s.next_ready [] (p ∷ []) p (update s.next_ready p null) (ends p p)
        alone =
            rw (append_nil s.next_ready e p q.chain) at
              (append-Joined s.next_ready e p [] q np refl)
    go (x ∷ xs) is q =
        rw (requeue_in_full s c full, is)
          (Joined-IsOrdered s l c p xs _ _ h w out (λ a i. rw is (has_tail a x xs i))
            (rw is (requeue-Joined s.next_ready e p x xs q np (rw is at (out c)))))
      where
        full : e.head ≢ null
        full z = q.chain.1 (sym (q.chain.0) ∙ z)

requeue_in_is :
    (s : Procs) (c : Class)
    → requeue_in c s ≡ with_queues s (requeue_in c s).next_ready (requeue_in c s).queue
unfolding requeue_in
requeue_in_is s c = elim (Bool-cases ((s.queue c).head == null)) [
  | inl e ↦ rw e refl
  | inr e ↦ rw e refl
]

-- `requeue` changes the queues only.
pub record Requeued (s after : Procs) : Type 0 where
  pub next : Links
  pub queue : Class → Ends
  pub is : after ≡ with_queues s next queue

pub requeue-Requeued : (s : Procs) (t : ℕ) → Requeued s (requeue t s)
unfolding requeue
requeue-Requeued s t = go (class_of t)
  where
    go :
        (o : Option Class)
        → Requeued s (
            let s' : Procs = elim o [ none ↦ s | some c ↦ requeue_in c s ] in
            record s' { next_ready = update s'.next_ready s'.proc_current null })
    go none = record { next = update s.next_ready s.proc_current null; queue = s.queue; is = refl }
    go (some c) = rw (requeue_in_is s c) (record {
      next = update (requeue_in c s).next_ready s.proc_current null;
      queue = (requeue_in c s).queue;
      is = refl;
    })

absent-tail : (x : Ptr) (xs : List Ptr) → has x xs ≡ false → has x (tail xs) ≡ false
absent-tail x [] h = h
absent-tail x (y ∷ xs) h = ground arith

pub absent-turn :
    (o : Option Class) (p x : Ptr) (l : Ready)
    → ((d : Class) → has x (l d) ≡ false)
    → x ≢ p
    → (d : Class) → has x (turn o p l d) ≡ false
unfolding turn set_list
absent-turn none p x l out ne d = out d
absent-turn (some c) p x l out ne d = elim (Bool-cases (same d c)) [
  | inl e ↦ rw (e, has-append x (tail (l c)) (p ∷ []), absent-tail x (l c) (out c), ==_of_ne x p ne)
  | inr e ↦ rw e (out d)
]
