-- ===== src/Proc/Dispatch.antt =====
-- The queue operations of `schedule` of kernel/proc.c keep the queues in order.

use mks.Base.{
  ℕ, ◌≡◌, refl, inl, inr, Bool, true, false, ◌&&◌, none, some, List, [], ◌∷◌, ltb, ==_of_ne,
  if◌then◌else◌, Bool-cases,
}
use mks.Linked.{Ptr, null}
use mks.Linked.Chain.{IsQueue}
use mks.Proc.Table.{Class, task, server, user, Procs}
use mks.Proc.Schedule.{drop_head, has_ready, choose, pick}
use mks.Proc.Sound.{Ready, IsSound}
use mks.Proc.Plan.{Head, head_of_list, first_ready}

-- Whether a queue is empty, seen from its list and from its head pointer.
pub data Seen (c : Class) (s : Procs) (l : Ready) : Type 0 where
  empty : l c ≡ [] → has_ready c s ≡ false → Seen c s l
  full :
      (x : Ptr) (xs : List Ptr)
      → l c ≡ x ∷ xs
      → has_ready c s ≡ true
      → (s.queue c).head ≡ x
      → Seen c s l

see : (c : Class) (s : Procs) (l : Ready) → IsSound s l → Seen c s l
unfolding has_ready
see c s l h = go (l c) refl (h.rep.at c)
  where
    go : (xs : List Ptr) → l c ≡ xs → IsQueue s.next_ready (s.queue c) xs → Seen c s l
    go [] e q = empty e (rw (q.chain))
    go (x ∷ xs) e q = full x xs e (rw (q.chain.0, ==_of_ne x null (q.chain.1))) (q.chain.0)

-- What `choose` and `pick` come to.
pub data Picked (flag : ℕ) (s : Procs) (l : Ready) : Type 0 where
  nobody : first_ready flag l ≡ none → pick (choose flag s) s ≡ (0, s) → Picked flag s l
  head :
      (c : Class) (x : Ptr) (xs : List Ptr)
      → l c ≡ x ∷ xs
      → first_ready flag l ≡ some (c, x, xs)
      → pick (choose flag s) s ≡ (s.pid x, drop_head c s)
      → Picked flag s l

if_none : (b : Bool) → ◌≡◌ {A = Head} (if b then none else none) none
if_none true = refl
if_none false = refl

pub pick-Picked : (flag : ℕ) (s : Procs) (l : Ready) → IsSound s l → Picked flag s l
unfolding first_ready choose pick
pick-Picked flag s l h = of_task (see task s l h)
  where
    of_user :
        Seen user s l
        → l task ≡ []
        → has_ready task s ≡ false
        → (has_ready server s && ltb 1 flag) ≡ false
        → (if ltb 1 flag then head_of_list server (l server) else none) ≡ none
        → Picked flag s l
    of_user (empty e n) et nt nv ev =
        nobody (rw (et, ev, e) (if_none (ltb 2 flag))) (rw (nt, nv, n))
    of_user (full x xs e n k) et nt nv ev = elim (Bool-cases (ltb 2 flag)) [
      | inl f ↦ head user x xs e (rw (et, ev, f, e)) (rw (nt, nv, n, f, k))
      | inr f ↦ nobody (rw (et, ev, f)) (rw (nt, nv, n, f))
    ]

    of_server : Seen server s l → l task ≡ [] → has_ready task s ≡ false → Picked flag s l
    of_server (empty e n) et nt =
        of_user (see user s l h) et nt (rw n) (rw e (if_none (ltb 1 flag)))
    of_server (full x xs e n k) et nt = elim (Bool-cases (ltb 1 flag)) [
      | inl f ↦ head server x xs e (rw (et, f, e)) (rw (nt, n, f, k))
      | inr f ↦ of_user (see user s l h) et nt (rw (n, f)) (rw f)
    ]

    of_task : Seen task s l → Picked flag s l
    of_task (empty e n) = of_server (see server s l h) e n
    of_task (full x xs e n k) = head task x xs e (rw e) (rw (n, k))
