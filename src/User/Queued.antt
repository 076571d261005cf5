-- ===== src/User/Queued.antt =====
-- A list of those who wait with one struct more at its end: the queues of kernel/messaging.c.
use mks.Base.{
  Bool-cases, ℕ, ◌+◌, ◌<◌, ◌≡◌, ◌≢◌, ◌⊎◌, sym, ap, ◌∙◌, update, update_ne, inl, inr, refl, arith,
  true, none, some, [], ◌∷◌, length, length-append, has, has-append,
}
use mks.Linked.{Ptr}
use mks.Messaging.Store.{Store, slot}
use mks.Messaging.Queues.{Ipc, Reply, Name, same}
use mks.Messaging.Lists.{Waiting, set_list}
use mks.Messaging.Rep.{IsRep, same_name}
use mks.Messaging.Refine.{Refines, IsFree, IsShort, IsMarked}
use mks.User.Meeting.{queued}

pub Refines-some :
    {K : Type 0} (r : Reply K) (m : Store K) (l : Waiting)
    → Refines r (some (1, m, l))
    → (s : Ipc K) × (r ≡ some (1, s)) × (s.mem ≡ m) × IsRep s l
Refines-some none m l h = absurd h
Refines-some (some (v, s)) m l (e, same, rep) = (s, rw e refl, same, rep)

module _ (n : Name) where
  pub has-queued :
      (x p : Ptr) (l : Waiting) (q : Name)
      → has x (queued n p l q) ≡ true
      → (x ≡ p) ⊎ (has x (l q) ≡ true)
  unfolding set_list
  has-queued x p l q h = elim (Bool-cases (same q n)) [
    | inl e ↦ rw (same_name q n e) (ground (arith, has-append x (l n) (p ∷ []), (rw e at h)))
    | inr e ↦ inr (rw e at h)
  ]

  pub unqueued : (p : Ptr) (l : Waiting) (q : Name) → set_list (queued n p l) n (l n) q ≡ l q
  unfolding set_list
  unqueued p l q = elim (Bool-cases (same q n)) [
    | inl e ↦ rw e (ap l (sym (same_name q n e)))
    | inr e ↦ rw e refl
  ]

  pub unqueued-IsRep :
      {K : Type 0} (p : Ptr) (s : Ipc K) (l : Waiting)
      → IsRep s (set_list (queued n p l) n (l n))
      → IsRep s l
  unqueued-IsRep p s l rep = record {
    at = λ q. rw (sym (unqueued p l q)) (rep.at q);
    apart = λ q r x ne h. rw (sym (unqueued p l r)) (rep.apart q r x ne (rw (unqueued p l q) h));
  }

  pub queued-IsShort :
      (rounds : ℕ) (p : Ptr) (l : Waiting)
      → ((q : Name) → length (l q) + 1 < rounds)
      → IsShort rounds (queued n p l)
  unfolding set_list
  queued-IsShort rounds p l h q = elim (Bool-cases (same q n)) [
    | inl e ↦ rw e (omega (arith, h n, length-append (l n) (p ∷ [])))
    | inr e ↦ rw e (omega (arith, h q))
  ]

  pub queued-IsFree : (p' p : Ptr) (l : Waiting) → IsFree p' l → p' ≢ p → IsFree p' (queued n p l)
  queued-IsFree p' p l free ne = record {
    ne_null = free.ne_null;
    absent = λ q. elim (Bool-cases (has p' (queued n p l q))) [
      | inl h ↦ elim (has-queued p' p l q h) [
        | inl e ↦ absurd (ne e)
        | inr i ↦ ground (arith, free.absent q)
      ]
      | inr h ↦ h
    ];
  }

  pub queued-IsMarked :
      {K : Type 0} (p f : Ptr) (before after : Store K) (l : Waiting)
      → IsMarked before l
      → ((i : ℕ) → slot before.slots i ≢ p)
      → after.slots ≡ before.slots
      → after.src ≡ update before.src p f
      → IsMarked after (queued n p l)
  queued-IsMarked p f before after l marked no_slot slots-is src-is = record {
    ne_null = rw slots-is marked.ne_null;
    marked =
        rw (slots-is, src-is)
          λ q i lt h. elim (has-queued (slot before.slots i) p l q h) [
            | inl e ↦ absurd (no_slot i e)
            | inr at ↦
                update_ne before.src p (slot before.slots i) f (no_slot i) ∙ marked.marked q i lt at
          ];
  }
