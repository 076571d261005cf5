-- ===== src/Linked/Family.antt =====
-- Several queues over one link field, as one family: a struct waits in one of them at most.
use mathlib.Core.Bool.{false≢true}
use mks.Base.{◌≡◌, sym, ◌∙◌, inl, inr, Bool, true, false, List, if◌then◌else◌, Bool-cases, has}
use mks.Linked.{Ptr, Links, Ends}
use mks.Linked.Chain.{IsQueue, Chain-frame}

pub IsQueue-frame :
    (next next' : Links) (e : Ends) (xs : List Ptr)
    → ((a : Ptr) → has a xs ≡ true → next' a ≡ next a)
    → IsQueue next e xs
    → IsQueue next' e xs
IsQueue-frame next next' e xs h q = record {
  chain = Chain-frame next next' e.head xs h q.chain;
  tail = q.tail;
  distinct = q.distinct;
}

module _ {N : Type 0} (same : N → N → Bool) where
  -- The links and the end pointers stand for the lists, and no struct waits twice.
  pub record Rep (next : Links) (queue : N → Ends) (l : N → List Ptr) : Type 0 where
    pub at : (q : N) → IsQueue next (queue q) (l q)
    pub apart : (q r : N) (p : Ptr) → same q r ≡ false → has p (l q) ≡ true → has p (l r) ≡ false

  module _ (meet : (r t q : N) → same r q ≡ true → same t q ≡ true → same r t ≡ false → ⊥) where
    -- One queue changes, by writes that spare the links of all others.
    pub Rep-set :
        (next next' : Links) (queue : N → Ends) (l : N → List Ptr) (q : N) (e : Ends)
        (xs : List Ptr)
        → Rep next queue l
        → IsQueue next' e xs
        → ((r : N) (a : Ptr) → same r q ≡ false → has a (l r) ≡ true → next' a ≡ next a)
        → ((r : N) (a : Ptr) → same r q ≡ false → has a (l r) ≡ true → has a xs ≡ false)
        → Rep next' (λ r. if same r q then e else queue r) (λ r. if same r q then xs else l r)
    Rep-set next next' queue l q e xs rep new spared other = record { at = at; apart = apart }
      where
        absent_of_other :
            (t : N) (a : Ptr) → same t q ≡ false → has a xs ≡ true → has a (l t) ≡ false
        absent_of_other t a ht h = elim (Bool-cases (has a (l t))) [
          | inl old ↦ absurd (false≢true (sym (other t a ht old) ∙ h))
          | inr new ↦ new
        ]

        at :
            (r : N) → IsQueue next' (if same r q then e else queue r) (if same r q then xs else l r)
        at r = elim (Bool-cases (same r q)) [
          | inl h ↦ rw h new
          | inr h ↦ rw h (IsQueue-frame next next' (queue r) (l r) (λ a. spared r a h) (rep.at r))
        ]

        apart :
            (r t : N) (a : Ptr)
            → same r t ≡ false
            → has a (if same r q then xs else l r) ≡ true
            → has a (if same t q then xs else l t) ≡ false
        apart r t a ne h = elim (Bool-cases (same r q)) [
          | inl hr ↦ elim (Bool-cases (same t q)) [
            | inl ht ↦ absurd (meet r t q hr ht ne)
            | inr ht ↦ rw ht (absent_of_other t a ht (rw hr at h))
          ]
          | inr hr ↦ elim (Bool-cases (same t q)) [
            | inl ht ↦ rw ht (other r a hr (rw hr at h))
            | inr ht ↦ rw ht (rep.apart r t a ne (rw hr at h))
          ]
        ]
