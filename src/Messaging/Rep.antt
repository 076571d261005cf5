-- ===== src/Messaging/Rep.antt =====
-- When the pointers of messaging.c stand for four lists, and what its queue operations do to them.
use mks.Base.{
  ℕ, ◌<◌, ◌≡◌, refl, sym, ◌∙◌, ◌≢◌, inl, inr, Bool, true, false, none, some, List, [], ◌∷◌, ◌++◌,
  arith, length, has, has-append, update, update_ne, update_self,
}
use mathlib.Core.Bool.{false≢true}
use mks.Linked.{Ptr, null, Links, unlink, append}
use mks.Linked.Chain.{
  Chain, last_or, Chain-behind, found, walk-found, NoneOf, split, found_absent, found_at,
}
use mks.Linked.Family.{Rep, Rep-set, IsQueue-frame}
use mks.Linked.Unlink.{Unlinked, unlink-Unlinked}
use mks.Linked.Append.{Appended, append-Appended}
use mks.Messaging.Queues.{Name, same, Ipc, set_queue, find, remove, enqueue}
use mks.Messaging.Lists.{Waiting, set_list, take_first, any}

abbrev pub IsRep : {K : Type 0} → Ipc K → Waiting → Type 0
IsRep s l = Rep same s.next s.queue l

pub same_name : (t q : Name) → same t q ≡ true → t ≡ q
same_name t q h = ground arith

same_meet : (r t q : Name) → same r q ≡ true → same t q ≡ true → same r t ≡ false → ⊥
same_meet r t q h k ne = ground arith

-- The search stops where the list's first match stands.
pub find-found :
    {K : Type 0} (rounds : ℕ) (q : Name) (test : Ptr → Bool) (s : Ipc K) (l : Waiting)
    → IsRep s l
    → length (l q) < rounds
    → find rounds q test s ≡ some (found test null (l q))
unfolding find
find-found rounds q test s l rep short =
    walk-found rounds test s.next null (s.queue q).head (l q) (rep.at q).chain short

pub remove-Rep :
    {K : Type 0} (q : Name) (p : Ptr) (pre post : List Ptr) (s : Ipc K) (l : Waiting)
    → IsRep s l
    → l q ≡ pre ++ p ∷ post
    → IsRep (remove q (last_or null pre) p s) (set_list l q (pre ++ post))
unfolding remove set_queue set_list
remove-Rep q p pre post s l rep is =
    Rep-set same same_meet s.next _ s.queue l q _ (pre ++ post) rep cut.queue
      (λ r a ne h. cut.outside a (not_in r a ne h).0) (λ r a ne h. (not_in r a ne h).1)
  where
    cut : Unlinked s.next pre post (unlink s.next (s.queue q) (last_or null pre) p)
    cut = unlink-Unlinked s.next (s.queue q) p pre post (rw is at (rep.at q))

    not_in :
        (r : Name) (a : Ptr)
        → same r q ≡ false
        → has a (l r) ≡ true
        → (has a pre ≡ false) × (has a (pre ++ post) ≡ false)
    not_in r a ne h =
        ground (arith, rep.apart r q a ne h, is, has-append a pre (p ∷ post), has-append a pre post)

pub enqueue-Rep :
    {K : Type 0} (q : Name) (p : Ptr) (s : Ipc K) (l : Waiting)
    → IsRep s l
    → p ≢ null
    → ((r : Name) → has p (l r) ≡ false)
    → IsRep (enqueue q p s) (set_list l q (l q ++ p ∷ []))
unfolding enqueue set_queue set_list
enqueue-Rep q p s l rep np out =
    Rep-set same same_meet s.next _ s.queue l q _ (l q ++ p ∷ []) rep new.queue spared other
  where
    cleared : Links
    cleared = update s.next p null

    keeps : (r : Name) (a : Ptr) → has a (l r) ≡ true → cleared a ≡ s.next a
    keeps r a h = update_ne s.next p a null (λ same. false≢true (sym (out r) ∙ rw same at h))

    new : Appended cleared (l q) p (append cleared (s.queue q) p)
    new =
        append-Appended cleared (s.queue q) p (l q)
          (IsQueue-frame s.next cleared (s.queue q) (l q) (keeps q) (rep.at q)) np
          (update_self s.next p null) (out q)

    spared :
        (r : Name) (a : Ptr)
        → same r q ≡ false
        → has a (l r) ≡ true
        → (append cleared (s.queue q) p).0 a ≡ s.next a
    spared r a ne h = new.outside a (rep.apart r q a ne h) ∙ keeps r a h

    other :
        (r : Name) (a : Ptr) → same r q ≡ false → has a (l r) ≡ true → has a (l q ++ p ∷ []) ≡ false
    other r a ne h = ground (arith, has-append a (l q) (p ∷ []), rep.apart r q a ne h, out r)

take_first_absent : (test : Ptr → Bool) (xs : List Ptr) → NoneOf test xs → take_first test xs ≡ none
unfolding take_first
take_first_absent test [] n = refl
take_first_absent test (x ∷ xs) (e, n) = rw (e, take_first_absent test xs n)

take_first_at :
    (test : Ptr → Bool) (p : Ptr) (pre post : List Ptr)
    → NoneOf test pre
    → test p ≡ true
    → take_first test (pre ++ p ∷ post) ≡ some (p, pre ++ post)
unfolding take_first
take_first_at test p [] post n e = rw e
take_first_at test p (x ∷ pre) post (d, n) e = rw (d, take_first_at test p pre post n e)

any_absent : (test : Ptr → Bool) (xs : List Ptr) → NoneOf test xs → any test xs ≡ false
unfolding any
any_absent test [] n = refl
any_absent test (x ∷ xs) (e, n) = rw (e, any_absent test xs n)

any_at :
    (test : Ptr → Bool) (p : Ptr) (pre post : List Ptr)
    → test p ≡ true
    → any test (pre ++ p ∷ post) ≡ true
unfolding any
any_at test p [] post e = rw e
any_at test p (x ∷ pre) post e = ground (arith, any_at test p pre post e)

-- A search meets nobody, or the first that passes its test.
pub data Search (test : Ptr → Bool) (xs : List Ptr) (r : Ptr × Ptr) : Type 0 where
  nobody :
      r ≡ (last_or null xs, null)
      → take_first test xs ≡ none
      → any test xs ≡ false
      → Search test xs r
  meets :
      (p : Ptr) (pre post : List Ptr)
      → p ≢ null
      → xs ≡ pre ++ p ∷ post
      → test p ≡ true
      → r ≡ (last_or null pre, p)
      → take_first test xs ≡ some (p, pre ++ post)
      → any test xs ≡ true
      → Search test xs r

pub found-Search :
    (next : Links) (h : Ptr) (test : Ptr → Bool) (xs : List Ptr)
    → Chain next h xs
    → Search test xs (found test null xs)
found-Search next h test xs c = elim (split test xs) [
  | inl n ↦
      nobody (found_absent test null xs n) (take_first_absent test xs n) (any_absent test xs n)
  | inr s ↦
      meets s.at s.before s.behind (Chain-behind next h s.at s.before s.behind (rw s.is at c)).0
        s.is s.passes (rw s.is (found_at test null s.at s.before s.behind s.first s.passes))
        (rw s.is (take_first_at test s.at s.before s.behind s.first s.passes))
        (rw s.is (any_at test s.at s.before s.behind s.passes))
]
