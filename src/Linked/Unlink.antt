-- ===== src/Linked/Unlink.antt =====
-- Taking a struct out of a queue.
use mks.Base.{
  ◌≡◌, refl, sym, ◌∙◌, ◌≢◌, false, List, [], ◌∷◌, ◌++◌, arith, ==_of_ne, has, has-append, Distinct,
  update, update_self, update_ne,
}
use mathlib.Core.List.{append-nil}
use mks.Linked.{Ptr, null, Links, Ends, ends, unlink}
use mks.Linked.Chain.{
  Chain, last_or, IsQueue, Chain-frame, Chain-behind, has-last, last_or-append, Distinct-drop,
  Distinct-at,
}

-- The link round `a` passes over it.
Chain-skip :
    (next : Links) (p q a : Ptr) (pre post : List Ptr)
    → Chain next p ((q ∷ pre) ++ a ∷ post)
    → Distinct ((q ∷ pre) ++ a ∷ post)
    → Chain (update next (last_or q pre) (next a)) p ((q ∷ pre) ++ post)
Chain-skip next p q a [] post (e, ne, (e', ne', c)) (out, d) = (
  e,
  ne,
  rw update_self (
      Chain-frame next _ (next a) post
        (λ b h. update_ne next q b (next a) (λ (same : b ≡ q). ground arith)) c),
)
Chain-skip next p q a (r ∷ pre) post (e, ne, c) (out, d) = (
  e,
  ne,
  rw (update_ne next (last_or r pre) q (next a) apart) (Chain-skip next (next q) r a pre post c d),
)
  where
    apart : q ≢ last_or r pre
    apart same = ground (arith, has-append q (r ∷ pre) (a ∷ post), has-last r pre)

-- What `unlink` leaves: the queue without `a`, and no link changed but of a struct before it.
pub record Unlinked (next : Links) (pre post : List Ptr) (r : Links × Ends) : Type 0 where
  pub queue : IsQueue r.0 r.1 (pre ++ post)
  pub outside : (b : Ptr) → has b pre ≡ false → r.0 b ≡ next b

abbrev new_tail : Ptr → Ptr → List Ptr → Ptr
new_tail e t [] = t
new_tail e t (x ∷ post) = e

-- The first struct goes: only the end pointers change.
unlink_first :
    (next : Links) (e : Ends) (a : Ptr) (post : List Ptr)
    → Chain next (next a) post
    → unlink next e null a ≡ (next, ends (next a) (new_tail e.tail null post))
unfolding unlink
unlink_first next e a [] c = ground arith
unlink_first next e a (x ∷ post) (eq, ne, c) = ground arith

-- A later struct goes: the one before it is linked to the one behind.
unlink_later :
    (next : Links) (e : Ends) (t a : Ptr) (post : List Ptr)
    → t ≢ null
    → a ≢ t
    → Chain next (next a) post
    → unlink next e t a ≡ (update next t (next a), ends e.head (new_tail e.tail t post))
unfolding unlink
unlink_later next e t a [] nt apart c =
    rw (==_of_ne t null nt, update_ne next t a (next a) apart, c)
unlink_later next e t a (x ∷ post) nt apart (eq, ne, c) = rw (
  ==_of_ne t null nt,
  update_ne next t a (next a) apart,
  ==_of_ne (next a) null (λ z. ground arith),
)

new_tail-last :
    (e t s : Ptr) (pre post : List Ptr) (a : Ptr)
    → e ≡ last_or s (pre ++ a ∷ post)
    → t ≡ last_or s pre
    → new_tail e t post ≡ last_or s (pre ++ post)
new_tail-last e t s pre [] a h k = rw append-nil k
new_tail-last e t s pre (x ∷ post) a h k =
    h ∙ last_or-append s a pre (x ∷ post) ∙ sym (last_or-append s x pre post)

last_or_ne :
    (next : Links) (p q : Ptr) (pre : List Ptr) (rest : List Ptr)
    → Chain next p ((q ∷ pre) ++ rest)
    → last_or q pre ≢ null
last_or_ne next p q [] rest (e, ne, c) = ne
last_or_ne next p q (r ∷ pre) rest (e, ne, c) = last_or_ne next (next q) r pre rest c

pub unlink-Unlinked :
    (next : Links) (e : Ends) (a : Ptr) (pre post : List Ptr)
    → IsQueue next e (pre ++ a ∷ post)
    → Unlinked next pre post (unlink next e (last_or null pre) a)
unlink-Unlinked next e a [] post q = rw (unlink_first next e a post q.chain.2) (record {
  queue = record {
    chain = q.chain.2;
    tail = new_tail-last e.tail null null [] post a q.tail refl;
    distinct = q.distinct.1;
  };
  outside = λ b h. refl;
})
unlink-Unlinked next e a (y ∷ pre) post q =
    rw (unlink_later next e (last_or y pre) a post here apart behind) (record {
      queue = record {
        chain = Chain-skip next e.head y a pre post q.chain q.distinct;
        tail = new_tail-last e.tail (last_or y pre) null (y ∷ pre) post a q.tail refl;
        distinct = Distinct-drop a (y ∷ pre) post q.distinct;
      };
      outside =
          λ b h. update_ne next (last_or y pre) b (next a) (λ same. ground (arith, has-last y pre));
    })
  where
    here : last_or y pre ≢ null
    here = last_or_ne next e.head y pre (a ∷ post) q.chain

    behind : Chain next (next a) post
    behind = (Chain-behind next e.head a (y ∷ pre) post q.chain).1

    apart : a ≢ last_or y pre
    apart same = ground (arith, has-last y pre, Distinct-at a (y ∷ pre) post q.distinct)
