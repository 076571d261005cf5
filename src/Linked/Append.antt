-- ===== src/Linked/Append.antt =====
-- Putting a struct behind the tail of a queue.
use mks.Base.{
  ◌≡◌, refl, sym, ◌≢◌, false, List, [], ◌∷◌, ◌++◌, arith, ==_of_ne, has, has-append, Distinct,
  update, update_self, update_ne,
}
use mks.Linked.{Ptr, null, Links, Ends, ends, append}
use mks.Linked.Chain.{Chain, last_or, IsQueue, has-last, last_or-append}

Distinct-snoc : (p : Ptr) (xs : List Ptr) → Distinct xs → has p xs ≡ false → Distinct (xs ++ p ∷ [])
Distinct-snoc p [] d out = (refl, tt)
Distinct-snoc p (x ∷ xs) (o, d) out =
    (ground (arith, has-append x xs (p ∷ [])), Distinct-snoc p xs d (ground arith))

Chain-snoc :
    (next : Links) (h p q : Ptr) (xs : List Ptr)
    → Chain next h (q ∷ xs)
    → Distinct (q ∷ xs)
    → p ≢ null
    → next p ≡ null
    → has p (q ∷ xs) ≡ false
    → Chain (update next (last_or q xs) p) h ((q ∷ xs) ++ p ∷ [])
Chain-snoc next h p q [] (e, ne, c) d np ends out = (
  e,
  ne,
  (update_self next q p, np, rw (update_ne next q p p (λ (same : p ≡ q). ground arith)) ends),
)
Chain-snoc next h p q (r ∷ xs) (e, ne, c) (o, d) np ends out = (
  e,
  ne,
  rw (update_ne next (last_or r xs) q p apart)
      (Chain-snoc next (next q) p r xs c d np ends (ground arith)),
)
  where
    apart : q ≢ last_or r xs
    apart same = ground (arith, has-last r xs)

-- What `append` leaves: the queue with `p` behind it, and no other link changed than the tail's.
pub record Appended (next : Links) (xs : List Ptr) (p : Ptr) (r : Links × Ends) : Type 0 where
  pub queue : IsQueue r.0 r.1 (xs ++ p ∷ [])
  pub outside : (b : Ptr) → has b xs ≡ false → r.0 b ≡ next b

-- The result on a queue that is not empty, where `append` computes to it.
Appended-behind :
    (next : Links) (h p x : Ptr) (xs : List Ptr)
    → Chain next h (x ∷ xs)
    → Distinct (x ∷ xs)
    → p ≢ null
    → next p ≡ null
    → has p (x ∷ xs) ≡ false
    → Appended next (x ∷ xs) p (update next (last_or x xs) p, ends h p)
Appended-behind next h p x xs c d np last out = record {
  queue = record {
    chain = Chain-snoc next h p x xs c d np last out;
    tail = sym (last_or-append x p xs []);
    distinct = Distinct-snoc p (x ∷ xs) d out;
  };
  outside = λ b o. update_ne next (last_or x xs) b p (λ same. ground (arith, has-last x xs));
}

-- On an empty queue `append` writes no link at all.
pub append_nil :
    (next : Links) (e : Ends) (p : Ptr) → e.head ≡ null → append next e p ≡ (next, ends p p)
unfolding append
append_nil next e p h = ground arith

pub append_cons :
    (next : Links) (e : Ends) (p : Ptr)
    → e.head ≢ null
    → append next e p ≡ (update next e.tail p, ends e.head p)
unfolding append
append_cons next e p h = rw (==_of_ne e.head null h)

pub append-Appended :
    (next : Links) (e : Ends) (p : Ptr) (xs : List Ptr)
    → IsQueue next e xs
    → p ≢ null
    → next p ≡ null
    → has p xs ≡ false
    → Appended next xs p (append next e p)
append-Appended next e p [] q np last out = rw (append_nil next e p q.chain) (record {
  queue = record { chain = (refl, np, last); tail = refl; distinct = (refl, tt) };
  outside = λ b h. refl;
})
append-Appended next e p (x ∷ xs) q np last out =
    rw (append_cons next e p full, q.tail)
      (Appended-behind next e.head p x xs q.chain q.distinct np last out)
  where
    full : e.head ≢ null
    full z = q.chain.1 (ground arith)
