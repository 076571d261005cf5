-- ===== src/Linked/Turn.antt =====
-- The queue operations of kernel/proc.c: a struct joins before its own link is cleared, and the head
-- of a queue leaves.
use mathlib.Core.Bool.{false≢true}
use mks.Base.{
  ◌≡◌, refl, sym, ◌∙◌, ◌≢◌, false, List, [], ◌∷◌, ◌++◌, arith, ◌==◌, ==_of_ne, if◌then◌else◌, has,
  update, update_self, update_ne, update_comm,
}
use mks.Linked.{Ptr, null, Links, Ends, ends, append}
use mks.Linked.Chain.{IsQueue, has-last}
use mks.Linked.Append.{Appended, append-Appended, append_nil, append_cons}
use mks.Linked.Family.{IsQueue-frame}

-- The tail pointer after the head has left.
abbrev pub tail_behind : Ptr → Ptr → Ptr
tail_behind h t = if h == null then null else t

pub drop_head-IsQueue :
    (next : Links) (e : Ends) (x : Ptr) (xs : List Ptr)
    → IsQueue next e (x ∷ xs)
    → IsQueue next (ends (next e.head) (tail_behind (next e.head) e.tail)) xs
drop_head-IsQueue next e x [] q =
    rw (q.chain.0, q.chain.2) (record { chain = refl; tail = refl; distinct = tt })
drop_head-IsQueue next e x (y ∷ xs) q =
    rw (q.chain.0, ==_of_ne (next x) null full)
      (record { chain = q.chain.2; tail = q.tail; distinct = q.distinct.1 })
  where
    full : next x ≢ null
    full z = q.chain.2.1 (sym (q.chain.2.0) ∙ z)

-- The queue `ys`, come of `xs` by writes to the links of `xs` and of `p`.
pub record Joined (next : Links) (xs ys : List Ptr) (p : Ptr) (next' : Links) (e : Ends)
    : Type 0 where
  pub queue : IsQueue next' e ys
  pub outside : (b : Ptr) → has b xs ≡ false → b ≢ p → next' b ≡ next b

module _ (next : Links) (e : Ends) (p : Ptr) where
  cleared : Links
  cleared = update next p null

  append-cleared :
      (xs : List Ptr)
      → IsQueue next e xs
      → has p xs ≡ false
      → ((a : Ptr) → update (append next e p).0 p null a ≡ (append cleared e p).0 a)
        × ((append next e p).1 ≡ (append cleared e p).1)
  unfolding cleared
  append-cleared [] q out =
      rw (append_nil next e p q.chain, append_nil (update next p null) e p q.chain)
        (λ a. refl, refl)
  append-cleared (x ∷ xs) q out =
      rw (append_cons next e p full, append_cons (update next p null) e p full) (commutes, refl)
    where
      full : e.head ≢ null
      full z = q.chain.1 (sym (q.chain.0) ∙ z)

      apart : p ≢ e.tail
      apart same = ground (arith, q.tail, has-last x xs)

      commutes :
          (a : Ptr)
          → update (update next e.tail p) p null a ≡ update (update next p null) e.tail p a
      commutes a = update_comm next e.tail p a p null (λ same. apart (sym same))

  pub append-Joined :
      (xs : List Ptr)
      → IsQueue next e xs
      → p ≢ null
      → has p xs ≡ false
      → Joined next xs (xs ++ p ∷ []) p (update (append next e p).0 p null) (append next e p).1
  unfolding cleared
  append-Joined xs q np out = record {
    queue = rw ends_same (IsQueue-frame _ _ _ (xs ++ p ∷ []) (λ a _. links_same a) late.queue);
    outside = λ b h ne. links_same b ∙ late.outside b h ∙ update_ne next p b null ne;
  }
    where
      links_same : (a : Ptr) → update (append next e p).0 p null a ≡ (append cleared e p).0 a
      links_same = (append-cleared xs q out).0

      ends_same : (append next e p).1 ≡ (append cleared e p).1
      ends_same = (append-cleared xs q out).1

      late : Appended cleared xs p (append cleared e p)
      late =
          append-Appended cleared e p xs
            (IsQueue-frame next cleared e xs
              (λ a h. update_ne next p a null (λ same. false≢true (sym out ∙ rw same at h))) q)
            np (update_self next p null) out

head_full :
    (next : Links) (e : Ends) (xs : List Ptr) (p : Ptr)
    → IsQueue next e (xs ++ p ∷ [])
    → e.head ≢ null
head_full next e [] p q z = q.chain.1 (sym (q.chain.0) ∙ z)
head_full next e (x ∷ xs) p q z = q.chain.1 (sym (q.chain.0) ∙ z)

-- The running process joins a queue that is not empty, and the head of the queue is dropped.
pub requeue-Joined :
    (next : Links) (e : Ends) (p x : Ptr) (xs : List Ptr)
    → IsQueue next e (x ∷ xs)
    → p ≢ null
    → has p (x ∷ xs) ≡ false
    → Joined next
        (x ∷ xs)
        (xs ++ p ∷ [])
        p
        (update (update next e.tail p) p null)
        (ends (update next e.tail p e.head) p)
requeue-Joined next e p x xs q np out = record {
  queue = rw (← same_head) (rw (tail_is _ p left) at left);
  outside = joined.outside;
}
  where
    full : e.head ≢ null
    full z = q.chain.1 (sym (q.chain.0) ∙ z)

    n2 : Links
    n2 = update (update next e.tail p) p null

    joined : Joined next (x ∷ xs) (x ∷ xs ++ p ∷ []) p n2 (ends e.head p)
    joined = rw (append_cons next e p full) at (append-Joined next e p (x ∷ xs) q np out)

    left : IsQueue n2 (ends (n2 e.head) (tail_behind (n2 e.head) p)) (xs ++ p ∷ [])
    left = drop_head-IsQueue n2 (ends e.head p) x (xs ++ p ∷ []) joined.queue

    same_head : n2 e.head ≡ update next e.tail p e.head
    same_head = update_ne (update next e.tail p) p e.head null (λ same. ground (arith, q.chain))

    tail_is :
        (h t : Ptr) → IsQueue n2 (ends h (tail_behind h t)) (xs ++ p ∷ []) → tail_behind h t ≡ t
    tail_is h t q = rw (==_of_ne h null (head_full n2 _ xs p q))
