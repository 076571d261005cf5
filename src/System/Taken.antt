-- ===== src/System/Taken.antt =====
-- What the search of kernel/messaging.c takes out of a list.
use mks.Base.{
  ◌≡◌, ◌≢◌, refl, inl, inr, Bool, Bool-cases, ◌==◌, true, Option, none, some, List, [], ◌∷◌, arith,
  has, Distinct, ◌>>=◌,
}
use mks.Linked.{Ptr}
use mks.Messaging.Lists.{take_first}

-- Nothing, or a member and the others.
pub data Taken (test : Ptr → Bool) (xs : List Ptr) (r : Option (Ptr × List Ptr)) : Type 0 where
  nobody : r ≡ none → Taken test xs r
  member :
      (p : Ptr) (rest : List Ptr)
      → r ≡ some (p, rest)
      → has p xs ≡ true
      → ((x : Ptr) → has x rest ≡ true → (has x xs ≡ true) × (x ≢ p))
      → Taken test xs r

pub take_first-Taken :
    (test : Ptr → Bool) (xs : List Ptr) → Distinct xs → Taken test xs (take_first test xs)
unfolding take_first
take_first-Taken test [] d = nobody refl
take_first-Taken test (x ∷ xs) (out, d) = elim (Bool-cases (test x)) [
  | inl e ↦ rw e (member x xs refl (ground arith) (λ y i. (ground arith, ground arith)))
  | inr e ↦ rw e (go (take_first-Taken test xs d))
]
  where
    go :
        Taken test xs (take_first test xs)
        → Taken test (x ∷ xs) (take_first test xs >>= λ r. some (r.0, x ∷ r.1))
    go (nobody e) = nobody (rw e refl)
    go (member p rest e i others) = member p (x ∷ rest) (rw e refl) (ground arith) (λ y k.
        elim (Bool-cases (y == x)) [
          | inl same ↦ (ground arith, ground arith)
          | inr ne ↦ let (j, k') = others y (ground arith) in (ground arith, k')
        ])
