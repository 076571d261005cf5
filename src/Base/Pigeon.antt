-- ===== src/Base/Pigeon.antt =====
-- Distinct numbers below a bound are no more than the bound.
use Prim.Native.Nat.{ℕ, zero, suc, ◌≤◌, ◌<◌}
use mathlib.Core.Path.{◌≡◌, refl, sym, ap, ◌∙◌}
use mathlib.Core.Logic.{inl, inr, ◌≢◌}
use mathlib.Core.Bool.{true, false, false≢true}
use mathlib.Core.List.{List, [], ◌∷◌, map}
use native.Mathlib.Omega.{arith}
use mks.Base.Tests.{◌==◌, if◌then◌else◌, Bool-cases}
use mks.Base.Lists.{length, has, Distinct}

without : ℕ → List ℕ → List ℕ
without x [] = []
without x (y ∷ ys) = if x == y then ys else y ∷ without x ys

length-without : (x : ℕ) (xs : List ℕ) → has x xs ≡ true → length xs ≡ suc (length (without x xs))
unfolding without
length-without x [] h = absurd (false≢true h)
length-without x (y ∷ ys) h = ground (arith, length-without x ys)

has-without : (a x : ℕ) (xs : List ℕ) → has a (without x xs) ≡ true → has a xs ≡ true
unfolding without
has-without a x [] h = h
has-without a x (y ∷ ys) h = ground (arith, has-without a x ys)

without_self : (x : ℕ) (xs : List ℕ) → Distinct xs → has x (without x xs) ≡ false
unfolding without
without_self x [] d = refl
without_self x (y ∷ ys) d = ground (arith, without_self x ys d.1)

has-without_ne : (a x : ℕ) (xs : List ℕ) → has a xs ≡ false → has a (without x xs) ≡ false
unfolding without
has-without_ne a x [] h = refl
has-without_ne a x (y ∷ ys) h = ground (arith, has-without_ne a x ys)

Distinct-without : (x : ℕ) (xs : List ℕ) → Distinct xs → Distinct (without x xs)
unfolding without
Distinct-without x [] d = d
Distinct-without x (y ∷ ys) (o, d) = elim (Bool-cases (x == y)) [
  | inl e ↦ rw e d
  | inr e ↦ rw e (has-without_ne y x ys o, Distinct-without x ys d)
]

pub length-le :
    (n : ℕ) (xs : List ℕ) → Distinct xs → ((a : ℕ) → has a xs ≡ true → a < n) → length xs ≤ n
length-le zero [] d h = omega arith
length-le zero (x ∷ xs) d h = absurd (omega (arith, h x (ground arith)))
length-le (suc n) xs d h = elim (Bool-cases (has n xs)) [
  | inl e ↦
      omega
        (arith, length-without n xs e, length-le n (without n xs) (Distinct-without n xs d) smaller)
  | inr e ↦
      omega
        (arith, length-le n xs d (λ a k. below a k (λ same. false≢true (sym e ∙ (rw same at k)))))
]
  where
    below : (a : ℕ) → has a xs ≡ true → a ≢ n → a < n
    below a k ne = ground (arith, h a k)

    smaller : (a : ℕ) → has a (without n xs) ≡ true → a < n
    smaller a k =
        below a (has-without a n xs k)
          (λ same. false≢true (sym (without_self n xs d) ∙ (rw same at k)))

module _ (f : ℕ → ℕ) where
  has-map :
      (b : ℕ) (xs : List ℕ) → has b (map f xs) ≡ true → (a : ℕ) × (has a xs ≡ true) × (f a ≡ b)
  has-map b [] h = absurd (false≢true h)
  has-map b (x ∷ xs) h = elim (Bool-cases (b == f x)) [
    | inl e ↦ (x, ground arith, ground arith)
    | inr e ↦ let (a, i, k) = has-map b xs (rw e at h) in (a, ground arith, k)
  ]

  length-map : (xs : List ℕ) → length (map f xs) ≡ length xs
  length-map [] = refl
  length-map (x ∷ xs) = ap suc (length-map xs)

  Distinct-map :
      (xs : List ℕ)
      → Distinct xs
      → ((a b : ℕ) → has a xs ≡ true → has b xs ≡ true → f a ≡ f b → a ≡ b)
      → Distinct (map f xs)
  Distinct-map [] d inj = tt
  Distinct-map (x ∷ xs) (o, d) inj =
      (fresh, Distinct-map xs d (λ a b i k. inj a b (ground arith) (ground arith)))
    where
      fresh : has (f x) (map f xs) ≡ false
      fresh = elim (Bool-cases (has (f x) (map f xs))) [
        | inl e ↦
            let (a, i, k) = has-map (f x) xs e in
            let same = inj a x (ground arith) (ground arith) k in
            absurd (false≢true (sym o ∙ (rw same at i)))
        | inr e ↦ e
      ]

  -- So are things that distinct numbers below the bound name.
  pub length-le_of_names :
      (n : ℕ) (xs : List ℕ)
      → Distinct xs
      → ((a b : ℕ) → has a xs ≡ true → has b xs ≡ true → f a ≡ f b → a ≡ b)
      → ((a : ℕ) → has a xs ≡ true → f a < n)
      → length xs ≤ n
  length-le_of_names n xs d inj h =
      omega (arith, length-map xs, length-le n (map f xs) (Distinct-map xs d inj) below)
    where
      below : (b : ℕ) → has b (map f xs) ≡ true → b < n
      below b k = let (a, i, e) = has-map b xs k in ground (arith, h a i)
