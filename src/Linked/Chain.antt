-- ===== src/Linked/Chain.antt =====
-- What the pointers of a queue stand for: the list of the addresses that the links lead through.
use mks.Base.{
  ℕ, zero, suc, ◌<◌, ◌≡◌, refl, ◌≢◌, ◌⊎◌, inl, inr, Bool, true, false, ◌||◌, some, List, [], ◌∷◌,
  ◌++◌, arith, ◌==◌, if◌then◌else◌, Bool-cases, length, has, has-append, Distinct,
}
use mks.Linked.{Ptr, null, Links, Ends, walk}

abbrev pub Chain : Links → Ptr → List Ptr → Type 0
Chain next p [] = p ≡ null
Chain next p (a ∷ xs) = (p ≡ a) × (a ≢ null) × Chain next (next a) xs

-- The last address, or `t` where there is none.
abbrev pub last_or : Ptr → List Ptr → Ptr
last_or t [] = t
last_or t (a ∷ xs) = last_or a xs

pub record IsQueue (next : Links) (e : Ends) (xs : List Ptr) : Type 0 where
  pub chain : Chain next e.head xs
  pub tail : e.tail ≡ last_or null xs
  pub distinct : Distinct xs

-- A chain survives any change that spares its own links.
pub Chain-frame :
    (next next' : Links) (p : Ptr) (xs : List Ptr)
    → ((a : Ptr) → has a xs ≡ true → next' a ≡ next a)
    → Chain next p xs
    → Chain next' p xs
Chain-frame next next' p [] same c = c
Chain-frame next next' p (a ∷ xs) same (e, ne, c) = (
  e,
  ne,
  rw (same a (ground arith)) (Chain-frame next next' (next a) xs (λ b h. same b (ground arith)) c),
)

-- The two pointers at which a walk along `xs` stops.
unfoldable pub found : (Ptr → Bool) → Ptr → List Ptr → Ptr × Ptr
found test t [] = (t, null)
found test t (a ∷ xs) = if test a then (t, a) else found test a xs

-- A walk along a chain ends within one round more than the chain has structs.
pub walk-found :
    (k : ℕ) (test : Ptr → Bool) (next : Links) (t p : Ptr) (xs : List Ptr)
    → Chain next p xs
    → length xs < k
    → walk k test next t p ≡ some (found test t xs)
unfolding walk found
walk-found zero test next t p xs c h = absurd (omega arith)
walk-found (suc k) test next t p [] c h = ground arith
walk-found (suc k) test next t p (a ∷ xs) (e, ne, c) h =
    ground (arith, walk-found k test next a (next a) xs c (omega arith))

abbrev pub NoneOf : (Ptr → Bool) → List Ptr → Type 0
NoneOf test [] = Unit {0}
NoneOf test (x ∷ xs) = (test x ≡ false) × NoneOf test xs

-- The first address that passes a test, with what stands before and behind it.
pub record Split (test : Ptr → Bool) (xs : List Ptr) : Type 0 where
  pub before : List Ptr
  pub at : Ptr
  pub behind : List Ptr
  pub is : xs ≡ before ++ at ∷ behind
  pub passes : test at ≡ true
  pub first : NoneOf test before

pub split : (test : Ptr → Bool) (xs : List Ptr) → NoneOf test xs ⊎ Split test xs
split test [] = inl tt
split test (x ∷ xs) = elim (Bool-cases (test x)) [
  | inl e ↦ inr (record { before = []; at = x; behind = xs; is = refl; passes = e; first = tt })
  | inr e ↦ elim (split test xs) [
    | inl n ↦ inl (e, n)
    | inr s ↦ inr (record {
      before = x ∷ s.before;
      at = s.at;
      behind = s.behind;
      is = rw s.is;
      passes = s.passes;
      first = (e, s.first);
    })
  ]
]

pub found_absent :
    (test : Ptr → Bool) (t : Ptr) (xs : List Ptr)
    → NoneOf test xs
    → found test t xs ≡ (last_or t xs, null)
unfolding found
found_absent test t [] n = refl
found_absent test t (x ∷ xs) (e, n) = rw e (found_absent test x xs n)

pub found_at :
    (test : Ptr → Bool) (t a : Ptr) (pre post : List Ptr)
    → NoneOf test pre
    → test a ≡ true
    → found test t (pre ++ a ∷ post) ≡ (last_or t pre, a)
unfolding found
found_at test t a [] post n e = rw e
found_at test t a (x ∷ pre) post (d, n) e = rw d (found_at test x a pre post n e)

pub has-last : (q : Ptr) (xs : List Ptr) → has (last_or q xs) (q ∷ xs) ≡ true
has-last q [] = ground arith
has-last q (x ∷ xs) = ground (arith, has-last x xs)

pub last_or-append : (t a : Ptr) (xs ys : List Ptr) → last_or t (xs ++ a ∷ ys) ≡ last_or a ys
last_or-append t a [] ys = refl
last_or-append t a (x ∷ xs) ys = last_or-append x a xs ys

pub has_split :
    (b a : Ptr) (pre post : List Ptr)
    → has b (pre ++ a ∷ post) ≡ (has b pre || ((b == a) || has b post))
has_split b a pre post = has-append b pre (a ∷ post)

-- A chain that reaches a struct leads on from it.
pub Chain-behind :
    (next : Links) (p a : Ptr) (pre post : List Ptr)
    → Chain next p (pre ++ a ∷ post)
    → (a ≢ null) × Chain next (next a) post
Chain-behind next p a [] post (e, ne, c) = (ne, c)
Chain-behind next p a (x ∷ pre) post (e, ne, c) = Chain-behind next (next x) a pre post c

pub Distinct-drop :
    (a : Ptr) (pre post : List Ptr) → Distinct (pre ++ a ∷ post) → Distinct (pre ++ post)
Distinct-drop a [] post d = d.1
Distinct-drop a (x ∷ pre) post (out, d) =
    (ground (arith, has-append x pre post, has_split x a pre post), Distinct-drop a pre post d)

pub Distinct-at :
    (a : Ptr) (pre post : List Ptr)
    → Distinct (pre ++ a ∷ post)
    → (has a pre ≡ false) × (has a post ≡ false)
Distinct-at a [] post d = (refl, d.0)
Distinct-at a (x ∷ pre) post (out, d) =
    ground (arith, Distinct-at a pre post d, has_split x a pre post)
