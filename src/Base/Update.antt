-- ===== src/Base/Update.antt =====
-- Memory as a function of its address: a field of the structs of one type, or an array.
use Prim.Native.Nat.{ℕ}
use mathlib.Core.Path.{◌≡◌, refl, sym, ap, fun_ext}
use mathlib.Core.Logic.{◌≢◌, ◌⊎◌, inl, inr}
use mathlib.Core.Bool.{true, false}
use native.Mathlib.Omega.{arith}
use mks.Base.Tests.{◌==◌, if◌then◌else◌, Bool-cases, ==_true}

unfoldable pub update {ℓ} : {A : Type ℓ} → (ℕ → A) → ℕ → A → ℕ → A
update f p v a = if a == p then v else f a

pub update_self {ℓ} : {A : Type ℓ} (f : ℕ → A) (p : ℕ) (v : A) → update f p v p ≡ v
unfolding update
update_self f p v = ground arith

pub update_ne {ℓ} : {A : Type ℓ} (f : ℕ → A) (p a : ℕ) (v : A) → a ≢ p → update f p v a ≡ f a
unfolding update
update_ne f p a v h = ground arith

pub update_comm {ℓ} :
    {A : Type ℓ} (f : ℕ → A) (p q a : ℕ) (v w : A)
    → p ≢ q
    → update (update f p v) q w a ≡ update (update f q w) p v a
unfolding update
update_comm f p q a v w h = ground arith

pub update_at {ℓ} :
    {A : Type ℓ} (f : ℕ → A) (p a : ℕ) (v : A) → update f p v a ≡ (if a == p then v else f a)
unfolding update
update_at f p a v = refl

pub update_again {ℓ} :
    {A : Type ℓ} (f : ℕ → A) (p : ℕ) (v w : A) → update (update f p v) p w ≡ update f p w
unfolding update
update_again f p v w = fun_ext λ a. at a
  where
    at : (a : ℕ) → update (update f p v) p w a ≡ update f p w a
    at a = ground arith

pub update_same {ℓ} : {A : Type ℓ} (f : ℕ → A) (p : ℕ) → update f p (f p) ≡ f
unfolding update
update_same f p = fun_ext λ a. at a (Bool-cases (a == p))
  where
    at : (a : ℕ) → ((a == p) ≡ true) ⊎ ((a == p) ≡ false) → (if a == p then f p else f a) ≡ f a
    at a (inl e) = rw e (ap f (sym (==_true a p e)))
    at a (inr e) = rw e refl
