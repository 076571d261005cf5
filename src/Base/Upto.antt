-- ===== src/Base/Upto.antt =====
-- A Boolean test of all numbers below a bound, for facts on single bytes.
use Prim.Native.Nat.{ℕ, zero, suc, ◌<◌}
use mathlib.Core.Path.{◌≡◌}
use mathlib.Core.Logic.{inl, inr}
use mathlib.Core.Bool.{Bool, true, false, not, ◌&&◌}
use native.Mathlib.Omega.{arith}
use mks.Base.Tests.{◌==◌, ==_true, Bool-cases}

abbrev pub upto : ℕ → (ℕ → Bool) → Bool
upto zero test = true
upto (suc n) test = test n && upto n test

pub upto-at : (n : ℕ) (test : ℕ → Bool) (i : ℕ) → upto n test ≡ true → i < n → test i ≡ true
upto-at zero test i all h = absurd (omega arith)
upto-at (suc n) test i all h = elim (Bool-cases (i == n)) [
  | inl last ↦ rw (==_true i n last) (ground arith)
  | inr before ↦ upto-at n test i (ground arith) (ground arith)
]

abbrev pub agree : Bool → Bool → Bool
agree true b = b
agree false b = not b

pub agree_eq : (a b : Bool) → agree a b ≡ true → a ≡ b
agree_eq a b h = ground arith

-- Two tests of a byte that agree on all of them.
pub bytes_eq :
    (f g : ℕ → Bool) (c : ℕ) → upto 256 (λ i. agree (f i) (g i)) ≡ true → c < 256 → f c ≡ g c
bytes_eq f g c all h = agree_eq (f c) (g c) (upto-at 256 (λ i. agree (f i) (g i)) c all h)
