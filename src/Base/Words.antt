-- ===== src/Base/Words.antt =====
-- A 32-bit `long` is its bit pattern, a number below 2 ^ 32. Signed tests read the top bit.
use Prim.Native.Nat.{ℕ, ◌+◌, ◌-◌, ◌%◌, ◌^◌}
use mathlib.Core.Bool.{Bool}
use mks.Base.Tests.{leb}

abbrev pub word_mod : ℕ
word_mod = 2 ^ 32

abbrev pub sign_bit : ℕ
sign_bit = 2 ^ 31

-- The pattern of -1.
abbrev pub minus_one : ℕ
minus_one = 0xffff_ffff

abbrev pub is_negative : ℕ → Bool
is_negative w = leb sign_bit w

abbrev pub add32 : ℕ → ℕ → ℕ
add32 a b = (a + b) % word_mod

abbrev pub sub32 : ℕ → ℕ → ℕ
sub32 a b = (a + word_mod - b) % word_mod
