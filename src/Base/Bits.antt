-- ===== src/Base/Bits.antt =====
-- Masks on words: the digits of `&` and `|`, one at a time, and the masks of this kernel.
use Prim.Native.Nat.{
  ℕ, zero, suc, ◌+◌, ◌*◌, ◌/◌, ◌%◌, ◌^◌, ◌≤◌, ◌<◌, min, max, bit_and, bit_or, digits,
  bit_and-bitwise, bit_or-bitwise,
}
use mathlib.Core.Path.{◌≡◌, refl}
use native.Mathlib.Omega.{arith}

-- The count of digits to go may be any that is large enough.
digits-any_fuel :
    (z : ℕ → ℕ) (f : ℕ → ℕ → ℕ) (n m a b : ℕ) → a ≤ n → a ≤ m → digits z f n a b ≡ digits z f m a b
digits-any_fuel z f zero zero a b p q = refl
digits-any_fuel z f (suc n) (suc m) (suc a) b p q =
    rw (digits-any_fuel z f n m (suc a / 2) (b / 2) (omega arith) (omega arith)) refl
digits-any_fuel z f zero (suc m) zero b p q = refl
digits-any_fuel z f zero (suc m) (suc a) b p q = absurd (omega arith)
digits-any_fuel z f (suc n) zero zero b p q = refl
digits-any_fuel z f (suc n) zero (suc a) b p q = absurd (omega arith)
digits-any_fuel z f (suc n) (suc m) zero b p q = refl

bit_and-halves : (a b : ℕ) → bit_and a b ≡ bit_and (a / 2) (b / 2) * 2 + min (a % 2) (b % 2)
bit_and-halves zero b = omega (arith, bit_and-bitwise 0 b, bit_and-bitwise 0 (b / 2))
bit_and-halves (suc a) b = omega (
  arith,
  digits-any_fuel (λ (b : ℕ). zero) min a (suc a / 2) (suc a / 2) (b / 2) (omega arith)
      (omega arith),
  bit_and-bitwise (suc a / 2) (b / 2),
  bit_and-bitwise (suc a) b,
)

bit_or-halves : (a b : ℕ) → bit_or a b ≡ bit_or (a / 2) (b / 2) * 2 + max (a % 2) (b % 2)
bit_or-halves zero b = omega (arith, bit_or-bitwise 0 b, bit_or-bitwise 0 (b / 2))
bit_or-halves (suc a) b = omega (
  arith,
  digits-any_fuel (λ (b : ℕ). b) max a (suc a / 2) (suc a / 2) (b / 2) (omega arith) (omega arith),
  bit_or-bitwise (suc a / 2) (b / 2),
  bit_or-bitwise (suc a) b,
)

zero_below : (n a : ℕ) → a ≤ n → bit_and a 0 ≡ 0
zero_below n zero h = omega (arith, bit_and-bitwise 0 0)
zero_below zero (suc a) h = absurd (omega arith)
zero_below (suc n) (suc a) h =
    omega (arith, zero_below n (suc a / 2) (omega arith), bit_and-halves (suc a) 0)

same_below : (n a : ℕ) → a ≤ n → bit_or a 0 ≡ a
same_below n zero h = omega (arith, bit_or-bitwise 0 0)
same_below zero (suc a) h = absurd (omega arith)
same_below (suc n) (suc a) h =
    omega (arith, same_below n (suc a / 2) (omega arith), bit_or-halves (suc a) 0)

-- A mask that ends in a 0, and one that ends in a 1.
bit_and_even : (a m : ℕ) → bit_and a (2 * m) ≡ 2 * bit_and (a / 2) m
bit_and_even a m =
    let half : 2 * m / 2 ≡ m = omega arith in
    let step : bit_and a (2 * m) ≡ bit_and (a / 2) m * 2 + min (a % 2) (2 * m % 2) =
      rw half at (bit_and-halves a (2 * m)) in
    omega (arith, step)

bit_and_odd : (a m : ℕ) → bit_and a (2 * m + 1) ≡ 2 * bit_and (a / 2) m + a % 2
bit_and_odd a m =
    let half : (2 * m + 1) / 2 ≡ m = omega arith in
    let step : bit_and a (2 * m + 1) ≡ bit_and (a / 2) m * 2 + min (a % 2) ((2 * m + 1) % 2) =
      rw half at (bit_and-halves a (2 * m + 1)) in
    omega (arith, step)

low_five : (a m : ℕ) → bit_and a (32 * m + 31) ≡ 32 * bit_and (a / 32) m + a % 32
low_five a m =
    let e : 32 * m + 31 ≡ 2 * (2 * (2 * (2 * (2 * m + 1) + 1) + 1) + 1) + 1 = omega arith in
    let d : a / 2 / 2 / 2 / 2 / 2 ≡ a / 32 = omega arith in
    let last : bit_and (a / 2 / 2 / 2 / 2) (2 * m + 1)
        ≡ 2 * bit_and (a / 32) m + a / 2 / 2 / 2 / 2 % 2 =
      rw d at (bit_and_odd (a / 2 / 2 / 2 / 2) m) in
    rw e (
      omega (
        arith,
        bit_and_odd a (2 * (2 * (2 * (2 * m + 1) + 1) + 1) + 1),
        bit_and_odd (a / 2) (2 * (2 * (2 * m + 1) + 1) + 1),
        bit_and_odd (a / 2 / 2) (2 * (2 * m + 1) + 1),
        bit_and_odd (a / 2 / 2 / 2) (2 * m + 1),
        last,
      ))

shift_four : (a m : ℕ) → bit_and a (16 * m) ≡ 16 * bit_and (a / 16) m
shift_four a m =
    let e : 16 * m ≡ 2 * (2 * (2 * (2 * m))) = omega arith in
    let d : a / 2 / 2 / 2 / 2 ≡ a / 16 = omega arith in
    let last : bit_and (a / 2 / 2 / 2) (2 * m) ≡ 2 * bit_and (a / 16) m =
      rw d at (bit_and_even (a / 2 / 2 / 2) m) in
    rw e (
      omega (
        arith,
        bit_and_even a (2 * (2 * (2 * m))),
        bit_and_even (a / 2) (2 * (2 * m)),
        bit_and_even (a / 2 / 2) (2 * m),
        last,
      ))

-- `a & 1`
pub bit_and_1 : (a : ℕ) → bit_and a 1 ≡ a % 2
bit_and_1 a = omega (arith, bit_and_odd a 0, zero_below (a / 2) (a / 2) (omega arith))

-- `a & 0x3FF`
pub bit_and_0x3ff : (a : ℕ) → bit_and a 0x3ff ≡ a % 1024
bit_and_0x3ff a = omega (
  arith,
  low_five a 31,
  low_five (a / 32) 0,
  zero_below (a / 32 / 32) (a / 32 / 32) (omega arith),
)

-- `a & 0xFFC`
pub bit_and_0xffc : (a : ℕ) → bit_and a 0xffc ≡ a / 4 % 1024 * 4
bit_and_0xffc a =
    let d : a / 2 / 2 ≡ a / 4 = omega arith in
    let rest : bit_and (a / 2) 0x7fe ≡ 2 * bit_and (a / 4) 0x3ff =
      rw d at (bit_and_even (a / 2) 0x3ff) in
    omega (arith, bit_and_even a 0x7fe, rest, bit_and_0x3ff (a / 4))

-- `a & 0xFFFFF` keeps a number of 20 bits.
bit_and_0xfffff : (a : ℕ) → a < 2 ^ 20 → bit_and a 0xfffff ≡ a
bit_and_0xfffff a h =
    omega (arith, low_five a 0x7fff, low_five (a / 32) 0x3ff, bit_and_0x3ff (a / 32 / 32))

-- `a & 0xFFFFF000` clears the offset in a page.
pub bit_and_0xffff_f000 : (a : ℕ) → a < 2 ^ 32 → bit_and a 0xffff_f000 ≡ a / 4096 * 4096
bit_and_0xffff_f000 a h =
    let d : a / 16 / 16 / 16 ≡ a / 4096 = omega arith in
    let last : bit_and (a / 16 / 16) 0xfffff0 ≡ 16 * bit_and (a / 4096) 0xfffff =
      rw d at (shift_four (a / 16 / 16) 0xfffff) in
    omega (
      arith,
      shift_four a 0xfffff00,
      shift_four (a / 16) 0xfffff0,
      last,
      bit_and_0xfffff (a / 4096) (omega arith),
    )

-- The same for a number of any size, of which the mask leaves 32 bits.
pub bit_and_page : (a : ℕ) → bit_and a 0xffff_f000 ≡ a / 4096 % 2 ^ 20 * 4096
bit_and_page a =
    let d : a / 16 / 16 / 16 ≡ a / 4096 = omega arith in
    let last : bit_and (a / 16 / 16) 0xfffff0 ≡ 16 * bit_and (a / 4096) 0xfffff =
      rw d at (shift_four (a / 16 / 16) 0xfffff) in
    let low : bit_and (a / 4096) 0xfffff ≡ a / 4096 % 2 ^ 20 = omega (
      arith,
      low_five (a / 4096) 0x7fff,
      low_five (a / 4096 / 32) 0x3ff,
      bit_and_0x3ff (a / 4096 / 32 / 32),
    ) in
    omega (arith, shift_four a 0xfffff00, shift_four (a / 16) 0xfffff0, last, low)

-- `a & ~2`, without the permission to write.
pub bit_and_0xffff_fffd : (a : ℕ) → a < 2 ^ 32 → bit_and a 0xffff_fffd ≡ a / 4 * 4 + a % 2
bit_and_0xffff_fffd a h =
    let d : a / 2 / 2 ≡ a / 4 = omega arith in
    let rest : bit_and (a / 2) 0x7fff_fffe ≡ 2 * bit_and (a / 4) 0x3fff_ffff =
      rw d at (bit_and_even (a / 2) 0x3fff_ffff) in
    omega (
      arith,
      bit_and_odd a 0x7fff_fffe,
      rest,
      low_five (a / 4) 0x1ff_ffff,
      low_five (a / 4 / 32) 0xf_ffff,
      bit_and_0xfffff (a / 4 / 32 / 32) (omega arith),
    )

-- `a | 7`, the flags of an entry, on a page's address.
pub bit_or_7 : (a : ℕ) → a % 8 ≡ 0 → bit_or a 7 ≡ a + 7
bit_or_7 a h = omega (
  arith,
  bit_or-halves a 7,
  bit_or-halves (a / 2) 3,
  bit_or-halves (a / 2 / 2) 1,
  same_below (a / 2 / 2 / 2) (a / 2 / 2 / 2) (omega arith),
)
