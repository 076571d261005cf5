-- ===== src/Printk/Numbers.antt =====
-- The numbers that kernel/printk.c prints, read back.
use mks.Base.{
  ℕ, zero, suc, ◌+◌, ◌-◌, ◌*◌, ◌/◌, ◌%◌, ◌^◌, ◌<◌, ◌≡◌, refl, ap, Bool, true, false, Option, none,
  some, List, [], ◌∷◌, ◌++◌, arith, ltb, leb, ◌==◌, ◌&&◌, inl, inr, Bool-cases, ==_true,
  if◌then◌else◌, length, upto-at, ◌>>=◌,
}
use mks.Printk.{digits_of, chars_of_long, chars_of_byte, hex_digit, turn_byte}

-- The value of a character as a digit of the base `b`.
abbrev pub digit : ℕ → ℕ → Option ℕ
digit b c =
    let below : ℕ → Option ℕ = λ d. if ltb d b then some d else none in
    if leb 48 c && ltb c 58
    then below (c - 48)
    else if leb 65 c && ltb c 71
    then below (c - 55)
    else none

-- A numeral, behind a number that has been read already; `none` if a character is no digit.
unfoldable pub read : ℕ → ℕ → List ℕ → Option ℕ
read b n [] = some n
read b n (c ∷ cs) = digit b c >>= λ d. read b (n * b + d) cs

behind :
    (o : Option ℕ) (f g : ℕ → Option ℕ) (r : Option ℕ) (v : ℕ)
    → ((d : ℕ) → f d ≡ some v → g d ≡ r)
    → (o >>= f) ≡ some v
    → (o >>= g) ≡ r
behind none f g r v h e = ground arith
behind (some d) f g r v h e = h d e

read-append :
    (b n v : ℕ) (xs ys : List ℕ) → read b n xs ≡ some v → read b n (xs ++ ys) ≡ read b v ys
unfolding read
read-append b n v [] ys e = ground arith
read-append b n v (c ∷ xs) ys e =
    behind (digit b c) (λ d. read b (n * b + d) xs) (λ d. read b (n * b + d) (xs ++ ys))
      (read b v ys) v (λ d h. read-append b (n * b + d) v xs ys h) e

-- 10 ^ k
abbrev pub ten : ℕ → ℕ
ten zero = 1
ten (suc k) = 10 * ten k

digit_of_rest : (r : ℕ) → r < 10 → digit 10 (r + 48) ≡ some r
digit_of_rest r h = ground arith

pub digits_of-read : (k a : ℕ) → a < ten k → read 10 0 (digits_of k a) ≡ some a
unfolding digits_of read
digits_of-read zero a h = let e : a ≡ 0 = omega arith in rw e refl
digits_of-read (suc k) a h = elim (Bool-cases (a == 0)) [
  | inl e ↦ rw (e, ==_true a 0 e) refl
  | inr e ↦
      rw
        (
          e,
          read-append 10 0 (a / 10) (digits_of k (a / 10)) ((a - a / 10 * 10 + 48) ∷ [])
              (digits_of-read k (a / 10) (omega arith)),
          digit_of_rest (a - a / 10 * 10) (omega arith),
        )
        (ground arith)
]

-- What stands on the screen for the 32-bit pattern `a` of a signed number.
pub data Shown (a : ℕ) (cs : List ℕ) : Type 0 where
  not_negative : a < 2 ^ 31 → read 10 0 cs ≡ some a → Shown a cs
  negative :
      (ds : List ℕ) → 2 ^ 31 < a → cs ≡ 45 ∷ ds → read 10 0 ds ≡ some (2 ^ 32 - a) → Shown a cs
  minimal : a ≡ 2 ^ 31 → cs ≡ 45 ∷ 48 ∷ [] → Shown a cs

magnitude : (c : ℕ) → c < 2 ^ 31 → read 10 0 (if c == 0 then 48 ∷ [] else digits_of 10 c) ≡ some c
unfolding read
magnitude c h = elim (Bool-cases (c == 0)) [
  | inl e ↦ rw (e, ==_true c 0 e) refl
  | inr e ↦ rw e (digits_of-read 10 c (omega arith))
]

-- The decimal numeral that `printa` writes for a 32-bit pattern reads back as the number, with a minus
-- sign and the absolute value for a negative one. For the least number it writes -0 instead.
pub chars_of_long-Shown : (a : ℕ) → a < 2 ^ 32 → Shown a (chars_of_long a)
unfolding chars_of_long
chars_of_long-Shown a h = elim (Bool-cases (ltb a (2 ^ 31))) [
  | inl small ↦
      let lt : a < 2 ^ 31 = ground arith in
      let plus : (a / 2147483648 == 1) ≡ false = ground arith in
      let low : a % 2147483648 ≡ a = omega arith in
      rw (plus, low) (not_negative lt (magnitude a lt))
  | inr large ↦ elim (Bool-cases (a == 2 ^ 31)) [
    | inl least ↦ rw (==_true a (2 ^ 31) least) (minimal refl refl)
    | inr other ↦
        let lt : 2 ^ 31 < a = ground arith in
        let minus : (a / 2147483648 == 1) ≡ true = ground arith in
        let low : (4294967295 - (a + 4294967296 - 1) % 4294967296) % 2147483648 ≡ 2 ^ 32 - a =
          omega arith in
        rw (minus, low) (negative _ lt refl (magnitude (2 ^ 32 - a) (omega arith)))
  ]
]

abbrev reads_as : Option ℕ → ℕ → Bool
reads_as none c = false
reads_as (some v) c = v == c

reads_as_eq : (o : Option ℕ) (c : ℕ) → reads_as o c ≡ true → o ≡ some c
reads_as_eq none c h = ground arith
reads_as_eq (some v) c h = ap some (==_true v c h)

abbrev low_digits : ℕ → List ℕ
low_digits c = hex_digit (turn_byte c) ∷ hex_digit (turn_byte (turn_byte c)) ∷ []

low_digits-read : (c : ℕ) → c < 256 → read 16 0 (low_digits c) ≡ some c
unfolding read hex_digit turn_byte
low_digits-read c h =
    reads_as_eq (read 16 0 (low_digits c)) c
      (upto-at 256 (λ c. reads_as (read 16 0 (low_digits c)) c) c refl h)

-- For every byte `printhex` writes 0x and two digits, whose value in base 16 is the byte.
pub chars_of_byte-read :
    (c : ℕ)
    → c < 256
    → (ds : List ℕ) × (chars_of_byte c ≡ 48 ∷ 120 ∷ ds) × (length ds ≡ 2) × (read 16 0 ds ≡ some c)
unfolding chars_of_byte
chars_of_byte-read c h = (low_digits c, refl, refl, low_digits-read c h)
