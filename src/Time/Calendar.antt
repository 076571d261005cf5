-- ===== src/Time/Calendar.antt =====
-- The seconds that `kernel_mktime` of kernel/time.c counts are those of the calendar.
use mks.Base.{
  ℕ, zero, suc, ◌+◌, ◌-◌, ◌*◌, ◌/◌, ◌%◌, ◌≤◌, ◌<◌, ◌≡◌, refl, ◌∙◌, ap, Bool, true, false, some,
  ◌&&◌, ◌||◌, not, arith, ltb, ◌==◌, inl, inr, Bool-cases, if◌then◌else◌, add32, sub32, is_negative,
}
use mks.Time.{Tm, day, month, with_century, year_start, leap_fix, add_fields, kernel_mktime}

-- The Gregorian rule.
unfoldable pub is_leap : ℕ → Bool
is_leap y = (y % 4 == 0) && (not (y % 100 == 0) || (y % 400 == 0))

-- The days from the start of 1970 to the start of the year 1970 + n.
unfoldable pub days_to_year : ℕ → ℕ
days_to_year zero = 0
days_to_year (suc n) = days_to_year n + (if is_leap (1970 + n) then 366 else 365)

-- The length of a month, counted from 0.
unfoldable pub month_length : Bool → ℕ → ℕ
month_length leap m =
    if m == 1
    then (if leap then 29 else 28)
    else if m == 3 || m == 5 || m == 8 || m == 10
    then 30
    else 31

unfoldable pub days_to_month : Bool → ℕ → ℕ
days_to_month leap zero = 0
days_to_month leap (suc m) = days_to_month leap m + month_length leap m

-- The closed form of the code counts the leap years right up to 2100.
days_closed : (n : ℕ) → n ≤ 130 → 365 * n + (n + 1) / 4 ≡ days_to_year n
unfolding days_to_year is_leap
days_closed zero h = refl
days_closed (suc n) h = ground (arith, days_closed n)

leap_test : (n : ℕ) → n < 130 → ((n + 2) % 4 == 0) ≡ is_leap (1970 + n)
unfolding is_leap
leap_test n h = ground arith

month_table : (m : ℕ) → m < 12 → month m ≡ some (day * days_to_month true m)
unfolding month days_to_month month_length
month_table zero h = refl
month_table (suc zero) h = refl
month_table (suc (suc zero)) h = refl
month_table (suc (suc (suc zero))) h = refl
month_table (suc (suc (suc (suc zero)))) h = refl
month_table (suc (suc (suc (suc (suc zero))))) h = refl
month_table (suc (suc (suc (suc (suc (suc zero)))))) h = refl
month_table (suc (suc (suc (suc (suc (suc (suc zero))))))) h = refl
month_table (suc (suc (suc (suc (suc (suc (suc (suc zero)))))))) h = refl
month_table (suc (suc (suc (suc (suc (suc (suc (suc (suc zero))))))))) h = refl
month_table (suc (suc (suc (suc (suc (suc (suc (suc (suc (suc zero)))))))))) h = refl
month_table (suc (suc (suc (suc (suc (suc (suc (suc (suc (suc (suc zero))))))))))) h = refl
month_table (suc (suc (suc (suc (suc (suc (suc (suc (suc (suc (suc (suc m)))))))))))) h =
    absurd (omega arith)

same_length : (m : ℕ) → 1 < m → month_length true m ≡ month_length false m
unfolding month_length
same_length m h = ground arith

-- A common year is a day shorter from March on.
january : days_to_month true 1 ≡ days_to_month false 1
unfolding days_to_month month_length
january = refl

february : days_to_month true 2 ≡ days_to_month false 2 + 1
unfolding days_to_month month_length
february = refl

from_march : (m : ℕ) → days_to_month true (suc (suc m)) ≡ days_to_month false (suc (suc m)) + 1
unfolding days_to_month
from_march zero = february
from_march (suc m) = omega (arith, from_march m, same_length (suc (suc m)) (omega arith))

pub month_length-le : (leap : Bool) (m : ℕ) → month_length leap m ≤ 31
unfolding month_length
month_length-le leap m = ground arith

days_to_month-le : (leap : Bool) (m : ℕ) → days_to_month leap m ≤ 31 * m
unfolding days_to_month
days_to_month-le leap zero = omega arith
days_to_month-le leap (suc m) = omega (arith, days_to_month-le leap m, month_length-le leap m)

year_start-days : (n : ℕ) → n < 130 → year_start n ≡ day * days_to_year n
unfolding year_start
year_start-days n h = omega (arith, days_closed n (omega arith))

leap_fix-is_leap :
    (n m res : ℕ)
    → n < 130
    → m < 12
    → leap_fix m n res ≡ (if ltb 1 m && not (is_leap (1970 + n)) then sub32 res day else res)
unfolding leap_fix
leap_fix-is_leap n m res hn hm = rw (small, leap_test n hn, positive) refl
  where
    small : add32 n 2 ≡ n + 2
    small = omega arith

    positive : is_negative m ≡ false
    positive = ground arith

-- The start of the month in the year 1970 + n, in seconds. Nothing wraps before 2100.
month_start :
    (n m : ℕ)
    → n < 130
    → m < 12
    → leap_fix m n (add32 (year_start n) (day * days_to_month true m))
      ≡ day * (days_to_year n + days_to_month (is_leap (1970 + n)) m)
month_start n m hn hm =
    rw (year_start-days n hn, leap_fix-is_leap n m _ hn hm)
      (go (is_leap (1970 + n)) m hm (days_closed n (omega arith)))
  where
    go :
        (leap : Bool) (m : ℕ)
        → m < 12
        → 365 * n + (n + 1) / 4 ≡ days_to_year n
        → (if ltb 1 m && not leap
            then sub32 (add32 (day * days_to_year n) (day * days_to_month true m)) day
            else add32 (day * days_to_year n) (day * days_to_month true m))
          ≡ day * (days_to_year n + days_to_month leap m)
    go true m h e = elim (Bool-cases (ltb 1 m)) [
      | inl k ↦ rw k (omega (arith, days_to_month-le true m))
      | inr k ↦ rw k (omega (arith, days_to_month-le true m))
    ]
    go false zero h e = omega (arith, days_to_month-le true 0, days_to_month-le false 0)
    go false (suc zero) h e = omega (arith, days_to_month-le true 1, january)
    go false (suc (suc m)) h e =
        rw late (omega (arith, days_to_month-le true (suc (suc m)), from_march m))
      where
        late : ltb 1 (suc (suc m)) ≡ true
        late = ground arith

-- The fields of the CMOS clock in binary: a date of 1970 to 2069, its year by two digits.
pub record IsDate (t : Tm) (n : ℕ) : Type 0 where
  pub year_is : (if ltb t.tm_year 70 then t.tm_year + 30 else t.tm_year - 70) ≡ n
  pub two_digits : t.tm_year < 100
  pub month_in : t.tm_mon < 12
  pub day_from : 1 ≤ t.tm_mday
  pub day_to : t.tm_mday ≤ month_length (is_leap (1970 + n)) t.tm_mon
  pub hour_in : t.tm_hour < 24
  pub min_in : t.tm_min < 60
  pub sec_in : t.tm_sec < 60

-- The seconds since the start of 1970, by the calendar.
unfoldable pub epoch : ℕ → Tm → ℕ
epoch n t =
    day * (days_to_year n + days_to_month (is_leap (1970 + n)) t.tm_mon + (t.tm_mday - 1))
    + 3600 * t.tm_hour
    + 60 * t.tm_min
    + t.tm_sec

years_since : (t : Tm) (n : ℕ) → IsDate t n → sub32 (with_century t).tm_year 70 ≡ n
unfolding with_century
years_since t n d = ground (arith, d.year_is, d.two_digits)

same_month : (t : Tm) → (with_century t).tm_mon ≡ t.tm_mon
unfolding with_century
same_month t = ground arith

same_rest : (t : Tm) (res : ℕ) → add_fields (with_century t) res ≡ add_fields t res
unfolding with_century add_fields
same_rest t res = elim (Bool-cases (is_negative t.tm_year)) [
  | inl k ↦ rw k refl
  | inr k ↦ rw k (elim (Bool-cases (ltb t.tm_year 70)) [ inl j ↦ rw j refl | inr j ↦ rw j refl ])
]

below_2100 : (t : Tm) (n : ℕ) → IsDate t n → n < 130
below_2100 t n d = ground (arith, d.year_is, d.two_digits)

-- The rest of the sum, from the start of the month.
rest_of_month :
    (t : Tm) (n : ℕ)
    → IsDate t n
    → add_fields t (day * (days_to_year n + days_to_month (is_leap (1970 + n)) t.tm_mon))
      ≡ epoch n t
unfolding epoch add_fields
rest_of_month t n d = omega (
  arith,
  days_closed n (omega (arith, below_2100 t n d)),
  below_2100 t n d,
  days_to_month-le (is_leap (1970 + n)) t.tm_mon,
  month_length-le (is_leap (1970 + n)) t.tm_mon,
)

-- `kernel_mktime` counts the seconds of the calendar from 1970 on, for every date that the CMOS
-- clock can show: leap years, the lengths of the months and the two-digit year are right, and the
-- 32-bit pattern does not wrap.
pub kernel_mktime-epoch :
    (t : Tm) (n : ℕ) → IsDate t n → kernel_mktime t ≡ some (with_century t, epoch n t)
unfolding kernel_mktime with_century
kernel_mktime-epoch t n d =
    rw (same_month t, month_table t.tm_mon d.month_in, years_since t n d)
      (ap (λ v. some (with_century t, v))
        (same_rest t _
          ∙ ap (add_fields t) (month_start n t.tm_mon (below_2100 t n d) d.month_in)
          ∙ rest_of_month t n d))
