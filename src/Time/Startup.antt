-- ===== src/Time/Startup.antt =====
-- `time_init` of kernel/time.c: the binary-coded fields of the CMOS clock and the start time.
use mks.Base.{
  ℕ, suc, ◌+◌, ◌*◌, ◌/◌, ◌%◌, ◌<◌, ◌≡◌, refl, some, arith, ◌==◌, ==_true, ==_self, upto-at, sub32,
}
use mks.Time.{Tm, Cmos, Clock, bcd_to_bin, cmos_read, read_clock, from_bcd, time_init}
use mks.Time.Calendar.{IsDate, epoch, kernel_mktime-epoch, month_length-le, is_leap}

-- A number below 100 in two decimal digits of four bits.
unfoldable pub bcd : ℕ → ℕ
bcd v = v / 10 * 16 + v % 10

pub bcd_to_bin-bcd : (v : ℕ) → v < 100 → bcd_to_bin (bcd v) ≡ v
unfolding bcd_to_bin bcd
bcd_to_bin-bcd v h = ==_true _ _ (upto-at 100 (λ v. bcd_to_bin (bcd v) == v) v refl h)

-- The CMOS clock shows the date `t` at every read: its registers hold the fields in binary-coded
-- decimal digits, the month counted from 1.
pub record Shows (cmos : Cmos) (t : Tm) : Type 0 where
  pub sec : (n : ℕ) → cmos n 0x80 ≡ bcd t.tm_sec
  pub min : (n : ℕ) → cmos n 0x82 ≡ bcd t.tm_min
  pub hour : (n : ℕ) → cmos n 0x84 ≡ bcd t.tm_hour
  pub mday : (n : ℕ) → cmos n 0x87 ≡ bcd t.tm_mday
  pub mon : (n : ℕ) → cmos n 0x88 ≡ bcd (t.tm_mon + 1)
  pub year : (n : ℕ) → cmos n 0x89 ≡ bcd t.tm_year

abbrev coded : Tm → Tm
coded t = record {
  tm_sec = bcd t.tm_sec;
  tm_min = bcd t.tm_min;
  tm_hour = bcd t.tm_hour;
  tm_mday = bcd t.tm_mday;
  tm_mon = bcd (t.tm_mon + 1);
  tm_year = bcd t.tm_year;
}

read_clock-coded :
    (rounds : ℕ) (cmos : Cmos) (t : Tm)
    → Shows cmos t
    → read_clock (suc rounds) cmos 0 ≡ some (coded t)
unfolding read_clock cmos_read
read_clock-coded rounds cmos t h =
    rw (h.sec 0, h.min 1, h.hour 2, h.mday 3, h.mon 4, h.year 5, h.sec 6, ==_self (bcd t.tm_sec))
      refl

from_bcd-coded : (t : Tm) (n : ℕ) → IsDate t n → from_bcd (coded t) ≡ t
unfolding from_bcd
from_bcd-coded t n d =
    rw
      (
        bcd_to_bin-bcd t.tm_sec (omega (arith, d.sec_in)),
        bcd_to_bin-bcd t.tm_min (omega (arith, d.min_in)),
        bcd_to_bin-bcd t.tm_hour (omega (arith, d.hour_in)),
        bcd_to_bin-bcd t.tm_mday
            (omega (arith, d.day_to, month_length-le (is_leap (1970 + n)) t.tm_mon)),
        bcd_to_bin-bcd (t.tm_mon + 1) (omega (arith, d.month_in)),
        bcd_to_bin-bcd t.tm_year d.two_digits,
        month_back,
      )
      refl
  where
    month_back : sub32 (t.tm_mon + 1) 1 ≡ t.tm_mon
    month_back = omega (arith, d.month_in)

-- Where the CMOS clock shows a date of 1970 to 2069 at every read, `time_init` returns after one round
-- of its loop. The start time is that of the date by the calendar, and no tick has been counted.
pub time_init-epoch :
    (rounds : ℕ) (cmos : Cmos) (mask : ℕ) (s : Clock) (t : Tm) (n : ℕ)
    → Shows cmos t
    → IsDate t n
    → (s' : Clock) × (time_init (suc rounds) cmos mask s ≡ some s')
      × (s'.startup_time ≡ epoch n t)
      × (s'.jiffies ≡ 0)
      × (s'.procs ≡ s.procs)
unfolding time_init
time_init-epoch rounds cmos mask s t n h d =
    rw (read_clock-coded rounds cmos t h, from_bcd-coded t n d, kernel_mktime-epoch t n d)
      (_, refl, refl, refl, refl)
