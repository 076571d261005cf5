-- ===== src/Time.antt =====
-- The clock: kernel/time.c and include/kernel/time.h.
pub mod Calendar
pub mod Tick
pub mod Kept
pub mod Startup
pub mod Examples
use mks.Base.{
  ℕ, zero, suc, ◌+◌, ◌*◌, ◌/◌, ◌%◌, ◌^◌, Bool, Option, none, some, List, [], ◌∷◌, ◌++◌, ◌&&◌, not,
  ltb, ◌==◌, if◌then◌else◌, bit_and, bit_or, add32, sub32, word_mod, is_negative, update, ◌>>=◌,
}
use mks.Proc.Table.{Procs}
use mks.Proc.Schedule.{schedule}

-- `struct tm`, its fields as words. The kernel leaves `tm_wday`, `tm_yday` and `tm_isdst` unused.
pub record Tm : Type 0 where
  pub tm_sec : ℕ
  pub tm_min : ℕ
  pub tm_hour : ℕ
  pub tm_mday : ℕ
  pub tm_mon : ℕ
  pub tm_year : ℕ

abbrev pub minute : ℕ
minute = 60

abbrev pub hour : ℕ
hour = 60 * 60

abbrev pub day : ℕ
day = 24 * (60 * 60)

abbrev pub year_secs : ℕ
year_secs = 365 * (24 * (60 * 60))

abbrev pub mul32 : ℕ → ℕ → ℕ
mul32 a b = (a * b) % word_mod

-- `month[m]`: the seconds before a month of a leap year. Past the table the C code has no meaning.
unfoldable pub month : ℕ → Option ℕ
month m =
    if m == 0
    then some 0
    else if m == 1
    then some (day * 31)
    else if m == 2
    then some (day * 60)
    else if m == 3
    then some (day * 91)
    else if m == 4
    then some (day * 121)
    else if m == 5
    then some (day * 152)
    else if m == 6
    then some (day * 182)
    else if m == 7
    then some (day * 213)
    else if m == 8
    then some (day * 244)
    else if m == 9
    then some (day * 274)
    else if m == 10
    then some (day * 305)
    else if m == 11
    then some (day * 335)
    else none

-- A two-digit year below 70 is one of the next century: `if (tm->tm_year < 70) tm->tm_year += 100;`
unfoldable pub with_century : Tm → Tm
with_century t =
    if is_negative t.tm_year
    then record t { tm_year = add32 t.tm_year 100 }
    else if ltb t.tm_year 70
    then record t { tm_year = add32 t.tm_year 100 }
    else t

-- The days of the leap years gone by, in seconds: `YEAR*year + DAY*((year+1)/4)`.
unfoldable pub year_start : ℕ → ℕ
year_start year = add32 (mul32 year_secs year) (mul32 day (add32 year 1 / 4))

-- `if (tm->tm_mon>1 && ((year+2)%4)) res -= DAY;`
unfoldable pub leap_fix : ℕ → ℕ → ℕ → ℕ
leap_fix mon year res =
    if not (is_negative mon) && ltb 1 mon && not (add32 year 2 % 4 == 0) then sub32 res day else res

-- The days, hours, minutes and seconds of the struct, added to `res` in turn.
unfoldable pub add_fields : Tm → ℕ → ℕ
add_fields t res =
    let res = add32 res (mul32 day (sub32 t.tm_mday 1)) in
    let res = add32 res (mul32 hour t.tm_hour) in
    let res = add32 res (mul32 minute t.tm_min) in add32 res t.tm_sec

-- The struct with its year changed, and the result. Years before 1970 do not occur in the kernel:
-- the division and the remainder are those of a year that is not negative.
unfoldable pub kernel_mktime : Tm → Option (Tm × ℕ)
kernel_mktime tm =
    let t = with_century tm in
    let year = sub32 t.tm_year 70 in
    month t.tm_mon >>= λ m.
    some (t, add_fields t (leap_fix t.tm_mon year (add32 (year_start year) m)))

-- `BCD_TO_BIN`
unfoldable pub bcd_to_bin : ℕ → ℕ
bcd_to_bin v = bit_and v 15 + (v / 16) * 10

-- A value that the code sends to a port.
abbrev pub Out : Type 0
Out = ℕ × ℕ

-- What port 0x71 answers to the n-th read of the CMOS, for the address sent to port 0x70.
abbrev pub Cmos : Type 0
Cmos = ℕ → ℕ → ℕ

-- `CMOS_READ(addr)` sends `0x80 | addr`.
unfoldable pub cmos_read : Cmos → ℕ → ℕ → ℕ
cmos_read cmos n addr = cmos n (bit_or 0x80 addr)

-- The `do … while` loop, with the rounds left: the reads are repeated until the second has not
-- changed meanwhile. `n` counts the reads.
unfoldable pub read_clock : ℕ → Cmos → ℕ → Option Tm
read_clock zero cmos n = none
read_clock (suc k) cmos n =
    let t : Tm = record {
      tm_sec = cmos_read cmos n 0;
      tm_min = cmos_read cmos (n + 1) 2;
      tm_hour = cmos_read cmos (n + 2) 4;
      tm_mday = cmos_read cmos (n + 3) 7;
      tm_mon = cmos_read cmos (n + 4) 8;
      tm_year = cmos_read cmos (n + 5) 9;
    } in
    let rest = read_clock k cmos (n + 7) in
    if t.tm_sec == cmos_read cmos (n + 6) 0 then some t else rest

-- The fields in binary, and the month counted from 0.
unfoldable pub from_bcd : Tm → Tm
from_bcd t = record {
  tm_sec = bcd_to_bin t.tm_sec;
  tm_min = bcd_to_bin t.tm_min;
  tm_hour = bcd_to_bin t.tm_hour;
  tm_mday = bcd_to_bin t.tm_mday;
  tm_mon = sub32 (bcd_to_bin t.tm_mon) 1;
  tm_year = bcd_to_bin t.tm_year;
}

-- `LATCH`, the divisor of the timer chip for 100 interrupts in a second.
abbrev pub latch : ℕ
latch = 1193180 / 100

-- The clock's variables, and what has been sent to the ports.
pub record Clock : Type 0 where
  pub jiffies : ℕ
  pub startup_time : ℕ
  pub procs : Procs
  pub ports : List Out

-- `mask` is what port 0x21 reads: `inb_p(0x21) & ~0x01` clears the bit of the timer.
unfoldable pub time_init : ℕ → Cmos → ℕ → Clock → Option Clock
time_init rounds cmos mask s = read_clock rounds cmos 0 >>= λ t. kernel_mktime (from_bcd t) >>= λ r.
    some (record s {
      startup_time = r.1;
      jiffies = 0;
      ports =
          s.ports
          ++ (0x36, 0x43)
            ∷ (bit_and latch 0xff, 0x40)
            ∷ (latch / 2 ^ 8, 0x40)
            ∷ (bit_and mask 0xfe, 0x21)
            ∷ [];
    })

-- The charge of one tick to the running process, in user mode or in the kernel, and the tick taken
-- off its time slice.
unfoldable pub charge : ℕ → Procs → Procs
charge cpl s =
    let p = s.proc_current in
    let s' =
      if cpl == 0
      then record s { stime = update s.stime p (add32 (s.stime p) 1) }
      else record s { utime = update s.utime p (add32 (s.utime p) 1) } in
    record s' { counter = update s'.counter p (sub32 (s'.counter p) 1) }

-- `--counter > 0`, for a signed counter.
unfoldable pub has_time : Procs → Bool
has_time s = not (is_negative (s.counter s.proc_current)) && not (s.counter s.proc_current == 0)

unfoldable pub do_intr_clock : ℕ → Clock → Option Clock
do_intr_clock cpl s =
    let c = record s { jiffies = add32 s.jiffies 1; ports = s.ports ++ (0x20, 0x20) ∷ [] } in
    let p = charge cpl s.procs in
    let spent = record p { counter = update p.counter p.proc_current 0 } in
    if has_time p
    then some (record c { procs = p })
    else if cpl == 0
    then some (record c { procs = spent })
    else (schedule spent >>= λ p'. some (record c { procs = p' }))
