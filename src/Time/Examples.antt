-- ===== src/Time/Examples.antt =====
-- The clock of kernel/time.c at dates and states of its own.
use mks.Base.{◌==◌, if◌then◌else◌, ◌≡◌, refl, some, [], arith, update_self}
use mks.Proc.Table.{Procs}
use mks.Proc.Plan.{plan}
use mks.Proc.Outcome.{Outcome}
use mks.Proc.Examples.{busy, waiting, busy-IsTable, busy-IsSound}
use mks.Time.Startup.{bcd, Shows, time_init-epoch}
use mks.Time.{Cmos, time_init, Tm, Clock, kernel_mktime, with_century, do_intr_clock}
use mks.Time.Calendar
use mks.Time.Calendar.{IsDate, epoch, kernel_mktime-epoch, is_leap, month_length}
use mks.Time.Tick.{
  ticks, Later, ticks-Later, charged, spent, IsTable-spent, IsSound-spent, last_tick-Outcome,
}
use mks.Time.Kept.{Ticked, do_intr_clock-Ticked}

-- 2011-06-10 16:24:00
abbrev pub stamp : Tm
stamp = record { tm_sec = 0; tm_min = 24; tm_hour = 16; tm_mday = 10; tm_mon = 5; tm_year = 11 }

pub stamp-IsDate : IsDate stamp 41
unfolding is_leap month_length
stamp-IsDate = record {
  year_is = refl;
  two_digits = omega arith;
  month_in = omega arith;
  day_from = omega arith;
  day_to = omega arith;
  hour_in = omega arith;
  min_in = omega arith;
  sec_in = omega arith;
}

kernel_mktime-epoch_example : kernel_mktime stamp ≡ some (with_century stamp, epoch 41 stamp)
kernel_mktime-epoch_example = kernel_mktime-epoch stamp 41 stamp-IsDate

stamp_seconds : epoch 41 stamp ≡ 1307723040
unfolding epoch is_leap month_length Calendar.days_to_year Calendar.days_to_month
stamp_seconds = refl

abbrev pub running_clock : Clock
running_clock = record { jiffies = 7; startup_time = 0; procs = busy; ports = [] }

-- The same processes, the slice of the running one used up.
abbrev spent_before : Procs
spent_before = spent busy

ticks-Later_example :
    (after : Clock) × (ticks 4 3 running_clock ≡ some after) × Later 4 running_clock after
ticks-Later_example = ticks-Later 4 3 running_clock (ground arith) (omega arith) (omega arith)

last_tick-Outcome_example :
    (after : Clock) × (do_intr_clock 3 (record running_clock { procs = spent_before }) ≡ some after)
    × Outcome (spent spent_before) (plan (spent spent_before) waiting) after.procs
last_tick-Outcome_example =
    last_tick-Outcome 3 (record running_clock { procs = spent_before }) waiting (ground arith)
      (omega (arith, update_self (charged busy).counter 0x2000 0)) (IsTable-spent busy busy-IsTable)
      (IsSound-spent busy waiting busy-IsSound)

abbrev pub cmos_at_stamp : Cmos
cmos_at_stamp n a = bcd (
    if a == 0x82
    then 24
    else if a == 0x84
    then 16
    else if a == 0x87
    then 10
    else if a == 0x88
    then 6
    else if a == 0x89
    then 11
    else 0)

pub cmos-Shows : Shows cmos_at_stamp stamp
cmos-Shows = record {
  sec = λ n. refl;
  min = λ n. refl;
  hour = λ n. refl;
  mday = λ n. refl;
  mon = λ n. refl;
  year = λ n. refl;
}

time_init-epoch_example :
    (s' : Clock) × (time_init 3 cmos_at_stamp 0xff running_clock ≡ some s')
    × (s'.startup_time ≡ epoch 41 stamp)
    × (s'.jiffies ≡ 0)
    × (s'.procs ≡ busy)
time_init-epoch_example =
    time_init-epoch 2 cmos_at_stamp 0xff running_clock stamp 41 cmos-Shows stamp-IsDate

-- The slice is used up while the kernel runs.
do_intr_clock-Ticked_example :
    (after : Clock) × (do_intr_clock 0 (record running_clock { procs = spent_before }) ≡ some after)
    × Ticked (record running_clock { procs = spent_before }) waiting after
do_intr_clock-Ticked_example =
    do_intr_clock-Ticked 0 (record running_clock { procs = spent_before }) waiting
      (IsTable-spent busy busy-IsTable) (IsSound-spent busy waiting busy-IsSound)
