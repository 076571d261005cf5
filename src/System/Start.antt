-- ===== src/System/Start.antt =====
-- From the start of kernel/main.c on, all that runs keeps the kernel in order.
use mks.Base.{ℕ, suc, ◌≡◌, ◌≢◌, ◌≤◌, ◌<◌, ◌^◌, sym, ◌∙◌, ap, inr, some, arith}
use mks.Linked.{Ptr, null}
use mks.Messaging.Store.{slot, nr_procs, nr_msg_hardware}
use mks.Messaging.Start.{nobody_waits}
use mks.Proc.Start.{load}
use mks.Proc.Start.Ready.{nobody_ready}
use mks.Time.{Tm}
use mks.Time.Calendar.{IsDate}
use mks.Time.Startup.{Shows}
use mks.Boot.{Given, Whole, main}
use mks.Boot.Order.{InOrder}
use mks.Boot.Return.{IsLoaded, main-InOrder}
use mks.System.Reach.{System, Reach, Good, Reach-Good}
use mks.System.Calm.{Rested}
use mks.System.Runs.{CurrentRuns}

-- The kernel as `main` leaves it.
abbrev pub started : Whole → System
started s = record { screen = s.screen; kbd = s.kbd; clock = s.clock; ipc = s.ipc }

module _ (owner : Ptr → ℕ) (g : Given) (s after : Whole) (t : Tm) (n : ℕ)
    (o : InOrder g s after t n)
    (slots_apart : (i : ℕ) → i < nr_msg_hardware → nr_procs ≤ owner (slot s.ipc.mem.slots i)) where
  idle_runs : CurrentRuns after.start.procs
  idle_runs = inr (
      ap after.start.procs.pid (o.ready.idle_runs ∙ sym (o.ready.there 0 (omega arith)))
      ∙ o.ready.table.numbered 0 (omega arith) o.ready.table.idle)

  nobody-Rested : Rested owner after.ipc.mem nobody_waits nobody_ready
  nobody-Rested = record {
    table = rw o.same_procs o.ready.table;
    sound = rw o.same_procs o.ready.sound;
    blocked = λ q p i. absurd cc;
    once = λ q q' p p' i i' e. absurd cc;
    slots = rw o.slots_at slots_apart;
    slots_there = o.slots.ne_null;
  }

  started-Good : Good owner (started after)
  started-Good = record {
    waiting = nobody_waits;
    ready = nobody_ready;
    steady = record {
      rep = o.queues;
      calm = record { rested = nobody-Rested; runs = rw o.same_procs idle_runs };
    };
    kbd = o.good.kbd;
    screen = o.good.screen;
  }

-- Where the CMOS clock shows a date of 1970 to 2069 at every read, neither the first process nor
-- the array of hardware messages lies at address 0, this array lies on the kernel stack of no
-- process, the memory is at least 1 MB and two pages large, the boot code has mapped the first
-- pages to themselves and the processes have no tables yet: from the data that the program is
-- loaded with, `main` gets to the point where it turns the interrupts on, and in every state that
-- interrupts with handlers, interrupts for messages by any process but 0, and writes of the
-- processes to their own words lead to from there, the process table and the ready queues are in
-- order, the pointers of the message queues stand for lists of different structs, each on the
-- kernel stack of a process that sleeps and waits with this struct only, the running process is
-- ready to run or process 0, and the shift queue and the cursor are in order.
pub main-Good :
    (owner : Ptr → ℕ) (rounds : ℕ) (g : Given) (s : Whole) (t : Tm) (n : ℕ)
    → Shows g.cmos t
    → IsDate t n
    → s.start.init_procs ≢ null
    → s.ipc.mem.slots ≢ null
    → g.mem_size < 2 ^ 32
    → 0x10_2000 ≤ g.mem_size
    → IsLoaded s.start.memory
    → ((i : ℕ) → i < nr_msg_hardware → nr_procs ≤ owner (slot s.ipc.mem.slots i))
    → (after : Whole) × (main (suc rounds) g (record s { start = load s.start }) ≡ some after)
      × ((k : System) → Reach owner after.interrupts.table (started after) k → Good owner k)
main-Good owner rounds g s t n shows date ne ne' fits enough loaded slots_apart =
    let (after, is, o, one, two) =
      main-InOrder rounds g s t n shows date ne ne' fits enough loaded in
    (after, is, λ k reach. Reach-Good owner (started-Good owner g s after t n o slots_apart) reach)
