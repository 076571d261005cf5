-- ===== src/Boot/Order.antt =====
-- When `main` of kernel/main.c turns the interrupts on, every part of the kernel is in order.
use mks.Base.{ℕ, suc, ◌≡◌, ◌≢◌, ◌⊎◌, refl, Option, none, some, arith}
use mks.Linked.{null}
use mks.Messaging.Kernel.{Kernel}
use mks.Messaging.Start.{nobody_waits, msg_init-IsRep, msg_init-kernel, msg_init-slots}
use mks.Messaging.Rep.{IsRep}
use mks.Messaging.Refine.{IsMarked}
use mks.Proc.Start.{load, share_kernel}
use mks.Proc.Start.Ready.{Shares, nobody_ready, IsReady, started, no_memory, proc_init-Started}
use mks.Time.{Tm}
use mks.Time.Calendar.{IsDate, epoch}
use mks.Time.Startup.{Shows, time_init-epoch}
use mks.Keyboard.Queue.{IsValid}
use mks.Printk.Cursor.{con_init-Stays}
use mks.Interrupt.Handlers.{Machine}
use mks.Interrupt.Kept.{IsGood}
use mks.Proc.Sound.{Ready}
use mks.Interrupt.Reach.{Reach, Reach-IsGood}
use mks.Keyboard.{KbdQueue, keyboard_init}
use mks.Memory.{Memory}
use mks.Messaging.Queues.{Ipc, msg_init}
use mks.Interrupt.{intr_init}
use mks.Boot.{Given, Whole, find_memory, main}

-- The part of the state that the interrupt handlers work on.
abbrev pub machine : Whole → Machine
machine s = record { screen = s.screen; kbd = s.kbd; memory = s.start.memory; clock = s.clock }

pub record InOrder (g : Given) (before after : Whole) (t : Tm) (n : ℕ) : Type 0 where
  pub good : IsGood (machine after) nobody_ready
  pub lasting :
      (m : Machine) → Reach after.interrupts.table (machine after) m → (l : Ready) × IsGood m l
  pub ready : IsReady before.start after.start.procs
  pub queues : IsRep after.ipc nobody_waits
  pub slots : IsMarked after.ipc.mem nobody_waits
  pub slots_at : after.ipc.mem.slots ≡ before.ipc.mem.slots
  pub shared : Shares (find_memory g.mem_size before.start.memory) after.start.memory
  pub same_procs : after.ipc.mem.kernel ≡ (after.start.procs, after.start.memory)
  pub time : after.clock.startup_time ≡ epoch n t

-- How the start ends: the kernel's pages may be missing for one of the processes.
pub data Booted (g : Given) (s : Whole) (t : Tm) (n : ℕ) (r : Option Whole) : Type 0 where
  booted : (after : Whole) → r ≡ some after → InOrder g s after t n → Booted g s t n r
  no_pages :
      (let m = find_memory g.mem_size s.start.memory in
        (share_kernel 1 m ≡ none)
        ⊎ ((m' : Memory) × (share_kernel 1 m ≡ some m') × (share_kernel 2 m' ≡ none)))
      → r ≡ none
      → Booted g s t n r

init-IsValid : (k : KbdQueue) → IsValid (keyboard_init k)
unfolding keyboard_init
init-IsValid k = record {
  ordered = omega arith;
  bounded = omega arith;
  shifts = λ i lo hi. absurd (omega arith);
}

-- Where the CMOS clock shows a date of 1970 to 2069 at every read, and neither the first process nor
-- the array of hardware messages lies at address 0: from the data that the program is loaded with,
-- `main` gets to the point where it turns the interrupts on. Then table and queues are in order for the
-- scheduler with the first three processes, the shift queue and the cursor are in order, nobody waits
-- for a message, the start time is that of the date, and in every state that interrupts with handlers
-- lead to from there, table, queues and cursor are in order. Only the loop that shares the kernel's pages
-- may not end.
pub main-Booted :
    (rounds : ℕ) (g : Given) (s : Whole) (t : Tm) (n : ℕ)
    → Shows g.cmos t
    → IsDate t n
    → s.start.init_procs ≢ null
    → s.ipc.mem.slots ≢ null
    → Booted g s t n (main (suc rounds) g (record s { start = load s.start }))
unfolding main load
main-Booted rounds g s t n shows date ne ne' =
    let (screen, shown, on) = con_init-Stays s.screen in
    let (clock, timed, epoch_is, jiffies_is, procs_are) =
      time_init-epoch rounds g.cmos g.time_mask s.clock t n shows date in
    elim (proc_init-Started g.labels
      (record s.start { memory = find_memory g.mem_size s.start.memory }) ne) [
        | no_memory h is ↦ no_pages h (rw shown (rw timed (rw is refl)))
        | started start is ready shared ↦
            let ipc : Ipc Kernel = record s.ipc {
              mem = record s.ipc.mem { kernel = (start.procs, start.memory) };
            } in
            let (rep, marked, free) = msg_init-IsRep ipc ne' in
            let k : Machine = record {
              screen = screen;
              kbd = keyboard_init s.kbd;
              memory = start.memory;
              clock = record clock { procs = start.procs };
            } in
            let good : IsGood k nobody_ready = record {
              table = ready.table;
              sound = ready.sound;
              kbd = init-IsValid s.kbd;
              screen = on;
            } in
            booted
              (record {
                screen = screen;
                interrupts = intr_init g.entries g.intr_mask s.interrupts;
                start = start;
                clock = record clock { procs = start.procs };
                ipc = msg_init ipc;
                kbd = keyboard_init s.kbd;
              })
              (rw shown (rw timed (rw is refl)))
              (record {
                good = good;
                lasting = λ m reach. Reach-IsGood good reach;
                ready = record {
                  table = ready.table;
                  sound = ready.sound;
                  idle_runs = ready.idle_runs;
                  there = ready.there;
                  types = ready.types;
                  runnable = ready.runnable;
                };
                queues = rep;
                slots = marked;
                slots_at = msg_init-slots ipc;
                shared = shared;
                same_procs = msg_init-kernel ipc;
                time = epoch_is;
              })
      ]
