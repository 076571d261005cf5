-- ===== src/System/Reach.antt =====
-- Every state that the interrupts of kernel/interrupt.c and the messages of kernel/messaging.c lead to.
use mks.Base.{ℕ, ◌≡◌, ◌≢◌, ◌<◌, refl, sym, ◌∙◌, ap, none, some, Option, ◌>>=◌}
use mks.Linked.{Ptr, null}
use mks.Memory.{Memory}
use mks.Memory.Fault.{do_intr_page}
use mks.Messaging.Queues.{Ipc}
use mks.Messaging.Kernel.{Kernel, kernel_services}
use mks.Messaging.Big.{do_intr_msg}
use mks.Messaging.Lists.{Waiting}
use mks.Proc.Table.{Procs}
use mks.Proc.Sound.{Ready}
use mks.Time.{Clock, do_intr_clock}
use mks.Keyboard.{KbdQueue, do_intr_keyboard}
use mks.Keyboard.Queue.{IsValid}
use mks.Printk.{Screen, printk, printbin}
use mks.Printk.Cursor.{IsOnScreen}
use mks.Interrupt.{
  Handler, reserved, debug2, page, clock, keyboard, parallel, kercall, numbered, Table,
}
use mks.Interrupt.Dispatch.{called}
use mks.Interrupt.Handlers.{Machine, Raised, print_line, end_of_interrupt, run}
use mks.Interrupt.Kept.{IsGood, run-IsGood}
use mks.System.Calm.{procs, with_words-Rested}
use mks.System.Message.{Steady, Left, returns, no_memory, rounds, do_intr_msg-Left}
use mks.System.Tick.{tick-Calm}

-- The state of the kernel. The processes and the memory are those of `ipc`; those of `clock` are not used.
pub record System : Type 0 where
  pub screen : Screen
  pub kbd : KbdQueue
  pub clock : Clock
  pub ipc : Ipc Kernel

-- What the interrupt handlers work on, and back.
abbrev pub machine_of : System → Machine
machine_of s = record {
  screen = s.screen;
  kbd = s.kbd;
  memory = s.ipc.mem.kernel.1;
  clock = record s.clock { procs = procs s.ipc.mem };
}

abbrev pub with_machine : Machine → System → System
with_machine m s = record {
  screen = m.screen;
  kbd = m.kbd;
  clock = m.clock;
  ipc = record s.ipc { mem = record s.ipc.mem { kernel = (m.clock.procs, m.memory) } };
}

-- An interrupt whose entry leads to a handler; an interrupt for a message, which process 0 does not raise, as
-- it only loops; or a process that writes words of its own.
pub data Step (owner : Ptr → ℕ) (t : Table) (s : System) : System → Type 0 where
  interrupt :
      (vector : ℕ) (h : Handler) (r : Raised) (m : Machine)
      → called t vector ≡ some h
      → r.scan_code < 256
      → run h r (machine_of s) ≡ some m
      → Step owner t s (with_machine m s)
  message :
      (new_msg entry : Ptr) (function : ℕ) (src_dest msg : Ptr) (answer : ℕ) (ipc : Ipc Kernel)
      → owner new_msg ≡ (procs s.ipc.mem).pid (procs s.ipc.mem).proc_current
      → owner new_msg ≢ 0
      → new_msg ≢ null
      → do_intr_msg kernel_services rounds new_msg entry function src_dest msg s.ipc
        ≡ some (answer, ipc)
      → Step owner t s (record s { ipc = ipc })
  words :
      (long : Ptr → ℕ)
      → Step owner t s (record s { ipc = record s.ipc { mem = record s.ipc.mem { long = long } } })

pub data Reach (owner : Ptr → ℕ) (t : Table) (s : System) : System → Type 0 where
  here : Reach owner t s s
  next : {u v : System} → Reach owner t s u → Step owner t u v → Reach owner t s v

-- All parts are in order.
pub record Good (owner : Ptr → ℕ) (s : System) : Type 0 where
  pub waiting : Waiting
  pub ready : Ready
  pub steady : Steady owner s.ipc waiting ready
  pub kbd : IsValid s.kbd
  pub screen : IsOnScreen s.screen

-- The handlers but for that of the clock leave the processes as they are.
data Apart (h : Handler) (m m' : Machine) : Type 0 where
  ticks : h ≡ clock → Apart h m m'
  same : m'.clock.procs ≡ m.clock.procs → Apart h m m'

abbrev procs_of : Machine → Procs
procs_of m = m.clock.procs

bind-procs_of :
    {A : Type 0} (o : Option A) (f : A → Machine) (s : Procs) (m : Machine)
    → ((a : A) → procs_of (f a) ≡ s)
    → (o >>= λ a. some (f a)) ≡ some m
    → procs_of m ≡ s
bind-procs_of none f s m h e = absurd cc
bind-procs_of (some a) f s m h e = let is : f a ≡ m = cc in ap procs_of (sym is) ∙ h a

run-Apart : (h : Handler) (r : Raised) (m m' : Machine) → run h r m ≡ some m' → Apart h m m'
unfolding run print_line end_of_interrupt
run-Apart clock r m m' e = ticks refl
run-Apart parallel r m m' e = let is : end_of_interrupt m ≡ m' = cc in same (ap procs_of (sym is))
run-Apart page r m m' e =
    same (bind-procs_of (do_intr_page r.cr2 r.error_code m.memory) _ m.clock.procs m' (λ a. refl) e)
run-Apart keyboard r m m' e =
    same (bind-procs_of (do_intr_keyboard r.scan_code m.kbd) _ m.clock.procs m' (λ a. refl) e)
run-Apart debug2 r m m' e =
    same (bind-procs_of (printbin r.error_code m.screen) _ m.clock.procs m' (λ a. refl) e)
run-Apart reserved r m m' e =
    same (bind-procs_of (printk _ m.screen) _ m.clock.procs m' (λ a. refl) e)
run-Apart kercall r m m' e =
    same (bind-procs_of (printk _ m.screen) _ m.clock.procs m' (λ a. refl) e)
run-Apart (numbered n) r m m' e =
    same (bind-procs_of (printk _ m.screen) _ m.clock.procs m' (λ a. refl) e)

run_clock :
    (r : Raised) (m m' : Machine) (c : Clock)
    → run clock r m ≡ some m'
    → do_intr_clock r.cpl m.clock ≡ some c
    → m' ≡ record m { clock = c }
unfolding run
run_clock r m m' c e is = let both : some (record m { clock = c }) ≡ some m' = rw is at e in cc

module _ (owner : Ptr → ℕ) where
  -- Other pages and the same processes.
  with_memory-Steady :
      (s : Ipc Kernel) (l : Waiting) (r : Ready) (long : Ptr → ℕ) (mem : Memory)
      → Steady owner s l r
      → Steady owner
          (record s { mem = record s.mem { long = long; kernel = (procs s.mem, mem) } })
          l
          r
  with_memory-Steady s l r long mem w = record {
    rep = w.rep;
    calm = record {
      rested = with_words-Rested owner s.mem l r long mem w.calm.rested;
      runs = w.calm.runs;
    };
  }

  -- A handler that returns.
  handler-Steady :
      (h : Handler) (r : Raised) (s : System) (m : Machine) (l : Waiting) (q : Ready)
      → Steady owner s.ipc l q
      → run h r (machine_of s) ≡ some m
      → (q' : Ready) × Steady owner (with_machine m s).ipc l q'
  handler-Steady h r s m l q w e = go (run-Apart h r (machine_of s) m e)
    where
      go : Apart h (machine_of s) m → (q' : Ready) × Steady owner (with_machine m s).ipc l q'
      go (same is) = (q, rw is (with_memory-Steady s.ipc l q s.ipc.mem.long m.memory w))
      go (ticks is) =
          let (c, is_c, q', calm) =
            tick-Calm owner r.cpl (machine_of s).clock s.ipc.mem l q w.calm in
          let same_m : m ≡ record (machine_of s) { clock = c } =
            run_clock r (machine_of s) m c (rw (sym is) e) is_c in
          (q', rw same_m (record { rep = w.rep; calm = calm }))

  machine_of-IsGood : (s : System) (g : Good owner s) → IsGood (machine_of s) g.ready
  machine_of-IsGood s g = record {
    table = g.steady.calm.table;
    sound = g.steady.calm.sound;
    kbd = g.kbd;
    screen = g.screen;
  }

  pub Step-Good : {t : Table} {s s' : System} → Step owner t s s' → Good owner s → Good owner s'
  Step-Good {s} (interrupt vector h r m is lt e) g =
      let (q, w) = handler-Steady h r s m g.waiting g.ready g.steady e in
      let (q', good) = run-IsGood h r (machine_of s) m g.ready (machine_of-IsGood s g) lt e in
      record { waiting = g.waiting; ready = q; steady = w; kbd = good.kbd; screen = good.screen }
  Step-Good {s} (message p entry function src_dest msg answer ipc mine no_idle np e) g = go (
      do_intr_msg-Left owner s.ipc g.waiting g.ready g.steady p mine no_idle entry function src_dest
        msg np)
    where
      go :
          Left owner s.ipc.mem.kernel.1
            (do_intr_msg kernel_services rounds p entry function src_dest msg s.ipc)
          → Good owner (record s { ipc = ipc })
      go (returns a ipc' l q is w) =
          let same_ipc : ipc' ≡ ipc = cc in
          record {
            waiting = l;
            ready = q;
            steady = rw (sym same_ipc) w;
            kbd = g.kbd;
            screen = g.screen;
          }
      go (no_memory from to _ is) = absurd cc
  Step-Good {s} (words long) g = record {
    waiting = g.waiting;
    ready = g.ready;
    steady = with_memory-Steady s.ipc g.waiting g.ready long s.ipc.mem.kernel.1 g.steady;
    kbd = g.kbd;
    screen = g.screen;
  }

  pub Reach-Good : {t : Table} {s s' : System} → Good owner s → Reach owner t s s' → Good owner s'
  Reach-Good g here = g
  Reach-Good g (next r st) = Step-Good st (Reach-Good g r)
