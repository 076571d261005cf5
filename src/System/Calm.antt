-- ===== src/System/Calm.antt =====
-- Between two calls of the kernel: who waits for a message sleeps, and waits once.
pub mod Sleep
pub mod Wake
use mathlib.Core.Bool.{false≢true}
use mks.Base.{
  ℕ, ◌≡◌, ◌≢◌, ◌≤◌, ◌<◌, refl, sym, ◌∙◌, ap, ◌⊎◌, inl, inr, Bool, Bool-cases, ◌==◌, ==_true, true,
  false, List, [], ◌∷◌, ◌++◌, arith, has, has-append, update, update_self, update_ne, if◌then◌else◌,
}
use mks.Linked.{Ptr, null}
use mks.Memory.{Memory}
use mks.Messaging.Store.{Store, fill, slot, running, sleeping, nr_procs, nr_msg_hardware}
use mks.Messaging.Queues.{
  Name, same, small_sends, small_receives, big_sends, big_receives, set_state,
}
use mks.Messaging.Kernel.{Kernel, kernel_services}
use mks.Messaging.Lists.{Waiting, set_list}
use mks.Proc.Table.{Procs}
use mks.Proc.Sound.{Ready, IsTable, IsSound}
use mks.System.States.{with_state-IsTable, sleep-IsSound, wake-IsSound}
use mks.Proc.Schedule.{schedule}
use mks.System.Runs.{CurrentRuns, Scheduled}

-- The process that waits with a struct: the sender, or the receiver.
abbrev pub of_senders : Name → Bool
of_senders small_sends = true
of_senders small_receives = false
of_senders big_sends = true
of_senders big_receives = false

abbrev pub waiter : {K : Type 0} → Name → Store K → Ptr → ℕ
waiter q m p = if of_senders q then m.src p else m.dest p

abbrev pub procs : Store Kernel → Procs
procs m = m.kernel.0

-- `owner` tells for an address on the kernel stack of a process the number of the process.
module _ (owner : Ptr → ℕ) where
  -- The struct lies on the stack of the process that waits with it, and this process sleeps.
  pub record Blocked (m : Store Kernel) (q : Name) (p : Ptr) : Type 0 where
    pub pid : owner p ≡ waiter q m p
    pub below : owner p < nr_procs
    pub not_idle : owner p ≢ 0
    pub there : (procs m).proc (owner p) ≢ null
    pub sleeps : (procs m).state ((procs m).proc (owner p)) ≢ running

  -- When the scheduler is called.
  pub record Rested (m : Store Kernel) (l : Waiting) (r : Ready) : Type 0 where
    pub table : IsTable (procs m)
    pub sound : IsSound (procs m) r
    pub blocked : (q : Name) (p : Ptr) → has p (l q) ≡ true → Blocked m q p
    pub once :
        (q q' : Name) (p p' : Ptr)
        → has p (l q) ≡ true
        → has p' (l q') ≡ true
        → owner p ≡ owner p'
        → p ≡ p'
    pub slots : (i : ℕ) → i < nr_msg_hardware → nr_procs ≤ owner (slot m.slots i)
    pub slots_there : m.slots ≢ null

  -- When a process or an interrupt calls the kernel.
  pub record Calm (m : Store Kernel) (l : Waiting) (r : Ready) : Type 0 where
    pub rested : Rested m l r
    pub open rested use *
    pub runs : CurrentRuns (procs m)

  pub Blocked-with :
      (m m' : Store Kernel) (q : Name) (p : Ptr)
      → Blocked m q p
      → waiter q m' p ≡ waiter q m p
      → (procs m').proc ≡ (procs m).proc
      → (procs m').state ((procs m).proc (owner p)) ≢ running
      → Blocked m' q p
  Blocked-with m m' q p b e at asleep = record {
    pid = b.pid ∙ sym e;
    below = b.below;
    not_idle = b.not_idle;
    there = rw at b.there;
    sleeps = rw at asleep;
  }

  -- Words of the callers and pages are of no matter.
  pub with_words-Rested :
      (m : Store Kernel) (l : Waiting) (r : Ready) (f : Ptr → ℕ) (mem : Memory)
      → Rested m l r
      → Rested (record m { long = f; kernel = (procs m, mem) }) l r
  with_words-Rested m l r f mem h = record {
    table = h.table;
    sound = h.sound;
    blocked = λ q p i.
        Blocked-with m (record m { long = f; kernel = (procs m, mem) }) q p (h.blocked q p i) refl
          refl (h.blocked q p i).sleeps;
    once = h.once;
    slots = h.slots;
    slots_there = h.slots_there;
  }

  -- After a call of the scheduler.
  pub schedule-Calm :
      (m : Store Kernel) (l : Waiting) (r : Ready)
      → Rested m l r
      → (c : Scheduled (procs m) (schedule (procs m)))
      → Calm (record m { kernel = (c.after, m.kernel.1) }) l c.waiting
  schedule-Calm m l r h c = record {
    rested = record {
      table = c.table;
      sound = c.sound;
      blocked = λ q p i.
          Blocked-with m (record m { kernel = (c.after, m.kernel.1) }) q p (h.blocked q p i) refl
            (ap (λ s. s.proc) c.rest) (rw (ap (λ s. s.state) c.rest) (h.blocked q p i).sleeps);
      once = h.once;
      slots = h.slots;
      slots_there = h.slots_there;
    };
    runs = c.runs;
  }
