-- ===== src/Proc/Outcome.antt =====
-- What a call of `schedule` of kernel/proc.c comes to, and that starting a process comes to it.

use mks.Base.{ℕ, ◌<◌, ◌≡◌, refl, ap, ◌≢◌, false, has, update}
use mks.Linked.{Ptr, null, Links, Ends}
use mks.Messaging.Store.{nr_procs}
use mks.Proc.Table.{Class, Procs, class_of}
use mks.Proc.Schedule.{time_slice, requeue, switch_to, start}
use mks.Proc.Sound.{Ready, Waits, IsOrdered, IsSound, IsTable, with_queues}
use mks.Proc.AddAll.{IsTable-with}
use mks.Proc.Plan.{Plan, turn}
use mks.Proc.Switch.{start-IsSound}
use mks.Proc.Requeue.{absent-turn, requeue-IsOrdered, requeue-Requeued}

-- The process table with other counters, queues and another running process.
abbrev pub with_turn : Procs → Procs → Procs
with_turn s after = record s {
  counter = after.counter;
  next_ready = after.next_ready;
  queue = after.queue;
  proc_current = after.proc_current;
}

pub record Outcome (s : Procs) (w : Plan) (after : Procs) : Type 0 where
  pub table : IsTable after
  pub sound : IsSound after w.waiting
  pub runs : after.proc_current ≡ w.runs
  pub counter : after.counter ≡ w.counter
  pub rest : after ≡ with_turn s after

-- A process that is in the table and in no queue is started.
pub start-Outcome :
    (s : Procs) (l : Ready) (x : Ptr) (n k : ℕ)
    → IsTable s
    → IsOrdered s l
    → n < nr_procs
    → s.proc n ≡ x
    → x ≢ null
    → ((d : Class) → has x (l d) ≡ false)
    → Outcome s (record { runs = x; counter = update s.counter x k; waiting = l }) (start n k s)
unfolding start switch_to
start-Outcome s l x n k t h lt at ne out = record {
  table = record {
    numbered = t.numbered;
    typed = t.typed;
    idle = t.idle;
    current = rw at ne;
    current_below = rw number lt;
    current_at = ap s.proc number;
  };
  sound = start-IsSound s l n k h (rw at out);
  runs = at;
  counter = rw at;
  rest = refl;
}
  where
    number : s.pid (s.proc n) ≡ n
    number = t.numbered n lt (rw at ne)

-- The queues that the start found may be others than those of `s`.
pub Outcome-with :
    (s : Procs) (next : Links) (queue : Class → Ends) (w : Plan) (after : Procs)
    → Outcome (with_queues s next queue) w after
    → Outcome s w after
Outcome-with s next queue w after o = record {
  table = o.table;
  sound = o.sound;
  runs = o.runs;
  counter = o.counter;
  rest = o.rest;
}

-- The running process gives up the processor to `x`, once `x` is out of the queues.
pub turn-Outcome :
    (s : Procs) (l : Ready) (x : Ptr) (d : Class)
    → IsTable s
    → IsOrdered s l
    → Waits s d s.proc_current
    → ((e : Class) → has s.proc_current (l e) ≡ false)
    → s.pid x < nr_procs
    → s.proc (s.pid x) ≡ x
    → x ≢ null
    → ((e : Class) → has x (l e) ≡ false)
    → x ≢ s.proc_current
    → Outcome s
        (record {
          runs = x;
          counter = update s.counter x time_slice;
          waiting = turn (class_of (s.proc_type s.proc_current)) s.proc_current l;
        })
        (start (s.pid x) time_slice (requeue (s.proc_type s.proc_current) s))
turn-Outcome s l x d t h w out lt at ne absent apart =
    let r = requeue-Requeued s (s.proc_type s.proc_current) in
    rw r.is (
      Outcome-with s r.next r.queue _ _ (
        start-Outcome (with_queues s r.next r.queue)
          (turn (class_of (s.proc_type s.proc_current)) s.proc_current l) x (s.pid x) time_slice
          (IsTable-with s r.next r.queue t) (rw r.is at (requeue-IsOrdered s l d h t.current w out))
          lt at ne
          (absent-turn (class_of (s.proc_type s.proc_current)) s.proc_current x l absent apart)))
