-- ===== src/Proc/Refine.antt =====
-- `schedule` of kernel/proc.c does what the plan over lists says.
use mathlib.Core.Bool.{false≢true}
use mks.Base.{
  ℕ, ◌≡◌, refl, sym, ◌∙◌, ◌≢◌, inl, inr, true, false, Option, none, some, List, ◌∷◌, arith, ◌==◌,
  ==_of_ne, ==_true, if◌then◌else◌, Bool-cases, has, update,
}
use mks.Linked.{Ptr, null, Links, Ends}
use mks.Messaging.Store.{running}
use mks.Proc.Table.{Class, Procs, class_of}
use mks.Proc.Schedule.{time_slice, drop_head, choose, pick, requeue, start, dispatch, schedule}
use mks.Proc.Sound.{Ready, set_list, Waits, IsOrdered, IsSound, IsTable, with_queues}
use mks.Proc.AddRunning.{join_all}
use mks.Proc.AddAll.{IsTable-with, add_running_proc-Queued}
use mks.Proc.Plan.{first_ready, plan_of, plan, turn}
use mks.Proc.Dispatch.{Picked, nobody, head, pick-Picked}
use mks.Proc.Switch.{absent-rest, has-rest, not_true, drop_head-IsOrdered}
use mks.Proc.Outcome.{Outcome, start-Outcome, Outcome-with, turn-Outcome}

module _ (s : Procs) (l : Ready) (t : IsTable s) (h : IsSound s l) where
  idle_absent : (d : Class) → has (s.proc 0) (l d) ≡ false
  idle_absent d = elim (Bool-cases (has (s.proc 0) (l d))) [
    | inl i ↦ absurd ((h.waits d (s.proc 0) i).not_idle (t.numbered 0 (omega arith) t.idle))
    | inr o ↦ o
  ]

  current_absent : (d : Class) → has s.proc_current (l d) ≡ false
  current_absent d = elim (Bool-cases (has s.proc_current (l d))) [
    | inl i ↦ absurd (h.not_current d s.proc_current i refl)
    | inr o ↦ o
  ]

  -- Nobody is chosen: the running process goes on, or process 0 is started.
  nobody-Outcome : (ty : ℕ) → Outcome s (plan_of s l none) (dispatch ty 0 s)
  unfolding dispatch plan_of
  nobody-Outcome ty = elim (Bool-cases (s.state s.proc_current == running)) [
    | inl runs ↦ elim (Bool-cases (s.pid s.proc_current == 0)) [
      | inl idle ↦
          rw (runs, idle)
            (record { table = t; sound = h; runs = refl; counter = refl; rest = refl })
      | inr other ↦
          rw (runs, other)
            (record {
              table = record {
                numbered = t.numbered;
                typed = t.typed;
                idle = t.idle;
                current = t.current;
                current_below = t.current_below;
                current_at = t.current_at;
              };
              sound = record {
                ordered = record {
                  rep = h.rep;
                  waits = λ c a i.
                      let w = h.waits c a i in
                      record {
                        at = w.at;
                        not_idle = w.not_idle;
                        below = w.below;
                        class = w.class;
                        runs = w.runs;
                      };
                };
                not_current = h.not_current;
              };
              runs = refl;
              counter = refl;
              rest = refl;
            })
    ]
    | inr sleeps ↦
        rw sleeps
          (start-Outcome s l (s.proc 0) 0 0 t h.ordered (omega arith) refl t.idle idle_absent)
  ]

  module _ (c : Class) (x : Ptr) (xs : List Ptr) (is : l c ≡ x ∷ xs) where
    chosen : Waits s c x
    chosen = h.waits c x (rw is (ground arith))

    chosen_ne : x ≢ null
    chosen_ne = (rw is at ((h.rep.at c).chain)).1

    queue' : Class → Ends
    queue' = (drop_head c s).queue

    cut-IsOrdered : IsOrdered (with_queues s s.next_ready queue') (set_list l c xs)
    unfolding queue' drop_head
    cut-IsOrdered = drop_head-IsOrdered s l c x xs h.ordered is

    head-Outcome :
        Outcome s
          (plan_of s l (some (c, x, xs)))
          (dispatch (s.proc_type s.proc_current) (s.pid x) (drop_head c s))
    unfolding dispatch plan_of queue' drop_head
    head-Outcome = elim (Bool-cases (s.state s.proc_current == running)) [
      | inl runs ↦ elim (Bool-cases (s.pid s.proc_current == 0)) [
        | inl idle ↦ rw (not_zero, runs, idle) straight
        | inr other ↦ rw (not_zero, runs, other) (back runs other)
      ]
      | inr sleeps ↦ rw (not_zero, sleeps) straight
    ]
      where
        not_zero : (s.pid x == 0) ≡ false
        not_zero = ==_of_ne (s.pid x) 0 chosen.not_idle

        s' : Procs
        s' = with_queues s s.next_ready queue'

        straight :
            Outcome s
              (record {
                runs = x;
                counter = update s.counter x time_slice;
                waiting = set_list l c xs;
              })
              (start (s.pid x) time_slice s')
        straight = Outcome-with s s.next_ready queue' _ _ (
            start-Outcome s' (set_list l c xs) x (s.pid x) time_slice
              (IsTable-with s s.next_ready queue' t) cut-IsOrdered chosen.below chosen.at chosen_ne
              (absent-rest s l c x xs h.ordered is))

        back :
            (s.state s.proc_current == running) ≡ true
            → (s.pid s.proc_current == 0) ≡ false
            → Outcome s
                (record {
                  runs = x;
                  counter = update s.counter x time_slice;
                  waiting =
                      turn (class_of (s.proc_type s.proc_current)) s.proc_current (set_list l c xs);
                })
                (start (s.pid x) time_slice (requeue (s.proc_type s.proc_current) s'))
        back runs other =
            let (d, class) =
              t.typed (s.pid s.proc_current) t.current_below (rw t.current_at t.current) in
            Outcome-with s s.next_ready queue' _ _ (
              turn-Outcome s' (set_list l c xs) x d (IsTable-with s s.next_ready queue' t)
                cut-IsOrdered
                (record {
                  at = t.current_at;
                  not_idle = λ z. ground arith;
                  below = t.current_below;
                  class = rw t.current_at at class;
                  runs = ==_true _ _ runs;
                })
                (λ e. not_true _ λ i.
                  false≢true
                    (sym (current_absent e) ∙ has-rest s l c x xs h.ordered is e s.proc_current i))
                chosen.below chosen.at chosen_ne (absent-rest s l c x xs h.ordered is)
                (h.not_current c x (rw is (ground arith))))

dispatch-Outcome :
    (s : Procs) (l : Ready) (flag : ℕ)
    → IsTable s
    → IsSound s l
    → Outcome s
        (plan_of s l (first_ready flag l))
        (let (next, s') = pick (choose flag s) s in dispatch (s.proc_type s.proc_current) next s')
dispatch-Outcome s l flag t h = go (pick-Picked flag s l h)
  where
    go :
        Picked flag s l
        → Outcome s (plan_of s l (first_ready flag l)) (
            let (next, s') = pick (choose flag s) s in
            dispatch (s.proc_type s.proc_current) next s')
    go (nobody e k) = rw (e, k) (nobody-Outcome s l t h (s.proc_type s.proc_current))
    go (head c x xs is e k) = rw (e, k) (head-Outcome s l t h c x xs is)

plan_of_with :
    (s : Procs) (next : Links) (queue : Class → Ends) (l : Ready)
    (o : Option (Class × Ptr × List Ptr))
    → plan_of (with_queues s next queue) l o ≡ plan_of s l o
unfolding plan_of
plan_of_with s next queue l none = refl
plan_of_with s next queue l (some x) = refl

-- `schedule` returns, with the table and the queues in order again, and it has done what the plan
-- says: the process that the plan names runs, with the counters and the waiting lists of the plan,
-- and nothing else of the table has changed.
pub schedule-Outcome :
    (s : Procs) (l : Ready)
    → IsTable s
    → IsSound s l
    → (after : Procs) × (schedule s ≡ some after) × Outcome s (plan s l) after
unfolding schedule plan
schedule-Outcome s l t h =
    let q = add_running_proc-Queued s l t h in
    let s' = with_queues s q.next q.queue in
    let l' = join_all 63 1 s l in
    let flag = if s.state s.proc_current == running then s.proc_type s.proc_current else 3 in
    let o = dispatch-Outcome s' l' flag (IsTable-with s q.next q.queue t) q.sound in
    (
      _,
      rw q.is,
      Outcome-with s q.next q.queue _ _
          (rw (plan_of_with s q.next q.queue l' (first_ready flag l')) at o),
    )
