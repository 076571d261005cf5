-- ===== src/System/Runs.antt =====
-- Who runs after a call of `schedule` of kernel/proc.c: a process that is ready to run, or process 0.
use mks.Base.{
  ℕ, ◌≡◌, refl, ◌∙◌, ap, ◌⊎◌, inl, inr, Bool, Bool-cases, ◌==◌, ==_true, true, false, Option, none,
  some, List, [], ◌∷◌, arith, has, if◌then◌else◌, ltb,
}
use mks.Linked.{Ptr}
use mks.Messaging.Store.{running}
use mks.Proc.Table.{Class, task, server, user, Procs}
use mks.Proc.Schedule.{schedule}
use mks.Proc.Sound.{Ready, IsTable, IsSound}
use mks.Proc.AddRunning.{join_all}
use mks.Proc.AddAll.{add_running_proc-Queued}
use mks.Proc.Plan.{Head, head_of_list, or_else, first_ready, plan_of, plan}
use mks.Proc.Outcome.{with_turn}
use mks.Proc.Refine.{schedule-Outcome}

-- The process that runs is ready to, or it is process 0.
abbrev pub CurrentRuns : Procs → Type 0
CurrentRuns s = (s.state s.proc_current ≡ running) ⊎ (s.pid s.proc_current ≡ 0)

-- What is chosen stands in its queue.
Chosen : Ready → Head → Type 0
Chosen l none = Unit {0}
Chosen l (some (c, x, xs)) = has x (l c) ≡ true

module _ (l : Ready) where
  head_of_list-Chosen : (c : Class) (xs : List Ptr) → l c ≡ xs → Chosen l (head_of_list c xs)
  unfolding Chosen
  head_of_list-Chosen c [] e = tt
  head_of_list-Chosen c (x ∷ xs) e = rw e (ground arith)

  or_else-Chosen : (a b : Head) → Chosen l a → Chosen l b → Chosen l (or_else a b)
  or_else-Chosen none b h k = k
  or_else-Chosen (some x) b h k = h

  if-Chosen : (t : Bool) (a : Head) → Chosen l a → Chosen l (if t then a else none)
  unfolding Chosen
  if-Chosen true a h = h
  if-Chosen false a h = tt

  first_ready-Chosen : (flag : ℕ) → Chosen l (first_ready flag l)
  unfolding first_ready
  first_ready-Chosen flag = or_else-Chosen _ _ (head_of_list-Chosen task (l task) refl) (
      or_else-Chosen _ _ (if-Chosen (ltb 1 flag) _ (head_of_list-Chosen server (l server) refl))
        (if-Chosen (ltb 2 flag) _ (head_of_list-Chosen user (l user) refl)))

plan_of-runs :
    (s : Procs) (l : Ready) (h : Head)
    → IsTable s
    → ((c : Class) (a : Ptr) → has a (l c) ≡ true → s.state a ≡ running)
    → Chosen l h
    → (s.state (plan_of s l h).runs ≡ running) ⊎ ((plan_of s l h).runs ≡ s.proc 0)
unfolding plan_of Chosen
plan_of-runs s l none t ready k = elim (Bool-cases (s.state s.proc_current == running)) [
  | inl e ↦ rw e (inl (==_true _ _ e))
  | inr e ↦ rw e (inr refl)
]
plan_of-runs s l (some (c, x, xs)) t ready k = inl (ready c x k)

plan-runs :
    (s : Procs) (l : Ready)
    → IsTable s
    → IsSound s l
    → (s.state (plan s l).runs ≡ running) ⊎ ((plan s l).runs ≡ s.proc 0)
unfolding plan
plan-runs s l t h =
    let q = add_running_proc-Queued s l t h in
    plan_of-runs s (join_all 63 1 s l) _ t (λ c a i. (q.sound.waits c a i).runs)
      (first_ready-Chosen (join_all 63 1 s l) _)

-- A call of the scheduler.
pub record Scheduled (s : Procs) (r : Option Procs) : Type 0 where
  pub after : Procs
  pub waiting : Ready
  pub is : r ≡ some after
  pub table : IsTable after
  pub sound : IsSound after waiting
  pub runs : CurrentRuns after
  pub rest : after ≡ with_turn s after

pub schedule-Scheduled :
    (s : Procs) (l : Ready) → IsTable s → IsSound s l → Scheduled s (schedule s)
schedule-Scheduled s l t h =
    let (s', e, o) = schedule-Outcome s l t h in
    record {
      after = s';
      waiting = (plan s l).waiting;
      is = e;
      table = o.table;
      sound = o.sound;
      runs = elim (plan-runs s l t h) [
        | inl r ↦ inl (ap (λ s. s.state s'.proc_current) o.rest ∙ ap s.state o.runs ∙ r)
        | inr z ↦ inr (
            ap s'.pid (o.runs ∙ z)
            ∙ ap (λ a. a.pid (s.proc 0)) o.rest
            ∙ t.numbered 0 (omega arith) t.idle)
      ];
      rest = o.rest;
    }
