-- ===== src/Proc/Dropped.antt =====
-- The head that `schedule` of kernel/proc.c drops as the running process goes back to its queue.
use mks.Base.{
  ◌≡◌, ◌≢◌, refl, ◌∙◌, false, some, List, [], ◌∷◌, ◌++◌, arith, ==_of_ne, has, has-append, Distinct,
}
use mks.Linked.{Ptr}
use mks.Messaging.Store.{running}
use mks.Proc.Table.{task, server, user, Procs, class_of}
use mks.Proc.Schedule.{schedule}
use mks.Proc.Sound.{Ready, set_list, IsTable, IsSound}
use mks.Proc.AddRunning.{join_all}
use mks.Proc.AddAll.{add_running_proc-Queued}
use mks.Proc.Plan.{plan, plan_of, first_ready, turn}
use mks.Proc.Refine.{schedule-Outcome}

-- The plan where user processes alone are ready and one of them runs.
plan-users :
    (s : Procs) (l : Ready) (b c : Ptr) (rest : List Ptr)
    → s.state s.proc_current ≡ running
    → s.pid s.proc_current ≢ 0
    → s.proc_type s.proc_current ≡ 3
    → join_all 63 1 s l task ≡ []
    → join_all 63 1 s l server ≡ []
    → join_all 63 1 s l user ≡ b ∷ c ∷ rest
    → ((plan s l).runs ≡ b) × ((plan s l).waiting user ≡ rest ++ s.proc_current ∷ [])
unfolding plan plan_of first_ready turn set_list class_of
plan-users s l b c rest runs busy type t v u =
    rw (t, v, u, runs, type, ==_of_ne (s.pid s.proc_current) 0 busy)
      (rw runs (rw type (refl, refl)))

absent_from_rest :
    (s : Procs) (l : Ready) (b c : Ptr) (rest : List Ptr)
    → IsSound s l
    → l user ≡ b ∷ c ∷ rest
    → has c (rest ++ s.proc_current ∷ []) ≡ false
absent_from_rest s l b c rest h e =
    let d : Distinct (b ∷ c ∷ rest) = rw e at ((h.rep.at user).distinct) in
    let other : c ≢ s.proc_current = h.not_current user c (rw e (ground arith)) in
    rw (has-append c rest (s.proc_current ∷ []), d.1.0, ==_of_ne c s.proc_current other) refl

-- Where the running process `a` and the ready ones are user processes, at least two of them waiting,
-- `b` and `c` first, `schedule` goes to `b` and leaves the user queue without `c`: it holds those
-- behind `c`, in order, and `a`. The process `c`, which was the next, has lost its place to `a`.
pub schedule-drops :
    (s : Procs) (l : Ready) (b c : Ptr) (rest : List Ptr)
    → IsTable s
    → IsSound s l
    → s.state s.proc_current ≡ running
    → s.pid s.proc_current ≢ 0
    → s.proc_type s.proc_current ≡ 3
    → join_all 63 1 s l task ≡ []
    → join_all 63 1 s l server ≡ []
    → join_all 63 1 s l user ≡ b ∷ c ∷ rest
    → (after : Procs) × (w : Ready) × (schedule s ≡ some after)
      × IsSound after w
      × (after.proc_current ≡ b)
      × (w user ≡ rest ++ s.proc_current ∷ [])
      × (has c (w user) ≡ false)
schedule-drops s l b c rest t h runs busy type et ev eu =
    let (after, e, o) = schedule-Outcome s l t h in
    let (r, w) = plan-users s l b c rest runs busy type et ev eu in
    let q = add_running_proc-Queued s l t h in
    (
      after,
      (plan s l).waiting,
      e,
      o.sound,
      o.runs ∙ r,
      w,
      rw w (absent_from_rest _ (join_all 63 1 s l) b c rest q.sound eu),
    )
