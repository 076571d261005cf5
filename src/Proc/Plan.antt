-- ===== src/Proc/Plan.antt =====
-- What `schedule` of kernel/proc.c promises, over lists in place of the queues' pointers.
use mks.Base.{
  ℕ, Option, none, some, List, [], ◌∷◌, ◌++◌, ◌&&◌, not, ltb, ◌==◌, if◌then◌else◌, update,
}
use mks.Linked.{Ptr}
use mks.Messaging.Store.{running}
use mks.Proc.Table.{Class, task, server, user, Procs, class_of}
use mks.Proc.Schedule.{time_slice}
use mks.Proc.Sound.{Ready, set_list}
use mks.Proc.AddRunning.{join_all}

-- The class, the first process and the others of a queue that is not empty.
abbrev pub Head : Type 0
Head = Option (Class × Ptr × List Ptr)

abbrev pub head_of_list : Class → List Ptr → Head
head_of_list c [] = none
head_of_list c (x ∷ xs) = some (c, x, xs)

abbrev pub or_else : Head → Head → Head
or_else none h = h
or_else (some x) h = some x

-- A task goes first, then a server if the flag is above 1, then a user process if it is above 2.
unfoldable pub first_ready : ℕ → Ready → Head
first_ready flag l = or_else (head_of_list task (l task)) (
    or_else (if ltb 1 flag then head_of_list server (l server) else none)
      (if ltb 2 flag then head_of_list user (l user) else none))

abbrev pub tail : List Ptr → List Ptr
tail [] = []
tail (x ∷ xs) = xs

-- The queue of the process that gives up the processor: it joins, and the first one is lost.
unfoldable pub turn : Option Class → Ptr → Ready → Ready
turn none p l = l
turn (some c) p l = set_list l c (tail (l c) ++ p ∷ [])

-- Who runs next, the counters, and who waits.
pub record Plan : Type 0 where
  pub runs : Ptr
  pub counter : Ptr → ℕ
  pub waiting : Ready

unfoldable pub plan_of : Procs → Ready → Head → Plan
plan_of s l none =
    let p = s.proc_current in
    if s.state p == running
    then record {
      runs = p;
      counter = if s.pid p == 0 then s.counter else update s.counter p time_slice;
      waiting = l;
    }
    else record { runs = s.proc 0; counter = update s.counter (s.proc 0) 0; waiting = l }
plan_of s l (some (c, x, xs)) =
    let p = s.proc_current in
    let l' = set_list l c xs in
    record {
      runs = x;
      counter = update s.counter x time_slice;
      waiting =
          if s.state p == running && not (s.pid p == 0)
          then turn (class_of (s.proc_type p)) p l'
          else l';
    }

-- A sleeping process lets every class go first, a running one only the classes up to its own.
unfoldable pub plan : Procs → Ready → Plan
plan s l =
    let p = s.proc_current in
    let l' = join_all 63 1 s l in
    plan_of s l' (first_ready (if s.state p == running then s.proc_type p else 3) l')
