-- ===== src/Proc/Schedule.antt =====
-- `schedule` of kernel/proc.c.
use mks.Base.{ℕ, Bool, Option, none, some, ◌&&◌, not, ltb, ◌==◌, if◌then◌else◌, update, ◌>>=◌}
use mks.Linked.{null, ends}
use mks.Messaging.Store.{running}
use mks.Proc.Table.{Procs, Class, task, server, user, set_queue, class_of, add_running_proc}

-- `COUNTER`, the length of a time slice in ticks.
abbrev pub time_slice : ℕ
time_slice = 10

-- `head = head->next_ready; if (!head) tail = NULL;`
unfoldable pub drop_head : Class → Procs → Procs
drop_head c s =
    let e = s.queue c in
    let h = s.next_ready e.head in
    record s { queue = set_queue s.queue c (ends h (if h == null then null else e.tail)) }

unfoldable pub has_ready : Class → Procs → Bool
has_ready c s = not ((s.queue c).head == null)

-- Which queue the next process is taken from; `flag` is the lowest class that may be chosen.
unfoldable pub choose : ℕ → Procs → Option Class
choose flag s =
    if has_ready task s
    then some task
    else if has_ready server s && ltb 1 flag
    then some server
    else if has_ready user s && ltb 2 flag
    then some user
    else none

-- The number of the next process, 0 if there is none, and the queues without it.
unfoldable pub pick : Option Class → Procs → ℕ × Procs
pick none s = (0, s)
pick (some c) s = (s.pid (s.queue c).head, drop_head c s)

-- The running process goes behind its queue, and the head of that queue is dropped if there is one.
unfoldable pub requeue_in : Class → Procs → Procs
requeue_in c s =
    let p = s.proc_current in
    let e = s.queue c in
    let next = update s.next_ready e.tail p in
    if e.head == null
    then record s { queue = set_queue s.queue c (ends p p) }
    else record s { next_ready = next; queue = set_queue s.queue c (ends (next e.head) p) }

unfoldable pub requeue : ℕ → Procs → Procs
requeue t s =
    let s' : Procs = elim (class_of t) [ none ↦ s | some c ↦ requeue_in c s ] in
    record s' { next_ready = update s'.next_ready s'.proc_current null }

-- `switch_to(n)`: nothing happens if the process is the current one.
unfoldable pub switch_to : ℕ → Procs → Procs
switch_to n s = record s { proc_current = s.proc n }

unfoldable pub start : ℕ → ℕ → Procs → Procs
start next counter s =
    let p = s.proc next in
    switch_to next
      (record s { counter = update s.counter p counter; next_ready = update s.next_ready p null })

-- What follows the choice of the next process.
unfoldable pub dispatch : ℕ → ℕ → Procs → Procs
dispatch current_type next s =
    let p = s.proc_current in
    let runs = s.state p == running in
    if next == 0 && runs
    then (if s.pid p == 0 then s else record s { counter = update s.counter p time_slice })
    else if next == 0 && not runs
    then start next 0 s
    else if not (next == 0) && runs && not (s.pid p == 0)
    then start next time_slice (requeue current_type s)
    else start next time_slice s

unfoldable pub schedule : Procs → Option Procs
schedule s =
    let current_type = s.proc_type s.proc_current in
    add_running_proc s >>= λ s'.
    let flag = if s'.state s'.proc_current == running then current_type else 3 in
    let (next, s'') = pick (choose flag s') s' in some (dispatch current_type next s'')
