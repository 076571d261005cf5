-- ===== src/Proc/Table.antt =====
-- The process table and the three queues of processes that are ready to run.
use mks.Base.{
  ℕ, zero, suc, ◌+◌, Bool, true, false, Option, none, some, ◌||◌, not, ◌==◌, if◌then◌else◌, update,
  ◌>>=◌,
}
use mks.Linked.{Ptr, null, Links, Ends, walk, append}
use mks.Messaging.Store.{running}

-- `proc_type` 1, 2 and 3: each class of processes has its queue.
pub data Class : Type 0 where
  task server user : Class

abbrev pub same : Class → Class → Bool
same task task = true
same server server = true
same user user = true
same _ _ = false

-- The fields of `struct proc_struct` that the scheduler and the clock use, by the struct's address;
-- `proc` is the table, `queue c` the pair of the head and tail variables of a class.
pub record Procs : Type 0 where
  pub proc : ℕ → Ptr
  pub proc_type : Ptr → ℕ
  pub state : Ptr → ℕ
  pub counter : Ptr → ℕ
  pub pid : Ptr → ℕ
  pub utime : Ptr → ℕ
  pub stime : Ptr → ℕ
  pub next_ready : Links
  pub queue : Class → Ends
  pub proc_current : Ptr

unfoldable pub set_queue : (Class → Ends) → Class → Ends → Class → Ends
set_queue f c e d = if same d c then e else f d

-- The queue of a `proc_type`. With another type the code uses a pointer that is not initialised.
unfoldable pub class_of : ℕ → Option Class
class_of t =
    if t == 1 then some task else if t == 2 then some server else if t == 3 then some user else none

-- `if (proc[i] && proc[i]->state == RUNNING && proc[i] != proc_current)`
unfoldable pub is_ready : Procs → ℕ → Bool
is_ready s i =
    not (s.proc i == null || not (s.state (s.proc i) == running) || s.proc i == s.proc_current)

-- The process goes behind the tail of its queue, and its link is cleared.
unfoldable pub add_behind : Class → Ptr → Procs → Procs
add_behind c p s =
    let (next, e) = append s.next_ready (s.queue c) p in
    record s { next_ready = update next p null; queue = set_queue s.queue c e }

-- A queue holds fewer than 64 processes, so 65 rounds are enough for a walk along it.
abbrev pub rounds : ℕ
rounds = 65

-- One round of the loop of `add_running_proc`; the walk looks for the process with number `i`.
unfoldable pub add_proc : ℕ → Procs → Option Procs
add_proc i s =
    let p = s.proc i in
    if not (is_ready s i)
    then some s
    else (class_of (s.proc_type p) >>= λ c.
        if (s.queue c).head == null
        then some (add_behind c p s)
        else (walk rounds (λ a. s.pid a == i) s.next_ready null (s.queue c).head >>= λ r.
            if r.1 == null then some (add_behind c p s) else some s))

-- `for (i = 1; i < NR_PROCS; i++)`, with the rounds left.
unfoldable pub add_procs : ℕ → ℕ → Procs → Option Procs
add_procs zero i s = some s
add_procs (suc k) i s = add_proc i s >>= λ s'. add_procs k (i + 1) s'

unfoldable pub add_running_proc : Procs → Option Procs
unfolding add_procs
add_running_proc s = add_procs 63 1 s
