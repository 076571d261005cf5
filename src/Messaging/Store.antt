-- ===== src/Messaging/Store.antt =====
-- The data of kernel/messaging.c but for the queues' pointers: the fields of `struct msg_struct`,
-- the longs that the callers' pointers refer to, and what the code asks of the rest of the kernel.
use mks.Base.{
  ℕ, ◌+◌, ◌*◌, Bool, Option, not, ◌&&◌, ◌||◌, leb, ◌==◌, if◌then◌else◌, is_negative, minus_one,
  update,
}
use mks.Linked.{Ptr}

abbrev pub msg_any : ℕ
msg_any = minus_one

abbrev pub msg_hardware : ℕ
msg_hardware = 0xffff_fffe

abbrev pub nr_msg_hardware : ℕ
nr_msg_hardware = 1024

abbrev pub nr_procs : ℕ
nr_procs = 64

abbrev pub running : ℕ
running = 0

abbrev pub sleeping : ℕ
sleeping = 1

-- What messaging.c takes from proc.c and memory.c: `proc_current->pid`, the assignment
-- `proc[i]->state = v`, `schedule` and `share_page`. `none` is a call that does not return.
pub record Services (K : Type 0) : Type 0 where
  pub current_pid : K → ℕ
  pub set_state : ℕ → ℕ → K → K
  pub schedule : K → Option K
  pub share_page : ℕ → ℕ → K → Option K

-- `src`, `dest` and `msg` are the fields of the message structs by address; `long` is the memory
-- that a `long *` reads; `slots` is the address of the array `msg_hardware`.
pub record Store (K : Type 0) : Type 0 where
  pub long : Ptr → ℕ
  pub src : Ptr → ℕ
  pub dest : Ptr → ℕ
  pub msg : Ptr → ℕ
  pub slots : Ptr
  pub kernel : K

-- `&msg_hardware[i]`; a struct takes 16 bytes.
abbrev pub slot : Ptr → ℕ → Ptr
slot base i = base + 16 * i

-- `w >= n` for a signed `w` and a small constant `n`.
abbrev pub at_least : ℕ → ℕ → Bool
at_least w n = not (is_negative w) && leb n w

-- `w < 0 || w >= NR_PROCS`
unfoldable pub is_bad_pid : ℕ → Bool
is_bad_pid w = is_negative w || at_least w nr_procs

-- `(w < 0 && w != MSG_HARDWARE) || w >= NR_PROCS`
unfoldable pub is_bad_sender : ℕ → Bool
is_bad_sender w = (is_negative w && not (w == msg_hardware)) || at_least w nr_procs

-- `(w < 0 && w != MSG_ANY && w != MSG_HARDWARE) || w >= NR_PROCS`
unfoldable pub is_bad_source : ℕ → Bool
is_bad_source w =
    (is_negative w && not (w == msg_any) && not (w == msg_hardware)) || at_least w nr_procs

-- `(w < 0 && w != MSG_ANY) || w >= NR_PROCS`
unfoldable pub is_bad_big_source : ℕ → Bool
is_bad_big_source w = (is_negative w && not (w == msg_any)) || at_least w nr_procs

module _ {K : Type 0} where
  abbrev pub write_long : Store K → Ptr → ℕ → Store K
  write_long m p v = record m { long = update m.long p v }

  -- `if (*p == MSG_ANY) *p = v;`
  unfoldable pub resolve_any : Store K → Ptr → ℕ → Store K
  resolve_any m p v = if m.long p == msg_any then write_long m p v else m

  -- The three fields that both calls fill before they queue a struct.
  unfoldable pub fill : Store K → Ptr → ℕ → ℕ → ℕ → Store K
  fill m p s d v = record m {
    src = update m.src p s;
    dest = update m.dest p d;
    msg = update m.msg p v;
  }

  -- A waiting receiver `a` takes a message from `s` to `d`.
  unfoldable pub takes : Store K → ℕ → ℕ → Ptr → Bool
  takes m s d a = d == m.dest a && (s == m.long (m.src a) || m.long (m.src a) == msg_any)

  -- A waiting sender `a` has a message for the receiver `d` that asks for `s`.
  unfoldable pub offers : Store K → ℕ → ℕ → Ptr → Bool
  offers m s d a = d == m.dest a && (s == m.src a || s == msg_any)

  -- The loop conditions of the searches for a clash, over senders and over receivers.
  unfoldable pub sends_from_to : Store K → ℕ → ℕ → Ptr → Bool
  sends_from_to m s d a = s == m.src a && d == m.dest a

  unfoldable pub receives_from_at : Store K → ℕ → ℕ → Ptr → Bool
  receives_from_at m s d a = s == m.long (m.src a) && d == m.dest a
