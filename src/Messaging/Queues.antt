-- ===== src/Messaging/Queues.antt =====
-- The four queues of kernel/messaging.c, with their eight global pointers.
use mks.Base.{
  ℕ, zero, suc, ◌+◌, Bool, true, false, Option, some, List, [], ◌∷◌, ◌==◌, if◌then◌else◌, minus_one,
  update, ◌>>=◌,
}
use mks.Linked.{Ptr, null, Links, Ends, no_ends, walk, unlink, append}
use mks.Messaging.Store.{Services, Store, slot, nr_msg_hardware, msg_hardware}

pub data Name : Type 0 where
  small_sends small_receives big_sends big_receives : Name

abbrev pub same : Name → Name → Bool
same small_sends small_sends = true
same small_receives small_receives = true
same big_sends big_sends = true
same big_receives big_receives = true
same _ _ = false

-- The whole state of messaging.c: `queue q` is the pair of the head and tail variables of `q`.
pub record Ipc (K : Type 0) : Type 0 where
  pub mem : Store K
  pub next : Links
  pub queue : Name → Ends

abbrev pub Reply : Type 0 → Type 0
Reply K = Option (ℕ × Ipc K)

-- A loop along the queue `q`, which stops at the first struct that passes `test`.
abbrev pub Scan : Type 0
Scan = Name × (Ptr → Bool)

unfoldable pub set_queue : (Name → Ends) → Name → Ends → Name → Ends
set_queue f q e r = if same r q then e else f r

module _ {K : Type 0} where
  unfoldable pub find : ℕ → Name → (Ptr → Bool) → Ipc K → Option (Ptr × Ptr)
  find rounds q test s = walk rounds test s.next null (s.queue q).head

  unfoldable pub remove : Name → Ptr → Ptr → Ipc K → Ipc K
  remove q t p s =
      let (next', e) = unlink s.next (s.queue q) t p in
      record s { next = next'; queue = set_queue s.queue q e }

  -- `p->next = NULL`, then `p` goes behind the tail.
  unfoldable pub enqueue : Name → Ptr → Ipc K → Ipc K
  enqueue q p s =
      let (next', e) = append (update s.next p null) (s.queue q) p in
      record s { next = next'; queue = set_queue s.queue q e }

  -- The searches for a clash, in order, up to the first that finds one.
  unfoldable pub clash : ℕ → List Scan → Ipc K → Option Bool
  clash rounds [] s = some false
  clash rounds ((q, test) ∷ scans) s =
      let rest = clash rounds scans s in
      find rounds q test s >>= λ r. if r.1 == null then rest else some true

  -- The code's -1, with nothing changed.
  abbrev pub fail : Ipc K → Reply K
  fail s = some (minus_one, s)

  -- `for (i = 0; i < NR_MSG_HARDWARE; i++) if (msg_hardware[i].src != MSG_HARDWARE) …`, with the
  -- rounds left: the first slot that holds no hardware message, or `NULL`.
  unfoldable pub free_slot : ℕ → ℕ → Store K → Ptr
  free_slot zero i m = null
  free_slot (suc k) i m =
      let rest = free_slot k (i + 1) m in
      if m.src (slot m.slots i) == msg_hardware then rest else slot m.slots i

module _ {K : Type 0} (os : Services K) where
  unfoldable pub set_state : ℕ → ℕ → Store K → Store K
  set_state pid v m = record m { kernel = os.set_state pid v m.kernel }

  -- `schedule(); return 1;`. The caller has its 1 when it is next switched to.
  unfoldable pub reschedule : Ipc K → Reply K
  reschedule s =
      os.schedule s.mem.kernel >>= λ k. some (1, record s { mem = record s.mem { kernel = k } })

  unfoldable pub share : ℕ → ℕ → Ipc K → Option (Ipc K)
  share from to s = os.share_page from to s.mem.kernel >>= λ k.
      some (record s { mem = record s.mem { kernel = k } })

-- `msg_init`
module _ {K : Type 0} where
  unfoldable pub clear_slots : ℕ → ℕ → Ipc K → Ipc K
  clear_slots zero i s = s
  clear_slots (suc k) i s =
      let p = slot s.mem.slots i in
      let m = record s.mem {
        src = update s.mem.src p 0;
        dest = update s.mem.dest p 0;
        msg = update s.mem.msg p 0;
      } in
      clear_slots k (i + 1) (record s { mem = m; next = update s.next p null })

  unfoldable pub msg_init : Ipc K → Ipc K
  msg_init s = clear_slots nr_msg_hardware 0 (record s { queue = λ q. no_ends })
