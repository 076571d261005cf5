-- ===== src/Messaging/Failure.antt =====
-- The replies of kernel/messaging.c, and what a call that fails leaves behind.
use mks.Base.{
  ℕ, ◌≡◌, ◌≢◌, refl, Bool, true, false, Option, none, some, ◌==◌, if◌then◌else◌, minus_one,
  update_ne, ◌>>=◌,
}
use mks.Linked.{Ptr}
use mks.Messaging.Store.{Services, write_long}
use mks.Messaging.Queues.{Ipc, Reply, reschedule}
use mks.Messaging.Small.{small_send, small_receive, send_or_wait, receive_or_wait}
use mks.Messaging.Big.{
  big_send, big_receive, big_send_or_wait, big_receive_or_wait, do_intr_msg, page_entry,
}

-- A call that returns answers 1, or it answers -1 and the state is `s`.
pub data Replies {K : Type 0} (s : Ipc K) : Reply K → Type 0 where
  stops : Replies s none
  done : (s' : Ipc K) → Replies s (some (1, s'))
  refused : Replies s (some (minus_one, s))

module _ {K : Type 0} (s : Ipc K) where
  bind-Replies :
      {A : Type 0} (o : Option A) (f : A → Reply K)
      → ((a : A) → Replies s (f a))
      → Replies s (o >>= f)
  bind-Replies none f h = stops
  bind-Replies (some a) f h = h a

  if-Replies :
      (b : Bool) {x y : Reply K} → Replies s x → Replies s y → Replies s (if b then x else y)
  if-Replies true h k = h
  if-Replies false h k = k

module _ {K : Type 0} (os : Services K) where
  reschedule-Replies : (s s' : Ipc K) → Replies s (reschedule os s')
  unfolding reschedule
  reschedule-Replies s s' = bind-Replies s (os.schedule s'.mem.kernel) _ (λ k. done _)

ruleset reply_rules = (if-Replies, bind-Replies, reschedule-Replies, Replies.refused)

module _ {K : Type 0} (os : Services K) (rounds : ℕ) (new_msg : Ptr) where
  small_send-Replies :
      (src : ℕ) (dest msg : Ptr) (s : Ipc K)
      → Replies s (small_send os rounds new_msg src dest msg s)
  unfolding small_send send_or_wait
  small_send-Replies src dest msg s = search (reply_rules) depth 12

  small_receive-Replies :
      (src : Ptr) (dest : ℕ) (msg : Ptr) (s : Ipc K)
      → Replies s (small_receive os rounds new_msg src dest msg s)
  unfolding small_receive receive_or_wait
  small_receive-Replies src dest msg s = search (reply_rules) depth 12

  big_send-Replies :
      (src : ℕ) (dest msg : Ptr) (s : Ipc K) → Replies s (big_send os rounds new_msg src dest msg s)
  unfolding big_send big_send_or_wait
  big_send-Replies src dest msg s = search (reply_rules) depth 12

  big_receive-Replies :
      (src : Ptr) (dest : ℕ) (msg : Ptr) (s : Ipc K)
      → Replies s (big_receive os rounds new_msg src dest msg s)
  unfolding big_receive big_receive_or_wait
  big_receive-Replies src dest msg s = search (reply_rules) depth 12

-- All is as before but the word at `entry`.
pub record SameBut {K : Type 0} (entry : Ptr) (s s' : Ipc K) : Type 0 where
  pub next : s'.next ≡ s.next
  pub queue : s'.queue ≡ s.queue
  pub src : s'.mem.src ≡ s.mem.src
  pub dest : s'.mem.dest ≡ s.mem.dest
  pub msg : s'.mem.msg ≡ s.mem.msg
  pub kernel : s'.mem.kernel ≡ s.mem.kernel
  pub long : (a : Ptr) → a ≢ entry → s'.mem.long a ≡ s.mem.long a

-- What the interrupt answers: 1, or -1 with all as before but the word at `entry`.
pub data Answers {K : Type 0} (entry : Ptr) (s : Ipc K) : Reply K → Type 0 where
  stops : Answers entry s none
  done : (s' : Ipc K) → Answers entry s (some (1, s'))
  refused : (s' : Ipc K) → SameBut entry s s' → Answers entry s (some (minus_one, s'))

module _ {K : Type 0} (entry : Ptr) (s : Ipc K) where
  if-Answers :
      (b : Bool) {x y : Reply K}
      → Answers entry s x
      → Answers entry s y
      → Answers entry s (if b then x else y)
  if-Answers true h k = h
  if-Answers false h k = k

  unchanged : SameBut entry s s
  unchanged = record {
    next = refl;
    queue = refl;
    src = refl;
    dest = refl;
    msg = refl;
    kernel = refl;
    long = λ a ne. refl;
  }

  with_entry : (v : ℕ) → SameBut entry s (record s { mem = write_long s.mem entry v })
  with_entry v = record {
    next = refl;
    queue = refl;
    src = refl;
    dest = refl;
    msg = refl;
    kernel = refl;
    long = λ a ne. update_ne s.mem.long entry a v ne;
  }

  Replies-Answers :
      {s₁ : Ipc K} {r : Reply K} → SameBut entry s s₁ → Replies s₁ r → Answers entry s r
  Replies-Answers h Replies.stops = Answers.stops
  Replies-Answers h (Replies.done s') = Answers.done s'
  Replies-Answers h Replies.refused = Answers.refused _ h

  plain-Answers : {r : Reply K} → Replies s r → Answers entry s r
  plain-Answers h = Replies-Answers unchanged h

  entry-Answers :
      (v : ℕ) {r : Reply K}
      → Replies (record s { mem = write_long s.mem entry v }) r
      → Answers entry s r
  entry-Answers v h = Replies-Answers (with_entry v) h

module _ {K : Type 0} (os : Services K) (rounds : ℕ) where
  -- An interrupt for a message that returns answers 1 or -1. Where it answers -1, no message is
  -- queued or taken, no process changes its state, and no word is written but the local `entry`.
  pub do_intr_msg-Answers :
      (new_msg entry : Ptr) (function : ℕ) (src_dest msg : Ptr) (s : Ipc K)
      → Answers entry s (do_intr_msg os rounds new_msg entry function src_dest msg s)
  unfolding do_intr_msg
  do_intr_msg-Answers new_msg entry function src_dest msg s =
      let pid = os.current_pid s.mem.kernel in
      let v = page_entry pid (s.mem.long msg) in
      let refused = plain-Answers entry s Replies.refused in
      if-Answers entry s (pid == s.mem.long src_dest) refused (
        if-Answers entry s (function == 1)
          (plain-Answers entry s (small_send-Replies os rounds new_msg pid src_dest msg s))
          (if-Answers entry s (function == 2)
            (plain-Answers entry s (small_receive-Replies os rounds new_msg src_dest pid msg s))
            (if-Answers entry s (function == 3)
              (entry-Answers entry s v (big_send-Replies os rounds new_msg pid src_dest entry _))
              (if-Answers entry s (function == 4)
                (entry-Answers entry s v
                  (big_receive-Replies os rounds new_msg src_dest pid entry _))
                refused))))
