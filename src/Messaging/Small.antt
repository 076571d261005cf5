-- ===== src/Messaging/Small.antt =====
-- `small_send` and `small_receive` of kernel/messaging.c.
use mks.Base.{ℕ, List, [], ◌∷◌, ◌&&◌, ◌==◌, if◌then◌else◌, update, ◌>>=◌}
use mks.Linked.{Ptr, null}
use mks.Messaging.Store.{
  Services, Store, msg_hardware, nr_msg_hardware, running, sleeping, is_bad_pid, is_bad_sender,
  is_bad_source, write_long, resolve_any, fill, takes, offers, sends_from_to, receives_from_at,
}
use mks.Messaging.Queues.{
  Ipc, Reply, Scan, small_sends, small_receives, big_sends, big_receives, find, remove, enqueue,
  clash, fail, free_slot, set_state, reschedule,
}

module _ {K : Type 0} where
  -- The three loops of `small_send` that look for a process that waits for the sender.
  unfoldable pub send_clashes : ℕ → ℕ → Store K → List Scan
  send_clashes src d m =
      (small_sends, sends_from_to m d src)
      ∷ (big_sends, sends_from_to m d src)
      ∷ (big_receives, receives_from_at m src d)
      ∷ []

  -- Those of `small_receive`.
  unfoldable pub receive_clashes : ℕ → ℕ → Store K → List Scan
  receive_clashes s dest m =
      (small_receives, receives_from_at m dest s)
      ∷ (big_sends, sends_from_to m s dest)
      ∷ (big_receives, receives_from_at m dest s)
      ∷ []

  -- The struct for a message that has to wait: a hardware slot, or the local `new_msg`.
  unfoldable pub new_struct : ℕ → Ptr → Store K → Ptr
  new_struct src new_msg m = if src == msg_hardware then free_slot nr_msg_hardware 0 m else new_msg

module _ {K : Type 0} (os : Services K) where
  -- The receiver `p` waits, with `t` before it: it gets the word and runs again.
  unfoldable pub hand_over : ℕ → Ptr → Ptr → Ptr → Ipc K → Ipc K
  hand_over src msg t p s =
      let m = write_long s.mem (s.mem.msg p) (s.mem.long msg) in
      let m = resolve_any m (m.src p) src in
      let s = remove small_receives t p (record s { mem = m }) in
      record s { mem = set_state os (s.mem.dest p) running s.mem }

  unfoldable pub wait_send : ℕ → ℕ → ℕ → Ptr → Ipc K → Ipc K
  wait_send src d v p s =
      let s = enqueue small_sends p (record s { mem = fill s.mem p src d v }) in
      if src == msg_hardware then s else record s { mem = set_state os src sleeping s.mem }

  -- The sender `p` waits, with `t` before it: its word is taken, and it runs again or its slot is
  -- free again.
  unfoldable pub take_over : Ptr → Ptr → Ptr → Ptr → Ipc K → Ipc K
  take_over src msg t p s =
      let m = write_long s.mem msg (s.mem.msg p) in
      let m = resolve_any m src (m.src p) in
      let s = remove small_sends t p (record s { mem = m }) in
      if s.mem.src p == msg_hardware
      then record s { mem = record s.mem { src = update s.mem.src p 0 } }
      else record s { mem = set_state os (s.mem.src p) running s.mem }

  unfoldable pub wait_receive : Ptr → ℕ → Ptr → Ptr → Ipc K → Ipc K
  wait_receive src dest msg p s =
      let s = enqueue small_receives p (record s { mem = fill s.mem p src dest msg }) in
      record s { mem = set_state os dest sleeping s.mem }

module _ {K : Type 0} (os : Services K) (rounds : ℕ) where
  -- What follows where no receiver waits for the message.
  unfoldable pub send_or_wait : Ptr → ℕ → Ptr → Ptr → Ipc K → Reply K
  send_or_wait new_msg src dest msg s =
      clash rounds (send_clashes src (s.mem.long dest) s.mem) s >>= λ clashes.
      if clashes
      then fail s
      else let p = new_struct src new_msg s.mem in
        if src == msg_hardware && p == null
        then fail s
        else reschedule os (wait_send os src (s.mem.long dest) (s.mem.long msg) p s)

  -- `new_msg` is the address of the local struct, `dest` and `msg` are the caller's pointers.
  unfoldable pub small_send : Ptr → ℕ → Ptr → Ptr → Ipc K → Reply K
  small_send new_msg src dest msg s =
      if is_bad_sender src
      then fail s
      else if is_bad_pid (s.mem.long dest)
      then fail s
      else find rounds small_receives (takes s.mem src (s.mem.long dest)) s >>= λ r.
          if r.1 == null
          then send_or_wait new_msg src dest msg s
          else reschedule os (hand_over os src msg r.0 r.1 s)

  unfoldable pub receive_or_wait : Ptr → Ptr → ℕ → Ptr → Ipc K → Reply K
  receive_or_wait new_msg src dest msg s =
      clash rounds (receive_clashes (s.mem.long src) dest s.mem) s >>= λ clashes.
      if clashes then fail s else reschedule os (wait_receive os src dest msg new_msg s)

  unfoldable pub small_receive : Ptr → Ptr → ℕ → Ptr → Ipc K → Reply K
  small_receive new_msg src dest msg s =
      if is_bad_source (s.mem.long src)
      then fail s
      else if is_bad_pid dest
      then fail s
      else find rounds small_sends (offers s.mem (s.mem.long src) dest) s >>= λ r.
          if r.1 == null
          then receive_or_wait new_msg src dest msg s
          else reschedule os (take_over os src msg r.0 r.1 s)
