-- ===== src/Messaging/Big.antt =====
-- `big_send`, `big_receive` and `do_intr_msg` of kernel/messaging.c.
use mks.Base.{ℕ, ◌*◌, ◌%◌, List, [], ◌∷◌, ◌==◌, if◌then◌else◌, bit_and, add32, word_mod, ◌>>=◌}
use mks.Linked.{Ptr, null}
use mks.Messaging.Store.{
  Services, Store, running, sleeping, is_bad_pid, is_bad_big_source, write_long, resolve_any, fill,
  takes, offers, sends_from_to, receives_from_at,
}
use mks.Messaging.Queues.{
  Ipc, Reply, Scan, small_sends, small_receives, big_sends, big_receives, find, remove, enqueue,
  clash, fail, set_state, reschedule, share,
}
use mks.Messaging.Small.{small_send, small_receive}

module _ {K : Type 0} where
  -- The three loops of `big_send`. They compare with `dest`, the pointer, and not with `*dest`.
  unfoldable pub big_send_clashes : ℕ → Ptr → Store K → List Scan
  big_send_clashes src dest m =
      (small_sends, sends_from_to m dest src)
      ∷ (small_receives, receives_from_at m src dest)
      ∷ (big_sends, sends_from_to m dest src)
      ∷ []

  unfoldable pub big_receive_clashes : ℕ → ℕ → Store K → List Scan
  big_receive_clashes s dest m =
      (small_sends, sends_from_to m s dest)
      ∷ (small_receives, receives_from_at m dest s)
      ∷ (big_receives, receives_from_at m dest s)
      ∷ []

-- `(entry & 0xFFFFF000) + 0x1000 + cur_pid * 0x4000000`: the linear address of the whole page
-- inside the caller's message buffer.
unfoldable pub page_entry : ℕ → ℕ → ℕ
page_entry pid v = add32 (add32 (bit_and v 0xffff_f000) 0x1000) (pid * 0x400_0000 % word_mod)

module _ {K : Type 0} (os : Services K) where
  -- After the page is shared with the receiver `p`.
  unfoldable pub big_hand_over : ℕ → Ptr → Ptr → Ipc K → Ipc K
  big_hand_over src t p s =
      let s = remove big_receives t p (record s { mem = resolve_any s.mem (s.mem.src p) src }) in
      record s { mem = set_state os (s.mem.dest p) running s.mem }

  -- After the page is shared with the sender `p`.
  unfoldable pub big_take_over : Ptr → Ptr → Ptr → Ipc K → Ipc K
  big_take_over src t p s =
      let s = remove big_sends t p (record s { mem = resolve_any s.mem src (s.mem.src p) }) in
      record s { mem = set_state os (s.mem.src p) running s.mem }

  unfoldable pub big_wait_send : ℕ → ℕ → ℕ → Ptr → Ipc K → Ipc K
  big_wait_send src d v p s =
      let s = enqueue big_sends p (record s { mem = fill s.mem p src d v }) in
      record s { mem = set_state os src sleeping s.mem }

  unfoldable pub big_wait_receive : Ptr → ℕ → ℕ → Ptr → Ipc K → Ipc K
  big_wait_receive src dest v p s =
      let s = enqueue big_receives p (record s { mem = fill s.mem p src dest v }) in
      record s { mem = set_state os dest sleeping s.mem }

module _ {K : Type 0} (os : Services K) (rounds : ℕ) where
  unfoldable pub big_send_or_wait : Ptr → ℕ → Ptr → Ptr → Ipc K → Reply K
  big_send_or_wait new_msg src dest msg s =
      clash rounds (big_send_clashes src dest s.mem) s >>= λ clashes.
      if clashes
      then fail s
      else reschedule os (big_wait_send os src (s.mem.long dest) (s.mem.long msg) new_msg s)

  unfoldable pub big_send : Ptr → ℕ → Ptr → Ptr → Ipc K → Reply K
  big_send new_msg src dest msg s =
      if is_bad_pid src
      then fail s
      else if is_bad_pid (s.mem.long dest)
      then fail s
      else find rounds big_receives (takes s.mem src (s.mem.long dest)) s >>= λ r.
          if r.1 == null
          then big_send_or_wait new_msg src dest msg s
          else share os (s.mem.long msg) (s.mem.msg r.1) s >>= λ s'.
              reschedule os (big_hand_over os src r.0 r.1 s')

  unfoldable pub big_receive_or_wait : Ptr → Ptr → ℕ → Ptr → Ipc K → Reply K
  big_receive_or_wait new_msg src dest msg s =
      clash rounds (big_receive_clashes (s.mem.long src) dest s.mem) s >>= λ clashes.
      if clashes
      then fail s
      else reschedule os (big_wait_receive os src dest (s.mem.long msg) new_msg s)

  unfoldable pub big_receive : Ptr → Ptr → ℕ → Ptr → Ipc K → Reply K
  big_receive new_msg src dest msg s =
      if is_bad_big_source (s.mem.long src)
      then fail s
      else if is_bad_pid dest
      then fail s
      else find rounds big_sends (offers s.mem (s.mem.long src) dest) s >>= λ r.
          if r.1 == null
          then big_receive_or_wait new_msg src dest msg s
          else share os (s.mem.msg r.1) (s.mem.long msg) s >>= λ s'.
              reschedule os (big_take_over os src r.0 r.1 s')

  -- `new_msg` and `entry` are the addresses of the locals of the functions called and of this one.
  unfoldable pub do_intr_msg : (new_msg entry : Ptr) → ℕ → Ptr → Ptr → Ipc K → Reply K
  do_intr_msg new_msg entry function src_dest msg s =
      let pid = os.current_pid s.mem.kernel in
      let with_entry : Ipc K = record s {
        mem = write_long s.mem entry (page_entry pid (s.mem.long msg));
      } in
      if pid == s.mem.long src_dest
      then fail s
      else if function == 1
      then small_send os rounds new_msg pid src_dest msg s
      else if function == 2
      then small_receive os rounds new_msg src_dest pid msg s
      else if function == 3
      then big_send new_msg pid src_dest entry with_entry
      else if function == 4
      then big_receive new_msg src_dest pid entry with_entry
      else fail s
