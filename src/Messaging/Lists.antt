-- ===== src/Messaging/Lists.antt =====
-- The calls of kernel/messaging.c over four plain lists of waiting structs, with no pointer between them and
-- no loop that could fail to end. The conditions and the writes are those of the code; Spec has its own.
use mks.Base.{
  ℕ, Bool, false, Option, none, some, List, [], ◌∷◌, ◌++◌, ◌&&◌, ◌||◌, ◌==◌, if◌then◌else◌, update,
  minus_one, ◌>>=◌,
}
use mks.Linked.{Ptr, null}
use mks.Messaging.Store.{
  Services, Store, msg_hardware, running, sleeping, is_bad_pid, is_bad_sender, is_bad_source,
  is_bad_big_source, write_long, resolve_any, fill, takes, offers,
}
use mks.Messaging.Queues.{
  Name, same, Scan, small_sends, small_receives, big_sends, big_receives, set_state,
}
use mks.Messaging.Small.{new_struct, send_clashes, receive_clashes}
use mks.Messaging.Big.{page_entry, big_send_clashes, big_receive_clashes}

-- Who waits in each queue, in order of arrival.
abbrev pub Waiting : Type 0
Waiting = Name → List Ptr

unfoldable pub set_list : Waiting → Name → List Ptr → Waiting
set_list l q xs r = if same r q then xs else l r

-- The first that passes the test, and the list without it.
unfoldable pub take_first : (Ptr → Bool) → List Ptr → Option (Ptr × List Ptr)
take_first test [] = none
take_first test (x ∷ xs) =
    let rest = take_first test xs >>= λ r. some (r.0, x ∷ r.1) in
    if test x then some (x, xs) else rest

unfoldable pub any : (Ptr → Bool) → List Ptr → Bool
any test [] = false
any test (x ∷ xs) = test x || any test xs

unfoldable pub any_clash : List Scan → Waiting → Bool
any_clash [] l = false
any_clash ((q, test) ∷ scans) l = any test (l q) || any_clash scans l

abbrev pub Answer : Type 0 → Type 0
Answer K = Option (ℕ × Store K × Waiting)

module _ {K : Type 0} where
  abbrev pub refuse : Store K → Waiting → Answer K
  refuse m l = some (minus_one, m, l)

  -- Serves the first that passes the test, or goes on as nobody does.
  abbrev pub serve : Option (Ptr × List Ptr) → Answer K → (Ptr → List Ptr → Answer K) → Answer K
  serve none otherwise served = otherwise
  serve (some (p, rest)) otherwise served = served p rest

module _ {K : Type 0} (os : Services K) where
  unfoldable pub yield_cpu : Store K → Waiting → Answer K
  yield_cpu m l = os.schedule m.kernel >>= λ k. some (1, record m { kernel = k }, l)

  -- The words that a hand-over writes.
  unfoldable pub delivered : ℕ → Ptr → Ptr → Store K → Store K
  delivered src msg p m =
      let m = write_long m (m.msg p) (m.long msg) in
      let m = resolve_any m (m.src p) src in set_state os (m.dest p) running m

  unfoldable pub collected : Ptr → Ptr → Ptr → Store K → Store K
  collected src msg p m =
      let m = write_long m msg (m.msg p) in
      let m = resolve_any m src (m.src p) in
      if m.src p == msg_hardware
      then record m { src = update m.src p 0 }
      else set_state os (m.src p) running m

  -- The calls where nobody waits for the message, or nobody has one.
  unfoldable pub small_send_idle : Ptr → ℕ → Ptr → Ptr → Store K → Waiting → Answer K
  small_send_idle new_msg src dest msg m l =
      let d = m.long dest in
      let p = new_struct src new_msg m in
      let m' = fill m p src d (m.long msg) in
      if any_clash (send_clashes src d m) l
      then refuse m l
      else if src == msg_hardware && p == null
      then refuse m l
      else yield_cpu (if src == msg_hardware then m' else set_state os src sleeping m')
          (set_list l small_sends (l small_sends ++ p ∷ []))

  unfoldable pub small_receive_idle : Ptr → Ptr → ℕ → Ptr → Store K → Waiting → Answer K
  small_receive_idle p src dest msg m l =
      if any_clash (receive_clashes (m.long src) dest m) l
      then refuse m l
      else yield_cpu (set_state os dest sleeping (fill m p src dest msg))
          (set_list l small_receives (l small_receives ++ p ∷ []))

  unfoldable pub big_send_idle : Ptr → ℕ → Ptr → Ptr → Store K → Waiting → Answer K
  big_send_idle p src dest msg m l =
      if any_clash (big_send_clashes src dest m) l
      then refuse m l
      else yield_cpu (set_state os src sleeping (fill m p src (m.long dest) (m.long msg)))
          (set_list l big_sends (l big_sends ++ p ∷ []))

  unfoldable pub big_receive_idle : Ptr → Ptr → ℕ → Ptr → Store K → Waiting → Answer K
  big_receive_idle p src dest msg m l =
      if any_clash (big_receive_clashes (m.long src) dest m) l
      then refuse m l
      else yield_cpu (set_state os dest sleeping (fill m p src dest (m.long msg)))
          (set_list l big_receives (l big_receives ++ p ∷ []))

  -- A page goes to the waiting receiver `p`, or comes from the waiting sender `p`.
  unfoldable pub big_delivered : ℕ → Ptr → Ptr → Store K → Waiting → Answer K
  big_delivered src msg p m l = os.share_page (m.long msg) (m.msg p) m.kernel >>= λ k.
      let m' = resolve_any (record m { kernel = k }) (m.src p) src in
      yield_cpu (set_state os (m'.dest p) running m') l

  unfoldable pub big_collected : Ptr → Ptr → Ptr → Store K → Waiting → Answer K
  big_collected src msg p m l = os.share_page (m.msg p) (m.long msg) m.kernel >>= λ k.
      let m' = resolve_any (record m { kernel = k }) src (m.src p) in
      yield_cpu (set_state os (m'.src p) running m') l

  unfoldable pub small_send : Ptr → ℕ → Ptr → Ptr → Store K → Waiting → Answer K
  small_send new_msg src dest msg m l =
      if is_bad_sender src
      then refuse m l
      else if is_bad_pid (m.long dest)
      then refuse m l
      else serve (take_first (takes m src (m.long dest)) (l small_receives))
          (small_send_idle new_msg src dest msg m l)
          (λ p rest. yield_cpu (delivered src msg p m) (set_list l small_receives rest))

  unfoldable pub small_receive : Ptr → Ptr → ℕ → Ptr → Store K → Waiting → Answer K
  small_receive new_msg src dest msg m l =
      if is_bad_source (m.long src)
      then refuse m l
      else if is_bad_pid dest
      then refuse m l
      else serve (take_first (offers m (m.long src) dest) (l small_sends))
          (small_receive_idle new_msg src dest msg m l)
          (λ p rest. yield_cpu (collected src msg p m) (set_list l small_sends rest))

  unfoldable pub big_send : Ptr → ℕ → Ptr → Ptr → Store K → Waiting → Answer K
  big_send new_msg src dest msg m l =
      if is_bad_pid src
      then refuse m l
      else if is_bad_pid (m.long dest)
      then refuse m l
      else serve (take_first (takes m src (m.long dest)) (l big_receives))
          (big_send_idle new_msg src dest msg m l)
          (λ p rest. big_delivered src msg p m (set_list l big_receives rest))

  unfoldable pub big_receive : Ptr → Ptr → ℕ → Ptr → Store K → Waiting → Answer K
  big_receive new_msg src dest msg m l =
      if is_bad_big_source (m.long src)
      then refuse m l
      else if is_bad_pid dest
      then refuse m l
      else serve (take_first (offers m (m.long src) dest) (l big_sends))
          (big_receive_idle new_msg src dest msg m l)
          (λ p rest. big_collected src msg p m (set_list l big_sends rest))

  -- A process does not call itself, and the number of the function names the call.
  unfoldable pub do_intr_msg : (new_msg entry : Ptr) → ℕ → Ptr → Ptr → Store K → Waiting → Answer K
  do_intr_msg new_msg entry function src_dest msg m l =
      let pid = os.current_pid m.kernel in
      let with_entry : Store K = write_long m entry (page_entry pid (m.long msg)) in
      if pid == m.long src_dest
      then refuse m l
      else if function == 1
      then small_send new_msg pid src_dest msg m l
      else if function == 2
      then small_receive new_msg src_dest pid msg m l
      else if function == 3
      then big_send new_msg pid src_dest entry with_entry l
      else if function == 4
      then big_receive new_msg src_dest pid entry with_entry l
      else refuse m l
