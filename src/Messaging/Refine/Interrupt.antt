-- ===== src/Messaging/Refine/Interrupt.antt =====
-- `do_intr_msg` of kernel/messaging.c, the system call for all messages.
use mks.Base.{ℕ, refl, sym, ◌==◌}
use mks.Linked.{Ptr}
use mks.Messaging.Store.{Services, write_long}
use mks.Messaging.Queues.{Ipc}
use mks.Messaging.Big.{do_intr_msg, page_entry}
use mks.Messaging.Lists
use mks.Messaging.Spec
use mks.Messaging.Spec.Agrees.{do_intr_msg-agrees}
use mks.Messaging.Lists.{Waiting}
use mks.Messaging.Rep.{IsRep}
use mks.Messaging.Refine.{Refines, IsFree, IsMarked, IsShort, if-Refines}
use mks.Messaging.Refine.SmallSend.{small_send_on_lists}
use mks.Messaging.Refine.SmallReceive.{small_receive_on_lists}
use mks.Messaging.Refine.Big.{big_send_on_lists, big_receive_on_lists}

module _ {K : Type 0} (os : Services K) (rounds : ℕ) where
  pub do_intr_msg_on_lists :
      (new_msg entry : Ptr) (function : ℕ) (src_dest msg : Ptr) (s : Ipc K) (l : Waiting)
      → IsRep s l
      → IsShort rounds l
      → IsMarked s.mem l
      → IsFree new_msg l
      → Refines
          (do_intr_msg os rounds new_msg entry function src_dest msg s)
          (Lists.do_intr_msg os new_msg entry function src_dest msg s.mem l)
  unfolding do_intr_msg Lists.do_intr_msg
  do_intr_msg_on_lists new_msg entry function src_dest msg s l rep short marked free =
      if-Refines (pid == s.mem.long src_dest) _ _ _ _ (refl, refl, rep)
        λ _.
          if-Refines (function == 1) _ _ _ _
            (small_send_on_lists os rounds new_msg pid src_dest msg s l rep short marked free)
            λ _.
              if-Refines (function == 2) _ _ _ _
                (small_receive_on_lists os rounds new_msg src_dest pid msg s l rep short free)
                λ _.
                  if-Refines (function == 3) _ _ _ _
                    (big_send_on_lists os rounds new_msg pid src_dest entry with_entry l rep short
                      free)
                    λ _.
                      if-Refines (function == 4) _ _ _ _
                        (big_receive_on_lists os rounds new_msg src_dest pid entry with_entry l rep
                          short free)
                        λ _. (refl, refl, rep)
    where
      pid : ℕ
      pid = os.current_pid s.mem.kernel

      with_entry : Ipc K
      with_entry = record s { mem = write_long s.mem entry (page_entry pid (s.mem.long msg)) }

  -- Where the pointers of the queues stand for the lists `l`, which are shorter than `rounds`, where
  -- the waiting hardware slots are marked and the local struct is in no list: for every number of a
  -- function, `do_intr_msg` returns what its specification over the lists returns, with the same
  -- memory, and its pointers stand for the lists of the specification.
  pub do_intr_msg-Refines :
      (new_msg entry : Ptr) (function : ℕ) (src_dest msg : Ptr) (s : Ipc K) (l : Waiting)
      → IsRep s l
      → IsShort rounds l
      → IsMarked s.mem l
      → IsFree new_msg l
      → Refines
          (do_intr_msg os rounds new_msg entry function src_dest msg s)
          (Spec.do_intr_msg os new_msg entry function src_dest msg s.mem l)
  do_intr_msg-Refines new_msg entry function src_dest msg s l rep short marked free =
      rw (sym (do_intr_msg-agrees os new_msg entry function src_dest msg s.mem l marked.ne_null))
        (do_intr_msg_on_lists new_msg entry function src_dest msg s l rep short marked free)
