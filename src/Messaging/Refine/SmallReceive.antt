-- ===== src/Messaging/Refine/SmallReceive.antt =====
-- `small_receive` of messaging.c.
use mks.Base.{ℕ, ◌≡◌, refl, sym, inl, inr, List, [], ◌∷◌, ◌++◌, ◌==◌, Bool-cases, update}
use mks.Linked.{Ptr, null}
use mks.Linked.Chain.{last_or}
use mks.Messaging.Store.{
  Services, Store, msg_hardware, is_bad_pid, is_bad_source, offers, fill, write_long, resolve_any,
  sleeping, running,
}
use mks.Messaging.Queues.{small_receives, small_sends, Ipc, reschedule, set_state, remove, enqueue}
use mks.Messaging.Small.{small_receive, receive_or_wait, take_over, wait_receive, receive_clashes}
use mks.Messaging.Lists
use mks.Messaging.Spec
use mks.Messaging.Spec.Agrees.{small_receive-agrees}
use mks.Messaging.Lists.{Waiting, any_clash, yield_cpu, collected, set_list}
use mks.Messaging.Rep.{IsRep, remove-Rep, enqueue-Rep}
use mks.Messaging.Refine.{
  Refines, IsFree, IsShort, if-Refines, serve-Refines, clash-any, reschedule-Refines,
}

module _ {K : Type 0} (os : Services K) where
  take_over-Refines :
      (src msg p : Ptr) (pre post : List Ptr) (s : Ipc K) (l : Waiting)
      → IsRep s l
      → l small_sends ≡ pre ++ p ∷ post
      → Refines
          (reschedule os (take_over os src msg (last_or null pre) p s))
          (yield_cpu os (collected os src msg p s.mem) (set_list l small_sends (pre ++ post)))
  unfolding take_over collected remove
  take_over-Refines src msg p pre post s l rep is =
      elim (Bool-cases (taken.src p == msg_hardware)) [
        | inl hw ↦ rw hw (
            reschedule-Refines os (record cut { mem = record taken { src = update taken.src p 0 } })
              _ left)
        | inr hw ↦ rw hw (
            reschedule-Refines os (record cut { mem = set_state os (taken.src p) running taken }) _
              left)
      ]
    where
      taken : Store K
      taken = resolve_any (write_long s.mem msg (s.mem.msg p)) src (s.mem.src p)

      cut : Ipc K
      cut = remove small_sends (last_or null pre) p (record s { mem = taken })

      left : IsRep cut (set_list l small_sends (pre ++ post))
      left = remove-Rep small_sends p pre post (record s { mem = taken }) l rep is

  wait_receive-Refines :
      (src : Ptr) (dest : ℕ) (msg p : Ptr) (s : Ipc K) (l : Waiting)
      → IsRep s l
      → IsFree p l
      → Refines (reschedule os (wait_receive os src dest msg p s)) (
          yield_cpu os
            (set_state os dest sleeping (fill s.mem p src dest msg))
            (set_list l small_receives (l small_receives ++ p ∷ [])))
  unfolding wait_receive enqueue
  wait_receive-Refines src dest msg p s l rep free =
      reschedule-Refines os (wait_receive os src dest msg p s) _ (
        enqueue-Rep small_receives p (record s { mem = fill s.mem p src dest msg }) l rep
          free.ne_null free.absent)

module _ {K : Type 0} (os : Services K) (rounds : ℕ) where
  receive_or_wait-Refines :
      (new_msg src : Ptr) (dest : ℕ) (msg : Ptr) (s : Ipc K) (l : Waiting)
      → IsRep s l
      → IsShort rounds l
      → IsFree new_msg l
      → Refines
          (receive_or_wait os rounds new_msg src dest msg s)
          (Lists.small_receive_idle os new_msg src dest msg s.mem l)
  unfolding receive_or_wait Lists.small_receive_idle
  receive_or_wait-Refines new_msg src dest msg s l rep short free =
      rw (clash-any rounds s l rep short (receive_clashes (s.mem.long src) dest s.mem)) (
        if-Refines (any_clash (receive_clashes (s.mem.long src) dest s.mem) l) _ _ _ _
          (refl, refl, rep) λ _. wait_receive-Refines os src dest msg new_msg s l rep free)

  pub small_receive_on_lists :
      (new_msg src : Ptr) (dest : ℕ) (msg : Ptr) (s : Ipc K) (l : Waiting)
      → IsRep s l
      → IsShort rounds l
      → IsFree new_msg l
      → Refines
          (small_receive os rounds new_msg src dest msg s)
          (Lists.small_receive os new_msg src dest msg s.mem l)
  unfolding small_receive Lists.small_receive
  small_receive_on_lists new_msg src dest msg s l rep short free =
      if-Refines (is_bad_source (s.mem.long src)) _ _ _ _ (refl, refl, rep)
        λ _.
          if-Refines (is_bad_pid dest) _ _ _ _ (refl, refl, rep)
            λ _.
              serve-Refines rounds s l rep short small_sends (offers s.mem (s.mem.long src) dest) _
                (λ r. reschedule os (take_over os src msg r.0 r.1 s)) _ _
                (receive_or_wait-Refines new_msg src dest msg s l rep short free)
                (λ p pre post is. take_over-Refines os src msg p pre post s l rep is)

  -- Where the pointers of the queues stand for the lists `l`, which are shorter than `rounds`, and the
  -- local struct is in no list: `small_receive` returns what its specification over the lists returns,
  -- with the same memory, and its pointers stand for the lists of the specification.
  pub small_receive-Refines :
      (new_msg src : Ptr) (dest : ℕ) (msg : Ptr) (s : Ipc K) (l : Waiting)
      → IsRep s l
      → IsShort rounds l
      → IsFree new_msg l
      → Refines
          (small_receive os rounds new_msg src dest msg s)
          (Spec.small_receive os new_msg src dest msg s.mem l)
  small_receive-Refines new_msg src dest msg s l rep short free =
      rw (sym (small_receive-agrees os new_msg src dest msg s.mem l))
        (small_receive_on_lists new_msg src dest msg s l rep short free)
