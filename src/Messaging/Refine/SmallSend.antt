-- ===== src/Messaging/Refine/SmallSend.antt =====
-- `small_send` of messaging.c.
use mathlib.Core.Bool.{false≢true}
use mks.Base.{
  ℕ, zero, suc, ◌+◌, ◌<◌, ◌≡◌, refl, sym, ◌∙◌, inl, inr, false, List, [], ◌∷◌, ◌++◌, ◌&&◌, arith,
  ◌==◌, if◌then◌else◌, Bool-cases, has,
}
use mks.Linked.{Ptr, null}
use mks.Linked.Chain.{last_or}
use mks.Messaging.Store.{
  Services, Store, slot, msg_hardware, nr_msg_hardware, is_bad_pid, is_bad_sender, takes, fill,
  write_long, resolve_any, sleeping,
}
use mks.Messaging.Queues.{
  small_receives, small_sends, Ipc, reschedule, free_slot, set_state, remove, enqueue,
}
use mks.Messaging.Small.{small_send, send_or_wait, hand_over, wait_send, new_struct, send_clashes}
use mks.Messaging.Lists
use mks.Messaging.Spec
use mks.Messaging.Spec.Agrees.{small_send-agrees}
use mks.Messaging.Lists.{
  Waiting, Answer, take_first, any, any_clash, serve, yield_cpu, refuse, delivered, set_list,
}
use mks.Messaging.Rep.{IsRep, remove-Rep, enqueue-Rep}
use mks.Messaging.Refine.{
  Refines, IsFree, IsMarked, IsShort, if-Refines, serve-Refines, clash-any, reschedule-Refines,
}

module _ {K : Type 0} (m : Store K) (l : Waiting) (h : IsMarked m l) where
  unmarked-absent :
      (i : ℕ)
      → i < nr_msg_hardware
      → (m.src (slot m.slots i) == msg_hardware) ≡ false
      → IsFree (slot m.slots i) l
  unmarked-absent i lt unused = record {
    ne_null = λ z. h.ne_null (omega arith);
    absent = λ q. elim (Bool-cases (has (slot m.slots i) (l q))) [
      | inl waits ↦ absurd (false≢true (sym unused ∙ rw (h.marked q i lt waits)))
      | inr absent ↦ absent
    ];
  }

  -- The slot that the search ends at is free.
  free_slot-IsFree :
      (k i : ℕ)
      → k + i ≡ nr_msg_hardware
      → (free_slot k i m == null) ≡ false
      → IsFree (free_slot k i m) l
  unfolding free_slot
  free_slot-IsFree zero i e ne = absurd (false≢true (sym ne))
  free_slot-IsFree (suc k) i e ne = elim (Bool-cases (m.src (slot m.slots i) == msg_hardware)) [
    | inl used ↦ rw used (free_slot-IsFree k (i + 1) (omega arith) (rw used at ne))
    | inr unused ↦ rw unused (unmarked-absent i (omega arith) unused)
  ]

  pub new_struct-IsFree :
      (src : ℕ) (new_msg : Ptr)
      → IsFree new_msg l
      → (src == msg_hardware && new_struct src new_msg m == null) ≡ false
      → IsFree (new_struct src new_msg m) l
  unfolding new_struct
  new_struct-IsFree src new_msg free e = elim (Bool-cases (src == msg_hardware)) [
    | inl hw ↦ rw hw (free_slot-IsFree nr_msg_hardware 0 (omega arith) (rw hw at e))
    | inr hw ↦ rw hw free
  ]

module _ {K : Type 0} (os : Services K) where
  hand_over-Refines :
      (src : ℕ) (msg p : Ptr) (pre post : List Ptr) (s : Ipc K) (l : Waiting)
      → IsRep s l
      → l small_receives ≡ pre ++ p ∷ post
      → Refines
          (reschedule os (hand_over os src msg (last_or null pre) p s))
          (yield_cpu os (delivered os src msg p s.mem) (set_list l small_receives (pre ++ post)))
  unfolding hand_over delivered remove
  hand_over-Refines src msg p pre post s l rep is =
      reschedule-Refines os (hand_over os src msg (last_or null pre) p s) _
        (remove-Rep small_receives p pre post (record s { mem = handed }) l rep is)
    where
      handed : Store K
      handed =
          let m = write_long s.mem (s.mem.msg p) (s.mem.long msg) in resolve_any m (m.src p) src

  wait_send-Refines :
      (src d v : ℕ) (p : Ptr) (s : Ipc K) (l : Waiting)
      → IsRep s l
      → IsFree p l
      → Refines (reschedule os (wait_send os src d v p s)) (
          yield_cpu os
            (if src == msg_hardware
              then fill s.mem p src d v
              else set_state os src sleeping (fill s.mem p src d v))
            (set_list l small_sends (l small_sends ++ p ∷ [])))
  unfolding wait_send enqueue
  wait_send-Refines src d v p s l rep free = elim (Bool-cases (src == msg_hardware)) [
    | inl hw ↦ rw hw (reschedule-Refines os (enqueue small_sends p filled) _ queued)
    | inr hw ↦ rw hw (
        reschedule-Refines os
          (record (enqueue small_sends p filled) { mem = set_state os src sleeping filled.mem }) _
          queued)
  ]
    where
      filled : Ipc K
      filled = record s { mem = fill s.mem p src d v }

      queued :
          IsRep (enqueue small_sends p filled) (set_list l small_sends (l small_sends ++ p ∷ []))
      queued = enqueue-Rep small_sends p filled l rep free.ne_null free.absent

module _ {K : Type 0} (os : Services K) (rounds : ℕ) where
  send_or_wait-Refines :
      (new_msg : Ptr) (src : ℕ) (dest msg : Ptr) (s : Ipc K) (l : Waiting)
      → IsRep s l
      → IsShort rounds l
      → IsMarked s.mem l
      → IsFree new_msg l
      → Refines
          (send_or_wait os rounds new_msg src dest msg s)
          (Lists.small_send_idle os new_msg src dest msg s.mem l)
  unfolding send_or_wait Lists.small_send_idle
  send_or_wait-Refines new_msg src dest msg s l rep short marked free =
      rw (clash-any rounds s l rep short (send_clashes src (s.mem.long dest) s.mem)) (
        if-Refines (any_clash (send_clashes src (s.mem.long dest) s.mem) l) _ _ _ _
          (refl, refl, rep)
          λ _.
            if-Refines (src == msg_hardware && new_struct src new_msg s.mem == null) _ _ _ _
              (refl, refl, rep)
              λ some_slot.
                wait_send-Refines os src (s.mem.long dest) (s.mem.long msg) _ s l rep
                  (new_struct-IsFree s.mem l marked src new_msg free some_slot))

  pub small_send_on_lists :
      (new_msg : Ptr) (src : ℕ) (dest msg : Ptr) (s : Ipc K) (l : Waiting)
      → IsRep s l
      → IsShort rounds l
      → IsMarked s.mem l
      → IsFree new_msg l
      → Refines
          (small_send os rounds new_msg src dest msg s)
          (Lists.small_send os new_msg src dest msg s.mem l)
  unfolding small_send Lists.small_send
  small_send_on_lists new_msg src dest msg s l rep short marked free =
      if-Refines (is_bad_sender src) _ _ _ _ (refl, refl, rep)
        λ _.
          if-Refines (is_bad_pid (s.mem.long dest)) _ _ _ _ (refl, refl, rep)
            λ _.
              serve-Refines rounds s l rep short small_receives (takes s.mem src (s.mem.long dest))
                _ (λ r. reschedule os (hand_over os src msg r.0 r.1 s)) _ _
                (send_or_wait-Refines new_msg src dest msg s l rep short marked free)
                (λ p pre post is. hand_over-Refines os src msg p pre post s l rep is)

  -- Where the pointers of the queues stand for the lists `l`, which are shorter than `rounds`, where
  -- the waiting hardware slots are marked and the local struct is in no list: `small_send` returns
  -- what its specification over the lists returns, with the same memory, and its pointers stand for the
  -- lists of the specification. It returns nothing only if the specification does, when `schedule` does.
  pub small_send-Refines :
      (new_msg : Ptr) (src : ℕ) (dest msg : Ptr) (s : Ipc K) (l : Waiting)
      → IsRep s l
      → IsShort rounds l
      → IsMarked s.mem l
      → IsFree new_msg l
      → Refines
          (small_send os rounds new_msg src dest msg s)
          (Spec.small_send os new_msg src dest msg s.mem l)
  small_send-Refines new_msg src dest msg s l rep short marked free =
      rw (sym (small_send-agrees os new_msg src dest msg s.mem l marked.ne_null))
        (small_send_on_lists new_msg src dest msg s l rep short marked free)
