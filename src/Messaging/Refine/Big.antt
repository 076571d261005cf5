-- ===== src/Messaging/Refine/Big.antt =====
-- `big_send` and `big_receive` of messaging.c.
use mks.Base.{ℕ, ◌≡◌, refl, sym, none, some, List, ◌∷◌, ◌++◌, ◌>>=◌}
use mks.Linked.{Ptr, null}
use mks.Linked.Chain.{last_or}
use mks.Messaging.Store.{
  Services, is_bad_pid, is_bad_big_source, takes, offers, fill, resolve_any, running,
}
use mks.Messaging.Queues.{
  big_receives, big_sends, Ipc, reschedule, set_state, remove, enqueue, share,
}
use mks.Messaging.Big.{
  big_send, big_receive, big_send_or_wait, big_receive_or_wait, big_hand_over, big_take_over,
  big_wait_send, big_wait_receive, big_send_clashes, big_receive_clashes,
}
use mks.Messaging.Lists
use mks.Messaging.Spec
use mks.Messaging.Spec.Agrees.{big_send-agrees, big_receive-agrees}
use mks.Messaging.Lists.{Waiting, any_clash, yield_cpu, big_delivered, big_collected, set_list}
use mks.Messaging.Rep.{IsRep, remove-Rep, enqueue-Rep}
use mks.Messaging.Refine.{
  Refines, IsFree, IsShort, if-Refines, serve-Refines, clash-any, reschedule-Refines,
}

module _ {K : Type 0} (os : Services K) where
  big_hand_over-Refines :
      (src : ℕ) (msg p : Ptr) (pre post : List Ptr) (s : Ipc K) (l : Waiting)
      → IsRep s l
      → l big_receives ≡ pre ++ p ∷ post
      → Refines
          (share os (s.mem.long msg) (s.mem.msg p) s >>= λ s'.
            reschedule os (big_hand_over os src (last_or null pre) p s'))
          (big_delivered os src msg p s.mem (set_list l big_receives (pre ++ post)))
  unfolding share big_hand_over big_delivered remove
  big_hand_over-Refines src msg p pre post s l rep is =
      elim (os.share_page (s.mem.long msg) (s.mem.msg p) s.mem.kernel)
        as (λ r.
          Refines
            ((r >>= λ k. some (record s { mem = record s.mem { kernel = k } })) >>= λ s'.
              reschedule os (big_hand_over os src (last_or null pre) p s'))
            (r >>= λ k.
              let m = resolve_any (record s.mem { kernel = k }) (s.mem.src p) src in
              yield_cpu os (set_state os (m.dest p) running m)
                (set_list l big_receives (pre ++ post)))) [
                  | none ↦ tt
                  | some k ↦
                      reschedule-Refines os
                        (big_hand_over os src (last_or null pre) p
                          (record s { mem = record s.mem { kernel = k } }))
                        _
                        (remove-Rep big_receives p pre post
                          (record s {
                            mem = resolve_any (record s.mem { kernel = k }) (s.mem.src p) src;
                          })
                          l rep is)
                ]

  big_take_over-Refines :
      (src msg p : Ptr) (pre post : List Ptr) (s : Ipc K) (l : Waiting)
      → IsRep s l
      → l big_sends ≡ pre ++ p ∷ post
      → Refines
          (share os (s.mem.msg p) (s.mem.long msg) s >>= λ s'.
            reschedule os (big_take_over os src (last_or null pre) p s'))
          (big_collected os src msg p s.mem (set_list l big_sends (pre ++ post)))
  unfolding share big_take_over big_collected remove
  big_take_over-Refines src msg p pre post s l rep is =
      elim (os.share_page (s.mem.msg p) (s.mem.long msg) s.mem.kernel)
        as (λ r.
          Refines
            ((r >>= λ k. some (record s { mem = record s.mem { kernel = k } })) >>= λ s'.
              reschedule os (big_take_over os src (last_or null pre) p s'))
            (r >>= λ k.
              let m = resolve_any (record s.mem { kernel = k }) src (s.mem.src p) in
              yield_cpu os (set_state os (m.src p) running m)
                (set_list l big_sends (pre ++ post)))) [
                  | none ↦ tt
                  | some k ↦
                      reschedule-Refines os
                        (big_take_over os src (last_or null pre) p
                          (record s { mem = record s.mem { kernel = k } }))
                        _
                        (remove-Rep big_sends p pre post
                          (record s {
                            mem = resolve_any (record s.mem { kernel = k }) src (s.mem.src p);
                          })
                          l rep is)
                ]

module _ {K : Type 0} (os : Services K) (rounds : ℕ) where
  big_send_or_wait-Refines :
      (new_msg : Ptr) (src : ℕ) (dest msg : Ptr) (s : Ipc K) (l : Waiting)
      → IsRep s l
      → IsShort rounds l
      → IsFree new_msg l
      → Refines
          (big_send_or_wait os rounds new_msg src dest msg s)
          (Lists.big_send_idle os new_msg src dest msg s.mem l)
  unfolding big_send_or_wait Lists.big_send_idle big_wait_send enqueue
  big_send_or_wait-Refines new_msg src dest msg s l rep short free =
      rw (clash-any rounds s l rep short (big_send_clashes src dest s.mem)) (
        if-Refines (any_clash (big_send_clashes src dest s.mem) l) _ _ _ _ (refl, refl, rep)
          λ _.
            reschedule-Refines os
              (big_wait_send os src (s.mem.long dest) (s.mem.long msg) new_msg s) _
              (enqueue-Rep big_sends new_msg
                (record s { mem = fill s.mem new_msg src (s.mem.long dest) (s.mem.long msg) }) l rep
                free.ne_null free.absent))

  pub big_send_on_lists :
      (new_msg : Ptr) (src : ℕ) (dest msg : Ptr) (s : Ipc K) (l : Waiting)
      → IsRep s l
      → IsShort rounds l
      → IsFree new_msg l
      → Refines
          (big_send os rounds new_msg src dest msg s)
          (Lists.big_send os new_msg src dest msg s.mem l)
  unfolding big_send Lists.big_send
  big_send_on_lists new_msg src dest msg s l rep short free =
      if-Refines (is_bad_pid src) _ _ _ _ (refl, refl, rep)
        λ _.
          if-Refines (is_bad_pid (s.mem.long dest)) _ _ _ _ (refl, refl, rep)
            λ _.
              serve-Refines rounds s l rep short big_receives (takes s.mem src (s.mem.long dest)) _
                (λ r. share os (s.mem.long msg) (s.mem.msg r.1) s >>= λ s'.
                  reschedule os (big_hand_over os src r.0 r.1 s'))
                _ _ (big_send_or_wait-Refines new_msg src dest msg s l rep short free)
                (λ p pre post is. big_hand_over-Refines os src msg p pre post s l rep is)

  -- Where the pointers of the queues stand for the lists `l`, which are shorter than `rounds`, and the
  -- local struct is in no list: `big_send` returns what its specification over the lists returns, with
  -- the same memory, and its pointers stand for the lists of the specification. It returns nothing only
  -- if the specification does, where `share_page` or `schedule` returns nothing.
  pub big_send-Refines :
      (new_msg : Ptr) (src : ℕ) (dest msg : Ptr) (s : Ipc K) (l : Waiting)
      → IsRep s l
      → IsShort rounds l
      → IsFree new_msg l
      → Refines
          (big_send os rounds new_msg src dest msg s)
          (Spec.big_send os new_msg src dest msg s.mem l)
  big_send-Refines new_msg src dest msg s l rep short free =
      rw (sym (big_send-agrees os new_msg src dest msg s.mem l))
        (big_send_on_lists new_msg src dest msg s l rep short free)

  big_receive_or_wait-Refines :
      (new_msg src : Ptr) (dest : ℕ) (msg : Ptr) (s : Ipc K) (l : Waiting)
      → IsRep s l
      → IsShort rounds l
      → IsFree new_msg l
      → Refines
          (big_receive_or_wait os rounds new_msg src dest msg s)
          (Lists.big_receive_idle os new_msg src dest msg s.mem l)
  unfolding big_receive_or_wait Lists.big_receive_idle big_wait_receive enqueue
  big_receive_or_wait-Refines new_msg src dest msg s l rep short free =
      rw (clash-any rounds s l rep short (big_receive_clashes (s.mem.long src) dest s.mem)) (
        if-Refines (any_clash (big_receive_clashes (s.mem.long src) dest s.mem) l) _ _ _ _
          (refl, refl, rep)
          λ _. reschedule-Refines os (big_wait_receive os src dest (s.mem.long msg) new_msg s) _ (
            enqueue-Rep big_receives new_msg
              (record s { mem = fill s.mem new_msg src dest (s.mem.long msg) }) l rep free.ne_null
              free.absent))

  pub big_receive_on_lists :
      (new_msg src : Ptr) (dest : ℕ) (msg : Ptr) (s : Ipc K) (l : Waiting)
      → IsRep s l
      → IsShort rounds l
      → IsFree new_msg l
      → Refines
          (big_receive os rounds new_msg src dest msg s)
          (Lists.big_receive os new_msg src dest msg s.mem l)
  unfolding big_receive Lists.big_receive
  big_receive_on_lists new_msg src dest msg s l rep short free =
      if-Refines (is_bad_big_source (s.mem.long src)) _ _ _ _ (refl, refl, rep)
        λ _.
          if-Refines (is_bad_pid dest) _ _ _ _ (refl, refl, rep)
            λ _.
              serve-Refines rounds s l rep short big_sends (offers s.mem (s.mem.long src) dest) _
                (λ r. share os (s.mem.msg r.1) (s.mem.long msg) s >>= λ s'.
                  reschedule os (big_take_over os src r.0 r.1 s'))
                _ _ (big_receive_or_wait-Refines new_msg src dest msg s l rep short free)
                (λ p pre post is. big_take_over-Refines os src msg p pre post s l rep is)

  -- Where the pointers of the queues stand for the lists `l`, which are shorter than `rounds`, and the
  -- local struct is in no list: `big_receive` returns what its specification over the lists returns,
  -- with the same memory, and its pointers stand for the lists of the specification.
  pub big_receive-Refines :
      (new_msg src : Ptr) (dest : ℕ) (msg : Ptr) (s : Ipc K) (l : Waiting)
      → IsRep s l
      → IsShort rounds l
      → IsFree new_msg l
      → Refines
          (big_receive os rounds new_msg src dest msg s)
          (Spec.big_receive os new_msg src dest msg s.mem l)
  big_receive-Refines new_msg src dest msg s l rep short free =
      rw (sym (big_receive-agrees os new_msg src dest msg s.mem l))
        (big_receive_on_lists new_msg src dest msg s l rep short free)
