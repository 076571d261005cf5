-- ===== src/Messaging/Spec/Agrees.antt =====
-- The calls over lists, with the conditions of kernel/messaging.c, do what Spec says.

use mks.Base.{
  ℕ, ◌≡◌, ◌≢◌, refl, ap, inl, inr, Bool-cases, Option, none, some, ◌||◌, ◌==◌, if◌then◌else◌, ◌>>=◌,
}
use mks.Linked.{Ptr, null}
use mks.Messaging.Store.{
  Services, Store, msg_any, msg_hardware, nr_msg_hardware, resolve_any, fill, running,
}
use mks.Messaging.Queues.{
  small_sends, small_receives, big_sends, big_receives, free_slot, set_state,
}
use mks.Messaging.Small.{new_struct}
use mks.Messaging.Lists
use mks.Messaging.Lists.{
  Waiting, Answer, any, any_clash, set_list, take_first, serve, refuse, yield_cpu,
}
use mks.Messaging.Spec
use mks.Messaging.Spec.{
  source_of, accepts, is_process, page_address, first, slots_of, wants, brings, waits_for, stuck,
  put, answer, tell, filled, room, handed, fetched, join, join_small, with_state,
}
use mks.Messaging.Spec.Conditions.{
  good_pid, good_sender, good_source, good_big_source, page_entry-page_address, guarded, serve-same,
  if-same, takes-wants, offers-brings, resolve_any-tell, send_clashes-stuck, receive_clashes-stuck,
  big_send_clashes-stuck, big_receive_clashes-stuck, free_slot-first,
}

module _ {K : Type 0} (os : Services K) where
  delivered-handed :
      (src : ℕ) (msg p : Ptr) (m : Store K) → Lists.delivered os src msg p m ≡ handed os src msg p m
  unfolding Lists.delivered handed put with_state set_state
  delivered-handed src msg p m = rw (resolve_any-tell _ (m.src p) src) refl

  collected-fetched :
      (src msg p : Ptr) (m : Store K) → Lists.collected os src msg p m ≡ fetched os src msg p m
  unfolding Lists.collected fetched put with_state set_state
  collected-fetched src msg p m = rw (resolve_any-tell _ src (m.src p)) refl

  small_send_idle-joins :
      (new_msg : Ptr) (src : ℕ) (dest msg : Ptr) (m : Store K) (l : Waiting)
      → m.slots ≢ null
      → Lists.small_send_idle os new_msg src dest msg m l ≡ (
          if stuck small_receives m l (m.long dest) src
          then refuse m l
          else join_small os src (m.long dest) (m.long msg) (room src new_msg m) m l)
  unfolding Lists.small_send_idle new_struct room join_small join with_state set_state filled fill
  small_send_idle-joins new_msg src dest msg m l ne =
      rw (send_clashes-stuck (m.long dest) src m l) (
        if-same (stuck small_receives m l (m.long dest) src) _ _ _
          (elim (Bool-cases (src == msg_hardware)) [
            | inl hw ↦
                rw (hw, free_slot-first nr_msg_hardware 0 m ne)
                  (elim (Bool-cases (free_slot nr_msg_hardware 0 m == null)) [
                    | inl none_free ↦ rw none_free refl
                    | inr free ↦ rw (free, hw) refl
                  ])
            | inr process ↦ rw process (rw process refl)
          ]))

  small_receive_idle-joins :
      (new_msg src : Ptr) (dest : ℕ) (msg : Ptr) (m : Store K) (l : Waiting)
      → Lists.small_receive_idle os new_msg src dest msg m l ≡ (
          if stuck small_sends m l (m.long src) dest
          then refuse m l
          else join os small_receives dest new_msg (filled new_msg src dest msg m) l)
  unfolding Lists.small_receive_idle join with_state set_state filled fill
  small_receive_idle-joins new_msg src dest msg m l =
      rw (receive_clashes-stuck (m.long src) dest m l) refl

  big_send_idle-joins :
      (new_msg : Ptr) (src : ℕ) (dest msg : Ptr) (m : Store K) (l : Waiting)
      → Lists.big_send_idle os new_msg src dest msg m l ≡ (
          if stuck big_receives m l dest src
          then refuse m l
          else join os big_sends src new_msg (filled new_msg src (m.long dest) (m.long msg) m) l)
  unfolding Lists.big_send_idle join with_state set_state filled fill
  big_send_idle-joins new_msg src dest msg m l = rw (big_send_clashes-stuck dest src m l) refl

  big_receive_idle-joins :
      (new_msg src : Ptr) (dest : ℕ) (msg : Ptr) (m : Store K) (l : Waiting)
      → Lists.big_receive_idle os new_msg src dest msg m l ≡ (
          if stuck big_sends m l (m.long src) dest
          then refuse m l
          else join os big_receives dest new_msg (filled new_msg src dest (m.long msg) m) l)
  unfolding Lists.big_receive_idle join with_state set_state filled fill
  big_receive_idle-joins new_msg src dest msg m l =
      rw (big_receive_clashes-stuck (m.long src) dest m l) refl

  big_delivered-tells :
      (src : ℕ) (msg p : Ptr) (m : Store K) (l : Waiting)
      → Lists.big_delivered os src msg p m l ≡ (
          os.share_page (m.long msg) (m.msg p) m.kernel >>= λ k.
          let m = tell (m.src p) src (record m { kernel = k }) in
          yield_cpu os (with_state os (m.dest p) running m) l)
  unfolding Lists.big_delivered with_state set_state
  big_delivered-tells src msg p m l = go (os.share_page (m.long msg) (m.msg p) m.kernel)
    where
      go :
          (o : Option K)
          → (o >>= λ k.
              let m' = resolve_any (record m { kernel = k }) (m.src p) src in
              yield_cpu os (set_state os (m'.dest p) running m') l)
            ≡ (o >>= λ k.
                let m' = tell (m.src p) src (record m { kernel = k }) in
                yield_cpu os (with_state os (m'.dest p) running m') l)
      go none = refl
      go (some k) = rw (resolve_any-tell (record m { kernel = k }) (m.src p) src) refl

  big_collected-tells :
      (src msg p : Ptr) (m : Store K) (l : Waiting)
      → Lists.big_collected os src msg p m l ≡ (
          os.share_page (m.msg p) (m.long msg) m.kernel >>= λ k.
          let m = tell src (m.src p) (record m { kernel = k }) in
          yield_cpu os (with_state os (m.src p) running m) l)
  unfolding Lists.big_collected with_state set_state
  big_collected-tells src msg p m l = go (os.share_page (m.msg p) (m.long msg) m.kernel)
    where
      go :
          (o : Option K)
          → (o >>= λ k.
              let m' = resolve_any (record m { kernel = k }) src (m.src p) in
              yield_cpu os (set_state os (m'.src p) running m') l)
            ≡ (o >>= λ k.
                let m' = tell src (m.src p) (record m { kernel = k }) in
                yield_cpu os (with_state os (m'.src p) running m') l)
      go none = refl
      go (some k) = rw (resolve_any-tell (record m { kernel = k }) src (m.src p)) refl

  pub small_send-agrees :
      (new_msg : Ptr) (src : ℕ) (dest msg : Ptr) (m : Store K) (l : Waiting)
      → m.slots ≢ null
      → Lists.small_send os new_msg src dest msg m l ≡ Spec.small_send os new_msg src dest msg m l
  unfolding Lists.small_send Spec.small_send
  small_send-agrees new_msg src dest msg m l ne =
      let d : ℕ = m.long dest in
      guarded (is_process src || src == msg_hardware) (is_process d) _ (refuse m l)
        (good_sender src) (good_pid d)
        (rw (takes-wants m src d) (
          serve-same (take_first (wants m src d) (l small_receives)) _ _ _ _
            (small_send_idle-joins new_msg src dest msg m l ne)
            (λ p rest.
              ap (λ m. yield_cpu os m (set_list l small_receives rest))
                (delivered-handed src msg p m))))

  pub small_receive-agrees :
      (new_msg src : Ptr) (dest : ℕ) (msg : Ptr) (m : Store K) (l : Waiting)
      → Lists.small_receive os new_msg src dest msg m l
        ≡ Spec.small_receive os new_msg src dest msg m l
  unfolding Lists.small_receive Spec.small_receive
  small_receive-agrees new_msg src dest msg m l =
      let s : ℕ = m.long src in
      guarded (is_process s || s == msg_any || s == msg_hardware) (is_process dest) _ (refuse m l)
        (good_source s) (good_pid dest)
        (rw (offers-brings m s dest) (
          serve-same (take_first (brings m s dest) (l small_sends)) _ _ _ _
            (small_receive_idle-joins new_msg src dest msg m l)
            (λ p rest.
              ap (λ m. yield_cpu os m (set_list l small_sends rest))
                (collected-fetched src msg p m))))

  pub big_send-agrees :
      (new_msg : Ptr) (src : ℕ) (dest msg : Ptr) (m : Store K) (l : Waiting)
      → Lists.big_send os new_msg src dest msg m l ≡ Spec.big_send os new_msg src dest msg m l
  unfolding Lists.big_send Spec.big_send
  big_send-agrees new_msg src dest msg m l =
      let d : ℕ = m.long dest in
      guarded (is_process src) (is_process d) _ (refuse m l) (good_pid src) (good_pid d) (
        rw (takes-wants m src d) (
          serve-same (take_first (wants m src d) (l big_receives)) _ _ _ _
            (big_send_idle-joins new_msg src dest msg m l)
            (λ p rest. big_delivered-tells src msg p m (set_list l big_receives rest))))

  pub big_receive-agrees :
      (new_msg src : Ptr) (dest : ℕ) (msg : Ptr) (m : Store K) (l : Waiting)
      → Lists.big_receive os new_msg src dest msg m l ≡ Spec.big_receive os new_msg src dest msg m l
  unfolding Lists.big_receive Spec.big_receive
  big_receive-agrees new_msg src dest msg m l =
      let s : ℕ = m.long src in
      guarded (is_process s || s == msg_any) (is_process dest) _ (refuse m l) (good_big_source s)
        (good_pid dest)
        (rw (offers-brings m s dest) (
          serve-same (take_first (brings m s dest) (l big_sends)) _ _ _ _
            (big_receive_idle-joins new_msg src dest msg m l)
            (λ p rest. big_collected-tells src msg p m (set_list l big_sends rest))))

  pub do_intr_msg-agrees :
      (new_msg entry : Ptr) (function : ℕ) (src_dest msg : Ptr) (m : Store K) (l : Waiting)
      → m.slots ≢ null
      → Lists.do_intr_msg os new_msg entry function src_dest msg m l
        ≡ Spec.do_intr_msg os new_msg entry function src_dest msg m l
  unfolding Lists.do_intr_msg Spec.do_intr_msg put
  do_intr_msg-agrees new_msg entry function src_dest msg m l ne =
      let pid : ℕ = os.current_pid m.kernel in
      let paged : Store K = put entry (page_address pid (m.long msg)) m in
      rw
        (
          page_entry-page_address pid (m.long msg),
          small_send-agrees new_msg pid src_dest msg m l ne,
          small_receive-agrees new_msg src_dest pid msg m l,
          big_send-agrees new_msg pid src_dest entry paged l,
          big_receive-agrees new_msg src_dest pid entry paged l,
        )
        refl
