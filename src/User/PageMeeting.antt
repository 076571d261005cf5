-- ===== src/User/PageMeeting.antt =====
-- A page from one process to another: the calls for big messages of lib/message.c through kernel/asm.s and
-- kernel/messaging.c.
use mks.Base.{
  Bool-cases, ℕ, ◌+◌, ◌<◌, ◌≡◌, ◌≢◌, inl, inr, refl, sym, ◌∙◌, arith, true, false, none, some, ◌==◌,
  ◌&&◌, ◌||◌, update, update_ne, update_self, has,
}
use mks.Linked.{Ptr}
use mks.Messaging.Store.{
  Services, Store, msg_any, running, sleeping, write_long, fill, takes, offers, sends_from_to,
  receives_from_at, is_bad_big_source, resolve_any,
}
use mks.Messaging.Queues.{set_state, small_sends, small_receives, big_sends, big_receives}
use mks.Messaging.Big.{page_entry, big_receive_clashes}
use mks.Messaging.Lists
use mks.Messaging.Lists.{Waiting, set_list, take_first, any_clash}
use mks.User.Meeting.{
  NotFor, IsSource, queued, take_first-none, take_first_last, any-none, good_pid,
}

-- `entry` in `do_intr_msg`.
abbrev pub with_entry : {K : Type 0} → ℕ → Ptr → Ptr → Store K → Store K
with_entry pid e msg m = write_long m e (page_entry pid (m.long msg))

module _ {K : Type 0} (os : Services K) (a b : ℕ) (a_in : a < 64) (b_in : b < 64) (ne : a ≢ b) where
  big_receive_clashes-none :
      (from : ℕ) (m : Store K) (l : Waiting)
      → NotFor a from m l
      → any_clash (big_receive_clashes from a m) l ≡ false
  unfolding any_clash big_receive_clashes receives_from_at sends_from_to
  big_receive_clashes-none from m l none_for =
      rw
        (
          any-none (λ x. from == m.src x && a == m.dest x) (l small_sends)
              (λ x i. ground (arith, none_for small_sends x i)),
          any-none (λ x. a == m.long (m.src x) && from == m.dest x) (l small_receives)
              (λ x i. ground (arith, none_for small_receives x i)),
          any-none (λ x. a == m.long (m.src x) && from == m.dest x) (l big_receives)
              (λ x i. ground (arith, none_for big_receives x i)),
        )
        refl

  good_big_source : (from : ℕ) → IsSource b from → is_bad_big_source from ≡ false
  unfolding is_bad_big_source
  good_big_source from (inl e) = rw e (ground arith)
  good_big_source from (inr e) = rw e refl

  no_page :
      (from : ℕ) (m : Store K) (l : Waiting)
      → NotFor a from m l
      → take_first (offers m from a) (l big_sends) ≡ none
  unfolding offers
  no_page from m l none_for =
      take_first-none _ (l big_sends) (λ x i. ground (arith, none_for big_sends x i))

  sleeps :
      (p f v : ℕ) (m : Store K) (l : Waiting) (k : K)
      → os.schedule (os.set_state a sleeping m.kernel) ≡ some k
      → Lists.yield_cpu os (set_state os a sleeping (fill m p f a v)) l
        ≡ some (1, record (fill m p f a v) { kernel = k }, l)
  unfolding Lists.yield_cpu set_state fill
  sleeps p f v m l k e = rw e refl

  -- The process `a` asks for a page, and nobody has one.
  pub big_receive-waits :
      (p e f : Ptr) (m : Store K) (l : Waiting) (k : K)
      → os.current_pid m.kernel ≡ a
      → IsSource b (m.long f)
      → e ≢ f
      → NotFor a (m.long f) m l
      → os.schedule (os.set_state a sleeping m.kernel) ≡ some k
      → Lists.do_intr_msg os p e 4 f (f + 4) m l
        ≡ some (
          1,
          record (fill (with_entry a e (f + 4) m) p f a (page_entry a (m.long (f + 4)))) {
            kernel = k;
          },
          queued big_receives p l,
        )
  unfolding Lists.do_intr_msg Lists.big_receive Lists.big_receive_idle
  big_receive-waits p e f m l k is_a from apart none_for next =
      let other : (a == m.long f) ≡ false = elim from [
        | inl e ↦ ground arith
        | inr e ↦ ground arith
      ] in
      let v : ℕ = page_entry a (m.long (f + 4)) in
      let same : update m.long e v f ≡ m.long f = update_ne m.long e f v (λ q. apart (sym q)) in
      rw (is_a, other, same)
        (rw
          (
            good_big_source (m.long f) from,
            good_pid os a b a_in b_in ne a a_in,
            no_page (m.long f) (with_entry a e (f + 4) m) l none_for,
            big_receive_clashes-none (m.long f) (with_entry a e (f + 4) m) l none_for,
            update_self m.long e v,
          )
          (sleeps p f v (with_entry a e (f + 4) m) (queued big_receives p l) k next))

  takes_last :
      (p : Ptr) (m : Store K) (l : Waiting)
      → m.dest p ≡ a
      → IsSource b (m.long (m.src p))
      → ((x : Ptr) → has x (l big_receives) ≡ true → m.dest x ≢ a)
      → take_first (takes m b a) (queued big_receives p l big_receives) ≡ some (p, l big_receives)
  unfolding takes set_list
  takes_last p m l is_to from none_for =
      let fits : ((b == m.long (m.src p)) || (m.long (m.src p) == msg_any)) ≡ true = elim from [
        | inl e ↦ ground arith
        | inr e ↦ ground arith
      ] in
      take_first_last _ (l big_receives) p (λ x i. ground (arith, none_for x i)) (ground arith)

  wakes :
      (e p v : ℕ) (m : Store K) (l : Waiting) (k' k : K)
      → m.dest p ≡ a
      → m.long e ≡ v
      → os.share_page v (m.msg p) m.kernel ≡ some k'
      → os.schedule (os.set_state a running k') ≡ some k
      → Lists.big_delivered os b e p m l
        ≡ some (1, record (resolve_any m (m.src p) b) { kernel = k }, l)
  unfolding Lists.big_delivered Lists.yield_cpu set_state resolve_any
  wakes e p v m l k' k is_to is_v shared next = elim (Bool-cases (m.long (m.src p) == msg_any)) [
    | inl any ↦ rw (is_v, shared) (rw (any, is_to, next) refl)
    | inr not_any ↦ rw (is_v, shared) (rw (not_any, is_to, next) refl)
  ]

  -- The process `b` sends a page to `a`, which waits behind the others.
  pub big_send-serves :
      (p' p e g : Ptr) (m : Store K) (l : Waiting) (k' k : K)
      → os.current_pid m.kernel ≡ b
      → m.long g ≡ a
      → e ≢ g
      → e ≢ m.src p
      → m.dest p ≡ a
      → IsSource b (m.long (m.src p))
      → ((x : Ptr) → has x (l big_receives) ≡ true → m.dest x ≢ a)
      → os.share_page (page_entry b (m.long (g + 4))) (m.msg p) m.kernel ≡ some k'
      → os.schedule (os.set_state a running k') ≡ some k
      → Lists.do_intr_msg os p' e 3 g (g + 4) m (queued big_receives p l)
        ≡ some (
          1,
          record (resolve_any (with_entry b e (g + 4) m) (m.src p) b) { kernel = k },
          set_list (queued big_receives p l) big_receives (l big_receives),
        )
  unfolding Lists.do_intr_msg Lists.big_send
  big_send-serves p' p e g m l k' k is_b to apart apart' is_to from none_for shared next =
      let other : (b == m.long g) ≡ false = ground arith in
      let v : ℕ = page_entry b (m.long (g + 4)) in
      let same : update m.long e v g ≡ a = update_ne m.long e g v (λ q. apart (sym q)) ∙ to in
      let asked : IsSource b (update m.long e v (m.src p)) =
        rw (update_ne m.long e (m.src p) v (λ q. apart' (sym q))) from in
      rw (is_b, other, same)
        (rw
          (
            good_pid os a b a_in b_in ne b b_in,
            good_pid os a b a_in b_in ne a a_in,
            takes_last p (with_entry b e (g + 4) m) l is_to asked none_for,
          )
          (wakes e p v (with_entry b e (g + 4) m)
            (set_list (queued big_receives p l) big_receives (l big_receives)) k' k is_to
            (update_self m.long e v) shared next))
