-- ===== src/User/Meeting.antt =====
-- A message from one process to another: the calls of lib/message.c through kernel/asm.s and
-- kernel/messaging.c and back.
use mks.Base.{
  Bool-cases, ℕ, ◌+◌, ◌<◌, ◌≡◌, ◌≢◌, ◌⊎◌, inl, inr, refl, sym, ◌∙◌, arith, Bool, true, false, none,
  some, List, [], ◌∷◌, ◌++◌, ◌==◌, ◌&&◌, ◌||◌, update, update_ne, update_self, has,
}
use mks.Linked.{Ptr}
use mks.Messaging.Store.{
  Services, Store, msg_any, running, sleeping, write_long, fill, takes, offers, sends_from_to,
  receives_from_at, is_bad_pid, is_bad_sender, is_bad_source, resolve_any,
}
use mks.Messaging.Queues.{set_state, Name, small_sends, small_receives, big_sends, big_receives}
use mks.Messaging.Small.{receive_clashes}
use mks.Messaging.Lists
use mks.Messaging.Lists.{Waiting, set_list, take_first, any, any_clash}

-- Nobody that passes the test is in the list.
pub take_first-none :
    (test : Ptr → Bool) (xs : List Ptr)
    → ((p : Ptr) → has p xs ≡ true → test p ≡ false)
    → take_first test xs ≡ none
unfolding take_first
take_first-none test [] h = refl
take_first-none test (x ∷ xs) h =
    rw (h x (ground arith), take_first-none test xs (λ p i. h p (ground arith))) refl

pub take_first_last :
    (test : Ptr → Bool) (xs : List Ptr) (p : Ptr)
    → ((q : Ptr) → has q xs ≡ true → test q ≡ false)
    → test p ≡ true
    → take_first test (xs ++ p ∷ []) ≡ some (p, xs)
unfolding take_first
take_first_last test [] p h is = rw is refl
take_first_last test (x ∷ xs) p h is =
    rw (h x (ground arith), take_first_last test xs p (λ q i. h q (ground arith)) is) refl

pub any-none :
    (test : Ptr → Bool) (xs : List Ptr)
    → ((p : Ptr) → has p xs ≡ true → test p ≡ false)
    → any test xs ≡ false
unfolding any
any-none test [] h = refl
any-none test (x ∷ xs) h =
    rw (h x (ground arith), any-none test xs (λ p i. h p (ground arith))) refl

-- No struct that waits is for one of the two.
abbrev pub NotFor : {K : Type 0} → ℕ → ℕ → Store K → Waiting → Type 0
NotFor a b m l = (q : Name) (x : Ptr) → has x (l q) ≡ true → (m.dest x ≢ a) × (m.dest x ≢ b)

abbrev pub IsSource : ℕ → ℕ → Type 0
IsSource b from = (from ≡ b) ⊎ (from ≡ msg_any)

abbrev pub queued : Name → Ptr → Waiting → Waiting
queued q p l = set_list l q (l q ++ p ∷ [])

module _ {K : Type 0} (os : Services K) (a b : ℕ) (a_in : a < 64) (b_in : b < 64) (ne : a ≢ b) where
  receive_clashes-none :
      (from : ℕ) (m : Store K) (l : Waiting)
      → NotFor a from m l
      → any_clash (receive_clashes from a m) l ≡ false
  unfolding any_clash receive_clashes receives_from_at sends_from_to
  receive_clashes-none from m l none_for =
      rw
        (
          any-none (λ x. a == m.long (m.src x) && from == m.dest x) (l small_receives)
              (λ x i. ground (arith, none_for small_receives x i)),
          any-none (λ x. from == m.src x && a == m.dest x) (l big_sends)
              (λ x i. ground (arith, none_for big_sends x i)),
          any-none (λ x. a == m.long (m.src x) && from == m.dest x) (l big_receives)
              (λ x i. ground (arith, none_for big_receives x i)),
        )
        refl

  pub good_pid : (i : ℕ) → i < 64 → is_bad_pid i ≡ false
  unfolding is_bad_pid
  good_pid i h = ground arith

  good_source : (from : ℕ) → IsSource b from → is_bad_source from ≡ false
  unfolding is_bad_source
  good_source from (inl e) = rw e (ground arith)
  good_source from (inr e) = rw e refl

  no_offer :
      (from : ℕ) (m : Store K) (l : Waiting)
      → NotFor a from m l
      → take_first (offers m from a) (l small_sends) ≡ none
  unfolding offers
  no_offer from m l none_for =
      take_first-none _ (l small_sends) (λ x i. ground (arith, none_for small_sends x i))

  sleeps :
      (p f : Ptr) (m : Store K) (l : Waiting) (k : K)
      → os.schedule (os.set_state a sleeping m.kernel) ≡ some k
      → Lists.yield_cpu os (set_state os a sleeping (fill m p f a (f + 4))) l
        ≡ some (1, record (fill m p f a (f + 4)) { kernel = k }, l)
  unfolding Lists.yield_cpu set_state fill
  sleeps p f m l k e = rw e refl

  -- The process `a` asks for a message, and nobody has one.
  pub receive-waits :
      (p entry f : Ptr) (m : Store K) (l : Waiting) (k : K)
      → os.current_pid m.kernel ≡ a
      → IsSource b (m.long f)
      → NotFor a (m.long f) m l
      → os.schedule (os.set_state a sleeping m.kernel) ≡ some k
      → Lists.do_intr_msg os p entry 2 f (f + 4) m l
        ≡ some (1, record (fill m p f a (f + 4)) { kernel = k }, queued small_receives p l)
  unfolding Lists.do_intr_msg Lists.small_receive Lists.small_receive_idle Lists.yield_cpu
  receive-waits p entry f m l k is_a from none_for next =
      let other : (a == m.long f) ≡ false = elim from [
        | inl e ↦ ground arith
        | inr e ↦ ground arith
      ] in
      rw
        (
          is_a,
          other,
          good_source (m.long f) from,
          good_pid a a_in,
          no_offer (m.long f) m l none_for,
          receive_clashes-none (m.long f) m l none_for,
        )
        (sleeps p f m (queued small_receives p l) k next)

  takes_last :
      (p : Ptr) (m : Store K) (l : Waiting)
      → m.dest p ≡ a
      → IsSource b (m.long (m.src p))
      → ((x : Ptr) → has x (l small_receives) ≡ true → m.dest x ≢ a)
      → take_first (takes m b a) (queued small_receives p l small_receives)
        ≡ some (p, l small_receives)
  unfolding takes set_list
  takes_last p m l is_to from none_for =
      let fits : ((b == m.long (m.src p)) || (m.long (m.src p) == msg_any)) ≡ true = elim from [
        | inl e ↦ ground arith
        | inr e ↦ ground arith
      ] in
      take_first_last _ (l small_receives) p (λ x i. ground (arith, none_for x i)) (ground arith)

  wakes :
      (g p : Ptr) (m : Store K) (l : Waiting) (k : K)
      → m.dest p ≡ a
      → os.schedule (os.set_state a running m.kernel) ≡ some k
      → Lists.yield_cpu os (Lists.delivered os b (g + 4) p m) l
        ≡ some (1, record (Lists.delivered os b (g + 4) p m) { kernel = k }, l)
  unfolding Lists.yield_cpu Lists.delivered set_state resolve_any
  wakes g p m l k is_to e =
      elim (Bool-cases ((write_long m (m.msg p) (m.long (g + 4))).long (m.src p) == msg_any)) [
        | inl any ↦ rw (any, is_to, e) refl
        | inr not_any ↦ rw (not_any, is_to, e) refl
      ]

  good_sender : is_bad_sender b ≡ false
  unfolding is_bad_sender
  good_sender = ground arith

  -- The process `b` sends to `a`, which waits behind the others.
  pub send-serves :
      (p' p entry g : Ptr) (m : Store K) (l : Waiting) (k : K)
      → os.current_pid m.kernel ≡ b
      → m.long g ≡ a
      → m.dest p ≡ a
      → IsSource b (m.long (m.src p))
      → ((x : Ptr) → has x (l small_receives) ≡ true → m.dest x ≢ a)
      → os.schedule (os.set_state a running m.kernel) ≡ some k
      → Lists.do_intr_msg os p' entry 1 g (g + 4) m (queued small_receives p l)
        ≡ some (
          1,
          record (Lists.delivered os b (g + 4) p m) { kernel = k },
          set_list (queued small_receives p l) small_receives (l small_receives),
        )
  unfolding Lists.do_intr_msg Lists.small_send
  send-serves p' p entry g m l k is_b to is_to from none_for next =
      let other : (b == m.long g) ≡ false = ground arith in
      rw (is_b, other, good_sender, to, good_pid a a_in)
        (rw (takes_last p m l is_to from none_for) (
          wakes g p m (set_list (queued small_receives p l) small_receives (l small_receives)) k
            is_to next))

-- The words that the meeting writes: the source that `a` asked for becomes `b`, and the message comes.
pub delivered-long :
    {K : Type 0} (os : Services K) (b g p : ℕ) (m : Store K)
    → b < 64
    → m.msg p ≢ m.src p
    → IsSource b (m.long (m.src p))
    → ((Lists.delivered os b g p m).long (m.src p) ≡ b)
      × ((Lists.delivered os b g p m).long (m.msg p) ≡ m.long g)
unfolding Lists.delivered set_state resolve_any
delivered-long os b g p m b_in ne from =
    let v : ℕ = m.long g in
    let same : update m.long (m.msg p) v (m.src p) ≡ m.long (m.src p) =
      update_ne m.long (m.msg p) (m.src p) v (λ e. ne (sym e)) in
    elim from [
      | inl e ↦
          let not_any : (b == msg_any) ≡ false = ground arith in
          rw (same, e, not_any) (same ∙ e, update_self m.long (m.msg p) v)
      | inr e ↦
          rw (same, e)
            (
              update_self (update m.long (m.msg p) v) (m.src p) b,
              update_ne (update m.long (m.msg p) v) (m.src p) (m.msg p) b ne
                  ∙ update_self m.long (m.msg p) v,
            )
    ]
