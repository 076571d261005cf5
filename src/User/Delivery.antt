-- ===== src/User/Delivery.antt =====
-- A process that asks for a small message gets it from one that sends it, with the calls of lib/message.c
-- at both ends.
use mks.Base.{
  ℕ, ◌+◌, ◌<◌, ◌≤◌, ◌≡◌, ◌≢◌, ◌⊎◌, refl, sym, ◌∙◌, ap, arith, true, Option, none, some, ◌==◌,
  if◌then◌else◌, update, update_ne, update_self, length, has, ◌>>=◌,
}
use mks.Linked.{Ptr}
use mks.Messaging.Store.{Services, Store, slot, running, sleeping, fill}
use mks.Messaging.Queues.{Ipc, Name, small_receives}
use mks.Messaging.Big.{do_intr_msg}
use mks.Messaging.Lists
use mks.Messaging.Lists.{Waiting, set_list}
use mks.Messaging.Rep.{IsRep}
use mks.Messaging.Refine.{IsFree, IsMarked, IsShort}
use mks.Messaging.Refine.Interrupt.{do_intr_msg_on_lists}
use mks.User.{intr_msg, save, small_msg_send, small_msg_receive}
use mks.User.Meeting.{NotFor, IsSource, queued, receive-waits, send-serves, delivered-long}
use mks.User.Queued.{Refines-some, unqueued-IsRep, queued-IsShort, queued-IsFree, queued-IsMarked}

-- The queues have room for one struct more, and the two local structs can be queued.
pub record Room {K : Type 0} (rounds : ℕ) (s : Ipc K) (l : Waiting) (p p' : Ptr) : Type 0 where
  pub rep : IsRep s l
  pub short : (q : Name) → length (l q) + 1 < rounds
  pub marked : IsMarked s.mem l
  pub free : IsFree p l
  pub free' : IsFree p' l
  pub two : p' ≢ p
  pub no_slot : (i : ℕ) → slot s.mem.slots i ≢ p

abbrev pub with_kernel : {K : Type 0} → K → Ipc K → Ipc K
with_kernel k s = record s { mem = record s.mem { kernel = k } }

-- What happens until the receiver goes on: in the kernel's state `k₁` the other process sends, by its
-- frame `g` and its struct `p'`, and its call answers 1.
abbrev pub meanwhile_sends :
    {K : Type 0} (os : Services K) (rounds : ℕ) (p' e g destination msgpt : Ptr) (mem : Ptr → ℕ)
    (k₁ : K)
    → Ipc K
    → Option (Ipc K)
meanwhile_sends os rounds p' e g destination msgpt mem k₁ s₁ =
    small_msg_send (intr_msg os rounds p' e g some) destination msgpt mem (with_kernel k₁ s₁)
    >>= λ r. if r.0 == 1 then some r.1 else none

module _ {K : Type 0} (os : Services K) (rounds a b : ℕ) (a_in : a < 64) (b_in : b < 64)
    (ne : a ≢ b) (p p' f g : Ptr) (s : Ipc K) (l : Waiting) (room : Room rounds s l p p') where
  -- The state in which `a` sleeps and its struct is filled.
  abbrev asleep : ℕ → ℕ → K → Store K
  asleep from ecx k =
      record (fill (save f (record { eax = 2; ebx = from; ecx = ecx }) s).mem p f a (f + 4)) {
        kernel = k;
      }

  receives :
      (e from ecx : ℕ) (k : K)
      → os.current_pid s.mem.kernel ≡ a
      → IsSource b from
      → NotFor a from s.mem l
      → os.schedule (os.set_state a sleeping s.mem.kernel) ≡ some k
      → (s₁ : Ipc K) × (do_intr_msg os rounds p e 2 f
            (f + 4)
            (save f (record { eax = 2; ebx = from; ecx = ecx }) s)
          ≡ some (1, s₁))
        × (s₁.mem ≡ asleep from ecx k)
        × IsRep s₁ (queued small_receives p l)
  unfolding save
  receives e from ecx k is_a source none_for next =
      let s' : Ipc K = save f (record { eax = 2; ebx = from; ecx = ecx }) s in
      let f-is : s'.mem.long f ≡ from = update_self (update s.mem.long (f + 4) ecx) f from in
      let spec : Lists.do_intr_msg os p e 2 f (f + 4) s'.mem l
          ≡ some (1, asleep from ecx k, queued small_receives p l) =
        receive-waits os a b a_in b_in ne p e f s'.mem l k is_a (rw f-is source) (rw f-is none_for)
          next in
      let short : IsShort rounds l = λ q. omega (arith, room.short q) in
      let marked : IsMarked s'.mem l = record {
        ne_null = room.marked.ne_null;
        marked = room.marked.marked;
      } in
      Refines-some _ _ _ (
        rw (sym spec)
          (do_intr_msg_on_lists os rounds p e 2 f (f + 4) s' l room.rep short marked room.free))

  -- What is in the words of `a` and in the queues after `b` has sent `v`.
  Delivered : ℕ → K → Ipc K → Type 0
  Delivered v k s₂ =
      (s₂.mem.long f ≡ b)
      × (s₂.mem.long (f + 4) ≡ v)
      × (s₂.mem.kernel ≡ k)
      × IsRep s₂ (set_list (queued small_receives p l) small_receives (l small_receives))

  not_queued : (x : Ptr) (q : Name) → has x (l q) ≡ true → x ≢ p
  not_queued x q h = ground (arith, room.free.absent q)

  sends :
      (e from ecx v : ℕ) (k k₁ k₂ : K) (s₁ : Ipc K)
      → s₁.mem ≡ asleep from ecx k
      → IsRep s₁ (queued small_receives p l)
      → IsSource b from
      → NotFor a from s.mem l
      → (f + 8 ≤ g) ⊎ (g + 8 ≤ f)
      → os.current_pid k₁ ≡ b
      → os.schedule (os.set_state a running k₁) ≡ some k₂
      → (s₂ : Ipc K) × (do_intr_msg os rounds p' e 1 g
            (g + 4)
            (save g (record { eax = 1; ebx = a; ecx = v }) (with_kernel k₁ s₁))
          ≡ some (1, s₂))
        × Delivered v k₂ s₂
  unfolding Delivered save fill
  sends e from ecx v k k₁ k₂ s₁ is rep source none_for apart is_b next =
      let t : Ipc K = save g (record { eax = 1; ebx = a; ecx = v }) (with_kernel k₁ s₁) in
      let g-is : t.mem.long g ≡ a = update_self (update s₁.mem.long (g + 4) v) g a in
      let v-is : t.mem.long (g + 4) ≡ v =
        update_ne (update s₁.mem.long (g + 4) v) g (g + 4) a (omega arith)
        ∙ update_self s₁.mem.long (g + 4) v in
      let dest-is : t.mem.dest p ≡ a = ap (λ m. m.dest p) is ∙ update_self s.mem.dest p a in
      let src-is : t.mem.src p ≡ f = ap (λ m. m.src p) is ∙ update_self s.mem.src p f in
      let msg-is : t.mem.msg p ≡ f + 4 = ap (λ m. m.msg p) is ∙ update_self s.mem.msg p (f + 4) in
      let long-is : t.mem.long f ≡ from =
        update_ne (update s₁.mem.long (g + 4) v) g f a (omega arith)
        ∙ update_ne s₁.mem.long (g + 4) f v (omega arith)
        ∙ ap (λ m. m.long f) is
        ∙ update_self (update s.mem.long (f + 4) ecx) f from in
      let asked : IsSource b (t.mem.long (t.mem.src p)) = rw (src-is, long-is) source in
      let others : (x : Ptr) → has x (l small_receives) ≡ true → t.mem.dest x ≢ a = λ x i.
        rw (is, update_ne s.mem.dest p x a (not_queued x small_receives i))
          (none_for small_receives x i).0 in
      let m' : Store K = record (Lists.delivered os b (g + 4) p t.mem) { kernel = k₂ } in
      let spec : Lists.do_intr_msg os p' e 1 g (g + 4) t.mem (queued small_receives p l)
          ≡ some (1, m', set_list (queued small_receives p l) small_receives (l small_receives)) =
        send-serves os a b a_in b_in ne p' p e g t.mem l k₂ is_b g-is dest-is asked others next in
      let (s₂, done, mem-is, rep₂) =
        Refines-some (do_intr_msg os rounds p' e 1 g (g + 4) t) m'
          (set_list (queued small_receives p l) small_receives (l small_receives))
          (rw (sym spec) (
            do_intr_msg_on_lists os rounds p' e 1 g (g + 4) t (queued small_receives p l) rep
              (queued-IsShort small_receives rounds p l room.short)
              (queued-IsMarked small_receives p f s.mem t.mem l room.marked room.no_slot
                (ap (λ m. m.slots) is) (ap (λ m. m.src) is))
              (queued-IsFree small_receives p' p l room.free' room.two))) in
      let (asker, word) =
        delivered-long os b (g + 4) p t.mem b_in (rw (msg-is, src-is) (omega arith)) asked in
      (
        s₂,
        done,
        (
          ap (λ m. m.long f) mem-is ∙ ap m'.long (sym src-is) ∙ asker,
          ap (λ m. m.long (f + 4)) mem-is ∙ ap m'.long (sym msg-is) ∙ word ∙ v-is,
          ap (λ m. m.kernel) mem-is,
          rep₂,
        ),
      )

  sent :
      (e destination msgpt : ℕ) (mem : Ptr → ℕ) (k₁ : K) (s₁ s₂ : Ipc K)
      → mem destination ≡ a
      → do_intr_msg os rounds p' e 1 g
          (g + 4)
          (save g (record { eax = 1; ebx = a; ecx = mem msgpt }) (with_kernel k₁ s₁))
        ≡ some (1, s₂)
      → meanwhile_sends os rounds p' e g destination msgpt mem k₁ s₁ ≡ some s₂
  unfolding small_msg_send intr_msg
  sent e destination msgpt mem k₁ s₁ s₂ to h = rw (to, h) refl

  received :
      (e source msgpt ecx v : ℕ) (mem : Ptr → ℕ) (meanwhile : Ipc K → Option (Ipc K))
      (s₁ s₂ : Ipc K)
      → do_intr_msg os rounds p e 2 f
          (f + 4)
          (save f (record { eax = 2; ebx = mem source; ecx = ecx }) s)
        ≡ some (1, s₁)
      → meanwhile s₁ ≡ some s₂
      → s₂.mem.long f ≡ b
      → s₂.mem.long (f + 4) ≡ v
      → small_msg_receive (intr_msg os rounds p e f meanwhile) ecx source msgpt mem s
        ≡ some ((1, update (update mem msgpt v) source b), s₂)
  unfolding small_msg_receive intr_msg
  received e source msgpt ecx v mem meanwhile s₁ s₂ h then_s₂ from word =
      rw (h, then_s₂, from, word) refl

  -- A process `a` calls `small_msg_receive` for a message from `b` or from any, while no struct that waits
  -- has `a` or the source as its destination, and sleeps; then `b` sends to `a`. Where the queues have
  -- room, the frames of the two on their stacks in the kernel lie apart and the scheduler returns both
  -- times, both calls answer 1, `a` finds the message and the number of the sender where its pointers
  -- lead, and the queues hold those who waited before.
  pub small_msg_receive-small_msg_send :
      (e e' source msgpt ecx destination word : ℕ) (mem mem' : Ptr → ℕ) (k k₁ k₂ : K)
      → os.current_pid s.mem.kernel ≡ a
      → IsSource b (mem source)
      → NotFor a (mem source) s.mem l
      → os.schedule (os.set_state a sleeping s.mem.kernel) ≡ some k
      → mem' destination ≡ a
      → (f + 8 ≤ g) ⊎ (g + 8 ≤ f)
      → os.current_pid k₁ ≡ b
      → os.schedule (os.set_state a running k₁) ≡ some k₂
      → (s₂ : Ipc K) × (small_msg_receive
            (intr_msg os rounds p e f (meanwhile_sends os rounds p' e' g destination word mem' k₁))
            ecx
            source
            msgpt
            mem
            s
          ≡ some ((1, update (update mem msgpt (mem' word)) source b), s₂))
        × (s₂.mem.kernel ≡ k₂)
        × IsRep s₂ l
  unfolding Delivered
  small_msg_receive-small_msg_send e e' source msgpt ecx destination word mem mem' k k₁ k₂ is_a asks
        none_for next to apart is_b next' =
      let (s₁, first, is, rep) = receives e (mem source) ecx k is_a asks none_for next in
      let (s₂, second, (from, came, kernel-is, rep₂)) =
        sends e' (mem source) ecx (mem' word) k k₁ k₂ s₁ is rep asks none_for apart is_b next' in
      (
        s₂,
        received e source msgpt ecx (mem' word) mem
            (meanwhile_sends os rounds p' e' g destination word mem' k₁) s₁ s₂ first
            (sent e' destination word mem' k₁ s₁ s₂ to second) from came,
        kernel-is,
        unqueued-IsRep small_receives p s₂ l rep₂,
      )
