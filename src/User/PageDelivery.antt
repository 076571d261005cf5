-- ===== src/User/PageDelivery.antt =====
-- A process that asks for a big message gets a page from one that sends it, with the calls of
-- lib/message.c at both ends.
use mks.Base.{
  ℕ, ◌+◌, ◌<◌, ◌≤◌, ◌≡◌, ◌≢◌, ◌⊎◌, inl, inr, refl, sym, ◌∙◌, ap, arith, true, false, Option, none,
  some, ◌==◌, if◌then◌else◌, update, update_ne, update_self, has, ◌>>=◌,
}
use mks.Linked.{Ptr}
use mks.Messaging.Store.{Services, Store, msg_any, running, sleeping, fill, resolve_any}
use mks.Messaging.Queues.{Ipc, Name, big_receives}
use mks.Messaging.Big.{page_entry, do_intr_msg}
use mks.Messaging.Lists
use mks.Messaging.Lists.{Waiting, set_list}
use mks.Messaging.Rep.{IsRep}
use mks.Messaging.Refine.{IsMarked, IsShort}
use mks.Messaging.Refine.Interrupt.{do_intr_msg_on_lists}
use mks.User.{intr_msg, save, big_msg_send, big_msg_receive}
use mks.User.Meeting.{NotFor, IsSource, queued}
use mks.User.PageMeeting.{with_entry, big_receive-waits, big_send-serves}
use mks.User.Queued.{Refines-some, unqueued-IsRep, queued-IsShort, queued-IsFree, queued-IsMarked}
use mks.User.Delivery.{Room, with_kernel}

-- The words that `intr_msg` pushes for the two, from `f` and `g` on, and their locals `entry` at `e` and `e'`.
pub record Frames (e e' f g : Ptr) : Type 0 where
  pub apart : (f + 8 ≤ g) ⊎ (g + 8 ≤ f)
  pub own : e ≢ f
  pub own' : e' ≢ g
  pub other : e' ≢ f

-- What happens until the receiver goes on: in the kernel's state `k₁` the other process sends the page.
abbrev pub meanwhile_sends_page :
    {K : Type 0} (os : Services K) (rounds : ℕ) (p' e g destination msgpt : Ptr) (mem : Ptr → ℕ)
    (k₁ : K)
    → Ipc K
    → Option (Ipc K)
meanwhile_sends_page os rounds p' e g destination msgpt mem k₁ s₁ =
    big_msg_send (intr_msg os rounds p' e g some) destination msgpt mem (with_kernel k₁ s₁) >>= λ r.
    if r.0 == 1 then some r.1 else none

-- Who asked for `b` or for any finds `b`.
resolve_any-source :
    {K : Type 0} (b p : ℕ) (m : Store K)
    → b < 64
    → IsSource b (m.long p)
    → (resolve_any m p b).long p ≡ b
unfolding resolve_any
resolve_any-source b p m b_in (inl e) =
    let not_any : (b == msg_any) ≡ false = ground arith in rw (e, not_any) e
resolve_any-source b p m b_in (inr e) = rw e (update_self m.long p b)

module _ {K : Type 0} (os : Services K) (rounds a b : ℕ) (a_in : a < 64) (b_in : b < 64)
    (ne : a ≢ b) (p p' e e' f g : Ptr) (s : Ipc K) (l : Waiting) (room : Room rounds s l p p')
    (frames : Frames e e' f g) where
  -- The state in which `a` sleeps and its struct is filled.
  abbrev asleep : ℕ → ℕ → K → Store K
  asleep from v k =
      record (fill (with_entry a e (f + 4) (save f (record { eax = 4; ebx = from; ecx = v }) s).mem)
        p f a (page_entry a v)) { kernel = k }

  receives :
      (from v : ℕ) (k : K)
      → os.current_pid s.mem.kernel ≡ a
      → IsSource b from
      → NotFor a from s.mem l
      → os.schedule (os.set_state a sleeping s.mem.kernel) ≡ some k
      → (s₁ : Ipc K) × (do_intr_msg os rounds p e 4 f
            (f + 4)
            (save f (record { eax = 4; ebx = from; ecx = v }) s)
          ≡ some (1, s₁))
        × (s₁.mem ≡ asleep from v k)
        × IsRep s₁ (queued big_receives p l)
  unfolding save
  receives from v k is_a source none_for next =
      let s' : Ipc K = save f (record { eax = 4; ebx = from; ecx = v }) s in
      let f-is : s'.mem.long f ≡ from = update_self (update s.mem.long (f + 4) v) f from in
      let v-is : s'.mem.long (f + 4) ≡ v =
        update_ne (update s.mem.long (f + 4) v) f (f + 4) from (omega arith)
        ∙ update_self s.mem.long (f + 4) v in
      let spec : Lists.do_intr_msg os p e 4 f (f + 4) s'.mem l
          ≡ some (1, asleep from v k, queued big_receives p l) =
        big_receive-waits os a b a_in b_in ne p e f s'.mem l k is_a (rw f-is source) frames.own
          (rw f-is none_for) next
        ∙ rw v-is refl in
      let short : IsShort rounds l = λ q. omega (arith, room.short q) in
      let marked : IsMarked s'.mem l = record {
        ne_null = room.marked.ne_null;
        marked = room.marked.marked;
      } in
      Refines-some _ _ _ (
        rw (sym spec)
          (do_intr_msg_on_lists os rounds p e 4 f (f + 4) s' l room.rep short marked room.free))

  not_queued : (x : Ptr) (q : Name) → has x (l q) ≡ true → x ≢ p
  not_queued x q h = ground (arith, room.free.absent q)

  sends :
      (from v w : ℕ) (k k₁ k' k₂ : K) (s₁ : Ipc K)
      → s₁.mem ≡ asleep from v k
      → IsRep s₁ (queued big_receives p l)
      → IsSource b from
      → NotFor a from s.mem l
      → os.current_pid k₁ ≡ b
      → os.share_page (page_entry b w) (page_entry a v) k₁ ≡ some k'
      → os.schedule (os.set_state a running k') ≡ some k₂
      → (s₂ : Ipc K) × (do_intr_msg os rounds p' e' 3 g
            (g + 4)
            (save g (record { eax = 3; ebx = a; ecx = w }) (with_kernel k₁ s₁))
          ≡ some (1, s₂))
        × (s₂.mem.long f ≡ b)
        × (s₂.mem.kernel ≡ k₂)
        × IsRep s₂ (set_list (queued big_receives p l) big_receives (l big_receives))
  unfolding save fill
  sends from v w k k₁ k' k₂ s₁ is rep source none_for is_b shared next =
      let t : Ipc K = save g (record { eax = 3; ebx = a; ecx = w }) (with_kernel k₁ s₁) in
      let g-is : t.mem.long g ≡ a = update_self (update s₁.mem.long (g + 4) w) g a in
      let w-is : t.mem.long (g + 4) ≡ w =
        update_ne (update s₁.mem.long (g + 4) w) g (g + 4) a (omega arith)
        ∙ update_self s₁.mem.long (g + 4) w in
      let dest-is : t.mem.dest p ≡ a = ap (λ m. m.dest p) is ∙ update_self s.mem.dest p a in
      let src-is : t.mem.src p ≡ f = ap (λ m. m.src p) is ∙ update_self s.mem.src p f in
      let msg-is : t.mem.msg p ≡ page_entry a v =
        ap (λ m. m.msg p) is ∙ update_self s.mem.msg p (page_entry a v) in
      let long-is : t.mem.long f ≡ from =
        update_ne (update s₁.mem.long (g + 4) w) g f a (omega (arith, frames.apart))
        ∙ update_ne s₁.mem.long (g + 4) f w (omega (arith, frames.apart))
        ∙ ap (λ m. m.long f) is
        ∙ update_ne _ e f _ (λ q. frames.own (sym q))
        ∙ update_self (update s.mem.long (f + 4) v) f from in
      let asked : IsSource b (t.mem.long (t.mem.src p)) = rw (src-is, long-is) source in
      let others : (x : Ptr) → has x (l big_receives) ≡ true → t.mem.dest x ≢ a = λ x i.
        rw (is, update_ne s.mem.dest p x a (not_queued x big_receives i))
          (none_for big_receives x i).0 in
      let given : Store K = with_entry b e' (g + 4) t.mem in
      let m' : Store K = record (resolve_any given (t.mem.src p) b) { kernel = k₂ } in
      let spec : Lists.do_intr_msg os p' e' 3 g (g + 4) t.mem (queued big_receives p l)
          ≡ some (1, m', set_list (queued big_receives p l) big_receives (l big_receives)) =
        big_send-serves os a b a_in b_in ne p' p e' g t.mem l k' k₂ is_b g-is frames.own'
          (rw src-is frames.other) dest-is asked others (rw (w-is, msg-is) shared) next in
      let (s₂, done, mem-is, rep₂) =
        Refines-some (do_intr_msg os rounds p' e' 3 g (g + 4) t) m'
          (set_list (queued big_receives p l) big_receives (l big_receives))
          (rw (sym spec) (
            do_intr_msg_on_lists os rounds p' e' 3 g (g + 4) t (queued big_receives p l) rep
              (queued-IsShort big_receives rounds p l room.short)
              (queued-IsMarked big_receives p f s.mem t.mem l room.marked room.no_slot
                (ap (λ m. m.slots) is) (ap (λ m. m.src) is))
              (queued-IsFree big_receives p' p l room.free' room.two))) in
      let asked' : IsSource b (given.long f) =
        rw (update_ne t.mem.long e' f _ (λ q. frames.other (sym q)), long-is) source in
      let found : (resolve_any given (t.mem.src p) b).long f ≡ b =
        rw src-is (resolve_any-source b f given b_in asked') in
      (s₂, done, ap (λ m. m.long f) mem-is ∙ found, ap (λ m. m.kernel) mem-is, rep₂)

  sent :
      (destination w : ℕ) (mem : Ptr → ℕ) (k₁ : K) (s₁ s₂ : Ipc K)
      → mem destination ≡ a
      → do_intr_msg os rounds p' e' 3 g
          (g + 4)
          (save g (record { eax = 3; ebx = a; ecx = w }) (with_kernel k₁ s₁))
        ≡ some (1, s₂)
      → meanwhile_sends_page os rounds p' e' g destination w mem k₁ s₁ ≡ some s₂
  unfolding big_msg_send intr_msg
  sent destination w mem k₁ s₁ s₂ to h = rw (to, h) refl

  received :
      (source v : ℕ) (mem : Ptr → ℕ) (meanwhile : Ipc K → Option (Ipc K)) (s₁ s₂ : Ipc K)
      → do_intr_msg os rounds p e 4 f
          (f + 4)
          (save f (record { eax = 4; ebx = mem source; ecx = v }) s)
        ≡ some (1, s₁)
      → meanwhile s₁ ≡ some s₂
      → s₂.mem.long f ≡ b
      → big_msg_receive (intr_msg os rounds p e f meanwhile) source v mem s
        ≡ some ((1, update mem source b), s₂)
  unfolding big_msg_receive intr_msg
  received source v mem meanwhile s₁ s₂ h then_s₂ from = rw (h, then_s₂, from) refl

  -- Where the page of the message is shared, the calls at both ends answer 1.
  pub big_msg_receive-big_msg_send :
      (source v destination w : ℕ) (mem mem' : Ptr → ℕ) (k k₁ k' k₂ : K)
      → os.current_pid s.mem.kernel ≡ a
      → IsSource b (mem source)
      → NotFor a (mem source) s.mem l
      → os.schedule (os.set_state a sleeping s.mem.kernel) ≡ some k
      → mem' destination ≡ a
      → os.current_pid k₁ ≡ b
      → os.share_page (page_entry b w) (page_entry a v) k₁ ≡ some k'
      → os.schedule (os.set_state a running k') ≡ some k₂
      → (s₂ : Ipc K) × (big_msg_receive
            (intr_msg os rounds p e f
              (meanwhile_sends_page os rounds p' e' g destination w mem' k₁))
            source
            v
            mem
            s
          ≡ some ((1, update mem source b), s₂))
        × (s₂.mem.kernel ≡ k₂)
        × IsRep s₂ l
  big_msg_receive-big_msg_send source v destination w mem mem' k k₁ k' k₂ is_a asks none_for next to
        is_b shared next' =
      let (s₁, first, is, rep) = receives (mem source) v k is_a asks none_for next in
      let (s₂, second, from, kernel-is, rep₂) =
        sends (mem source) v w k k₁ k' k₂ s₁ is rep asks none_for is_b shared next' in
      (
        s₂,
        received source v mem (meanwhile_sends_page os rounds p' e' g destination w mem' k₁) s₁ s₂
            first (sent destination w mem' k₁ s₁ s₂ to second) from,
        kernel-is,
        unqueued-IsRep big_receives p s₂ l rep₂,
      )
