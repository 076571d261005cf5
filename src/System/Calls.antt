-- ===== src/System/Calls.antt =====
-- The four calls of kernel/messaging.c, over lists, leave the kernel calm.
use mks.Base.{
  ℕ, ◌≡◌, ◌≢◌, refl, inl, inr, Bool-cases, ◌==◌, true, false, Option-cases, ◌∷◌, ◌++◌, [], arith,
  has, Distinct, update_self, ◌>>=◌,
}
use mks.Linked.{Ptr}
use mks.Memory.{Memory}
use mks.Memory.Fault.{share_page}
use mks.Messaging.Store.{
  Store, fill, sleeping, msg_any, msg_hardware, is_bad_pid, is_bad_sender, is_bad_source,
  is_bad_big_source, write_long, resolve_any, takes, offers,
}
use mks.Messaging.Queues.{
  Name, same, set_state, small_sends, small_receives, big_sends, big_receives,
}
use mks.Messaging.Kernel.{Kernel, kernel_services}
use mks.Messaging.Small.{new_struct, send_clashes, receive_clashes}
use mks.Messaging.Big.{big_send_clashes, big_receive_clashes}
use mks.Messaging.Lists
use mks.Messaging.Lists.{Waiting, Answer, any_clash, set_list, refuse}
use mks.Proc.Sound.{Ready}
use mks.System.Calm.{of_senders, procs, Calm}
use mks.System.Calm.Sleep.{sleep-Rested}
use mks.System.Settled.{
  Settled, settles, no_page, if-Settled, yield_cpu-Settled, serve-Settled, served-Settled,
}

-- The answer for "any" changes one word at most.
resolve_any-long :
    {K : Type 0} (m : Store K) (p v : ℕ)
    → resolve_any m p v ≡ record m { long = (resolve_any m p v).long }
unfolding resolve_any
resolve_any-long m p v = elim (Bool-cases (m.long p == msg_any)) [
  | inl e ↦ rw e refl
  | inr e ↦ rw e refl
]

module _ (owner : Ptr → ℕ) (m : Store Kernel) (l : Waiting) (r : Ready) (h : Calm owner m l r)
    (distinct : (q : Name) → Distinct (l q))
    (lone : (q t : Name) (p : Ptr) → has p (l q) ≡ true → same t q ≡ false → has p (l t) ≡ false)
    (p : Ptr) (mine : owner p ≡ (procs m).pid (procs m).proc_current) (no_idle : owner p ≢ 0) where
  abbrev me : ℕ
  me = (procs m).pid (procs m).proc_current

  abbrev pages : Memory
  pages = m.kernel.1

  refuse-Settled : Settled owner pages (refuse m l)
  refuse-Settled = settles _ m l r refl h

  me_no_hardware : (me == msg_hardware) ≡ false
  me_no_hardware = ground (arith, h.table.current_below)

  fill-src : (s d v : ℕ) → (fill m p s d v).src p ≡ s
  unfolding fill
  fill-src s d v = update_self m.src p s

  fill-dest : (s d v : ℕ) → (fill m p s d v).dest p ≡ d
  unfolding fill
  fill-dest s d v = update_self m.dest p d

  -- The caller waits with its struct, as a sender or as a receiver.
  wait_send-Settled :
      (q : Name) (d v : ℕ)
      → of_senders q ≡ true
      → Settled owner pages (
          Lists.yield_cpu kernel_services
            (set_state kernel_services me sleeping (fill m p me d v))
            (set_list l q (l q ++ p ∷ [])))
  wait_send-Settled q d v e =
      yield_cpu-Settled owner pages _ _ r
        (sleep-Rested owner m l r h p mine no_idle q me d v (rw e (fill-src me d v)))

  wait_receive-Settled :
      (q : Name) (s v : ℕ)
      → of_senders q ≡ false
      → Settled owner pages (
          Lists.yield_cpu kernel_services
            (set_state kernel_services me sleeping (fill m p s me v))
            (set_list l q (l q ++ p ∷ [])))
  wait_receive-Settled q s v e =
      yield_cpu-Settled owner pages _ _ r
        (sleep-Rested owner m l r h p mine no_idle q s me v (rw e (fill-dest s me v)))

  pub small_send-Settled :
      (dest msg : Ptr) → Settled owner pages (Lists.small_send kernel_services p me dest msg m l)
  unfolding Lists.small_send Lists.small_send_idle new_struct Lists.delivered set_state
  small_send-Settled dest msg = if-Settled owner pages (is_bad_sender me) _ _ refuse-Settled (
      if-Settled owner pages (is_bad_pid (m.long dest)) _ _ refuse-Settled (
        serve-Settled owner pages (takes m me (m.long dest)) (l small_receives) _ _
          (distinct small_receives)
          (rw me_no_hardware (
            if-Settled owner pages (any_clash (send_clashes me (m.long dest) m) l) _ _
              refuse-Settled (wait_send-Settled small_sends (m.long dest) (m.long msg) refl)))
          (λ a rest i others.
            let m' : Store Kernel = write_long m (m.msg a) (m.long msg) in
            rw (resolve_any-long m' (m.src a) me) (
              served-Settled owner pages pages m l r small_receives a rest
                (resolve_any m' (m.src a) me).long h.rested i others
                (λ t. lone small_receives t a i)))))

  no_hardware : (a : Ptr) → has a (l small_sends) ≡ true → (m.src a == msg_hardware) ≡ false
  no_hardware a i =
      ground (arith, (h.blocked small_sends a i).pid, (h.blocked small_sends a i).below)

  pub small_receive-Settled :
      (src msg : Ptr) → Settled owner pages (Lists.small_receive kernel_services p src me msg m l)
  unfolding Lists.small_receive Lists.small_receive_idle Lists.collected set_state
  small_receive-Settled src msg =
      if-Settled owner pages (is_bad_source (m.long src)) _ _ refuse-Settled (
        if-Settled owner pages (is_bad_pid me) _ _ refuse-Settled (
          serve-Settled owner pages (offers m (m.long src) me) (l small_sends) _ _
            (distinct small_sends)
            (if-Settled owner pages (any_clash (receive_clashes (m.long src) me m) l) _ _
              refuse-Settled (wait_receive-Settled small_receives src msg refl))
            (λ a rest i others.
              let m' : Store Kernel = write_long m msg (m.msg a) in
              rw (resolve_any-long m' src (m.src a), no_hardware a i)
                (served-Settled owner pages pages m l r small_sends a rest
                  (resolve_any m' src (m.src a)).long h.rested i others
                  (λ t. lone small_sends t a i)))))

  -- The page is shared before the process that was found wakes.
  shared-Settled :
      (from to : ℕ) (f : Kernel → Answer Kernel)
      → ((mem : Memory) → Settled owner pages (f (procs m, mem)))
      → Settled owner pages (kernel_services.share_page from to m.kernel >>= f)
  shared-Settled from to f k = elim (Option-cases (share_page from to pages)) [
    | inl e ↦ no_page from to e (rw e refl)
    | inr (mem, e) ↦ rw e (k mem)
  ]

  pub big_send-Settled :
      (dest msg : Ptr) → Settled owner pages (Lists.big_send kernel_services p me dest msg m l)
  unfolding Lists.big_send Lists.big_send_idle Lists.big_delivered set_state
  big_send-Settled dest msg = if-Settled owner pages (is_bad_pid me) _ _ refuse-Settled (
      if-Settled owner pages (is_bad_pid (m.long dest)) _ _ refuse-Settled (
        serve-Settled owner pages (takes m me (m.long dest)) (l big_receives) _ _
          (distinct big_receives)
          (if-Settled owner pages (any_clash (big_send_clashes me dest m) l) _ _ refuse-Settled
            (wait_send-Settled big_sends (m.long dest) (m.long msg) refl))
          (λ a rest i others. shared-Settled (m.long msg) (m.msg a) _ λ mem.
            let m' : Store Kernel = record m { kernel = (procs m, mem) } in
            rw (resolve_any-long m' (m.src a) me) (
              served-Settled owner pages mem m l r big_receives a rest
                (resolve_any m' (m.src a) me).long h.rested i others
                (λ t. lone big_receives t a i)))))

  pub big_receive-Settled :
      (src msg : Ptr) → Settled owner pages (Lists.big_receive kernel_services p src me msg m l)
  unfolding Lists.big_receive Lists.big_receive_idle Lists.big_collected set_state
  big_receive-Settled src msg =
      if-Settled owner pages (is_bad_big_source (m.long src)) _ _ refuse-Settled (
        if-Settled owner pages (is_bad_pid me) _ _ refuse-Settled (
          serve-Settled owner pages (offers m (m.long src) me) (l big_sends) _ _
            (distinct big_sends)
            (if-Settled owner pages (any_clash (big_receive_clashes (m.long src) me m) l) _ _
              refuse-Settled (wait_receive-Settled big_receives src (m.long msg) refl))
            (λ a rest i others. shared-Settled (m.msg a) (m.long msg) _ λ mem.
              let m' : Store Kernel = record m { kernel = (procs m, mem) } in
              rw (resolve_any-long m' src (m.src a)) (
                served-Settled owner pages mem m l r big_sends a rest
                  (resolve_any m' src (m.src a)).long h.rested i others
                  (λ t. lone big_sends t a i)))))
