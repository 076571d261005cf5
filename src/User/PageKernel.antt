-- ===== src/User/PageKernel.antt =====
-- A big message in this kernel: the scheduler of kernel/proc.c and the pages of kernel/memory.c under the
-- calls of lib/message.c.
use mks.Base.{ℕ, ◌+◌, ◌^◌, ◌<◌, ◌≤◌, ◌≡◌, ◌≢◌, refl, sym, true, some, arith, update}
use mks.Linked.{Ptr}
use mks.Memory.{Memory, is_present, table_entry}
use mks.Memory.Fault.{paging_memory, page_of}
use mks.Memory.Share.{Mapped, Shared, share_page-Shared}
use mks.Messaging.Store.{running, sleeping}
use mks.Messaging.Queues.{Ipc}
use mks.Messaging.Kernel.{Kernel, kernel_services}
use mks.Messaging.Big.{page_entry}
use mks.Messaging.Lists.{Waiting}
use mks.Messaging.Rep.{IsRep}
use mks.Proc.Table.{Procs}
use mks.Proc.Sound.{Ready, IsTable, IsSound}
use mks.Proc.Refine.{schedule-Outcome}
use mks.System.States.{with_state, with_state-IsTable, sleep-IsSound, wake-IsSound}
use mks.User.{intr_msg, big_msg_receive}
use mks.User.Entry.{get_msg_entry-inside}
use mks.User.Meeting.{NotFor, IsSource}
use mks.User.Delivery.{Room}
use mks.User.PageDelivery.{Frames, meanwhile_sends_page, big_msg_receive-big_msg_send}

-- The process `i` calls, and the scheduler can go on from here.
pub record Runs (i : ℕ) (k : Kernel) (r : Ready) : Type 0 where
  pub pid : k.0.pid k.0.proc_current ≡ i
  pub table : IsTable k.0
  pub sound : IsSound k.0 r

sleep-returns :
    (i : ℕ) (k : Kernel) (r : Ready)
    → Runs i k r
    → (k' : Kernel) × (kernel_services.schedule (kernel_services.set_state i sleeping k) ≡ some k')
sleep-returns i k r h =
    let s : Procs = with_state k.0 (k.0.proc i) sleeping in
    let here : k.0.proc i ≡ k.0.proc_current = rw (sym h.pid) h.table.current_at in
    let (after, is, outcome) =
      schedule-Outcome s r (with_state-IsTable k.0 (k.0.proc i) sleeping h.table)
        (rw here (sleep-IsSound k.0 r h.sound)) in
    ((after, k.1), rw is refl)

wake-returns :
    (i j : ℕ) (k : Kernel) (r : Ready) (m : Memory)
    → Runs i k r
    → (after : Procs) × (kernel_services.schedule (kernel_services.set_state j running (k.0, m))
        ≡ some (after, m))
wake-returns i j k r m h =
    let s : Procs = with_state k.0 (k.0.proc j) running in
    let (after, is, outcome) =
      schedule-Outcome s r (with_state-IsTable k.0 (k.0.proc j) running h.table)
        (wake-IsSound k.0 r (k.0.proc j) h.sound) in
    (after, rw is refl)

module _ (rounds a b : ℕ) (a_in : a < 64) (b_in : b < 64) (ne : a ≢ b) (p p' e e' f g : Ptr)
    (s : Ipc Kernel) (l : Waiting) (room : Room rounds s l p p') (frames : Frames e e' f g) where
  high_page : (w : ℕ) → 1 ≤ b → w + 0x2000 ≤ 0x400_0000 → paging_memory ≤ page_entry b w
  high_page w from fits = omega (arith, (get_msg_entry-inside b w b_in fits).3)

  -- A process `a` calls `big_msg_receive` for a message from `b` or from any, while no struct that waits has
  -- `a` or the source as its destination, and sleeps; then `b` sends a message of two pages inside its 64 MB
  -- to `a`, with its page present and a table there for the page of `a`. Where the process table and the
  -- ready queues are in order at both times, the queues have room and the frames of the two on their stacks
  -- in the kernel lie apart, both calls answer 1 and `a` finds the number of the sender. The entries of both
  -- pages then lead to the page of `b`, without the permission to write, and it has one user more; no other
  -- word and no other count has changed, and the queues hold those who waited before.
  pub big_msg_receive-Shared :
      (source v destination w : ℕ) (mem mem' : Ptr → ℕ) (k₁ : Kernel) (r r₁ : Ready)
      → Runs a s.mem.kernel r
      → IsSource b (mem source)
      → NotFor a (mem source) s.mem l
      → mem' destination ≡ a
      → Runs b k₁ r₁
      → 1 ≤ b
      → w + 0x2000 ≤ 0x400_0000
      → Mapped (page_entry b w) k₁.1
      → k₁.1.word (page_of (page_entry b w) k₁.1) < 2 ^ 32
      → is_present (k₁.1.word (table_entry (page_entry a v))) ≡ true
      → (s₂ : Ipc Kernel) × (big_msg_receive
            (intr_msg kernel_services rounds p e f
              (meanwhile_sends_page kernel_services rounds p' e' g destination w mem' k₁))
            source
            v
            mem
            s
          ≡ some ((1, update mem source b), s₂))
        × Shared
            (page_of (page_entry b w) k₁.1)
            (page_of (page_entry a v) k₁.1)
            (k₁.1.word (page_of (page_entry b w) k₁.1))
            k₁.1
            s₂.mem.kernel.1
        × IsRep s₂ l
  big_msg_receive-Shared source v destination w mem mem' k₁ r r₁ runs asks none_for to runs' from
        inside mapped fits table =
      let (k, next) = sleep-returns a s.mem.kernel r runs in
      let (m', is, shared) =
        share_page-Shared (page_entry b w) (page_entry a v) k₁.1 (high_page w from inside) mapped
          fits table in
      let (after, next') = wake-returns b a k₁ r₁ m' runs' in
      let given : kernel_services.share_page (page_entry b w) (page_entry a v) k₁
          ≡ some (k₁.0, m') =
        rw is refl in
      let (s₂, done, kernel-is, rep) =
        big_msg_receive-big_msg_send kernel_services rounds a b a_in b_in ne p p' e e' f g s l room
          frames source v destination w mem mem' k k₁ (k₁.0, m') (after, m') runs.pid asks none_for
          next to runs'.pid given next' in
      (s₂, done, rw kernel-is shared, rep)
