-- ===== src/System/Message.antt =====
-- The interrupt for messages, `do_intr_msg` of kernel/messaging.c, with the scheduler and the memory of this
-- kernel.
use mks.Base.{ℕ, ◌≡◌, ◌≢◌, refl, sym, ◌==◌, Distinct, none, some}
use mks.Linked.{Ptr, null}
use mks.Memory.{Memory}
use mks.Memory.Fault.{share_page}
use mks.Messaging.Store.{Store, write_long}
use mks.Messaging.Queues.{Name, Ipc, Reply}
use mks.Messaging.Kernel.{Kernel, kernel_services}
use mks.Messaging.Big.{page_entry, do_intr_msg}
use mks.Messaging.Lists
use mks.Messaging.Lists.{Waiting, Answer}
use mks.Messaging.Rep.{IsRep}
use mks.Messaging.Refine.{Refines}
use mks.Messaging.Refine.Interrupt.{do_intr_msg_on_lists}
use mks.Proc.Sound.{Ready}
use mks.System.Calm.{procs, Calm, with_words-Rested}
use mks.System.Calm.Sleep.{absent}
use mks.System.Settled.{Settled, settles, no_page, if-Settled, calm-IsShort, calm-IsMarked, alone}
use mks.System.Calls.{
  small_send-Settled, small_receive-Settled, big_send-Settled, big_receive-Settled,
}

-- The kernel is in order: the pointers of the queues stand for the lists, and it is calm.
pub record Steady (owner : Ptr → ℕ) (s : Ipc Kernel) (l : Waiting) (r : Ready) : Type 0 where
  pub rep : IsRep s l
  pub calm : Calm owner s.mem l r

-- The call returns with the kernel in order, or a page that is to be shared is missing.
pub data Left (owner : Ptr → ℕ) (mem : Memory) (o : Reply Kernel) : Type 0 where
  returns :
      (a : ℕ) (s : Ipc Kernel) (l : Waiting) (r : Ready)
      → o ≡ some (a, s)
      → Steady owner s l r
      → Left owner mem o
  no_memory : (from to : ℕ) → share_page from to mem ≡ none → o ≡ none → Left owner mem o

-- How many structs a loop along a queue can meet, and one round more.
abbrev pub rounds : ℕ
rounds = 65

module _ (owner : Ptr → ℕ) where
  Settled-Left :
      (mem : Memory) (o : Reply Kernel) (a : Answer Kernel)
      → Refines o a
      → Settled owner mem a
      → Left owner mem o
  Settled-Left mem o a h (settles v m l r e c) = go o (rw (sym e) h)
    where
      go : (o : Reply Kernel) → Refines o (some (v, m, l)) → Left owner mem o
      go none k = absurd k
      go (some (w, s)) (same, is, rep) = returns w s l r refl (record { rep = rep; calm = rw is c })
  Settled-Left mem o a h (no_page from to e f) = go o (rw (sym f) h)
    where
      go : (o : Reply Kernel) → Refines o none → Left owner mem o
      go none k = no_memory from to e refl
      go (some (w, s)) k = absurd k

  module _ (s : Ipc Kernel) (l : Waiting) (r : Ready) (w : Steady owner s l r) (p : Ptr)
      (mine : owner p ≡ (procs s.mem).pid (procs s.mem).proc_current) (no_idle : owner p ≢ 0) where
    Lists-Settled :
        (entry : Ptr) (function : ℕ) (src_dest msg : Ptr)
        → Settled owner s.mem.kernel.1
            (Lists.do_intr_msg kernel_services p entry function src_dest msg s.mem l)
    unfolding Lists.do_intr_msg
    Lists-Settled entry function src_dest msg =
        let m = s.mem in
        let h = w.calm in
        let pages = m.kernel.1 in
        let pid = (procs m).pid (procs m).proc_current in
        let distinct : (q : Name) → Distinct (l q) = λ q. (w.rep.at q).distinct in
        let lone = alone owner m l r h.rested s refl w.rep in
        let m' : Store Kernel = write_long m entry (page_entry pid (m.long msg)) in
        let h' : Calm owner m' l r = record {
          rested = with_words-Rested owner m l r m'.long pages h.rested;
          runs = h.runs;
        } in
        let refused = settles _ m l r refl h in
        if-Settled owner pages (pid == m.long src_dest) _ _ refused (
          if-Settled owner pages (function == 1) _ _
            (small_send-Settled owner m l r h distinct lone p mine no_idle src_dest msg)
            (if-Settled owner pages (function == 2) _ _
              (small_receive-Settled owner m l r h distinct lone p mine no_idle src_dest msg)
              (if-Settled owner pages (function == 3) _ _
                (big_send-Settled owner m' l r h' distinct lone p mine no_idle src_dest entry)
                (if-Settled owner pages (function == 4) _ _
                  (big_receive-Settled owner m' l r h' distinct lone p mine no_idle src_dest entry)
                  refused))))

    -- Where the kernel is in order, and the running process, which is not process 0, raises the interrupt for a
    -- message with a struct on its own kernel stack: for every function, source or destination and message the
    -- interrupt ends with the kernel in order, unless a page of memory is to be shared and the sharing does not end.
    pub do_intr_msg-Left :
        (entry : Ptr) (function : ℕ) (src_dest msg : Ptr)
        → p ≢ null
        → Left owner s.mem.kernel.1
            (do_intr_msg kernel_services rounds p entry function src_dest msg s)
    do_intr_msg-Left entry function src_dest msg np =
        Settled-Left s.mem.kernel.1 _ _
          (do_intr_msg_on_lists kernel_services rounds p entry function src_dest msg s l w.rep
            (calm-IsShort owner s.mem l r w.calm.rested s refl w.rep)
            (calm-IsMarked owner s.mem l r w.calm.rested s refl w.rep)
            (record { ne_null = np; absent = absent owner s.mem l r w.calm p mine no_idle }))
          (Lists-Settled entry function src_dest msg)
