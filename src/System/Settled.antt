-- ===== src/System/Settled.antt =====
-- What a call of kernel/messaging.c comes to, over lists: the kernel is calm again.
use mks.Base.{
  ℕ, ◌≡◌, ◌≢◌, ◌≤◌, refl, sym, Bool, true, false, none, some, List, arith, length, has, Distinct,
  length-le_of_names, if◌then◌else◌,
}
use mks.Linked.{Ptr}
use mks.Memory.{Memory}
use mks.Memory.Fault.{share_page}
use mks.Messaging.Store.{Store, slot, running, nr_procs}
use mks.Messaging.Queues.{Name, same, set_state, Ipc}
use mks.Messaging.Kernel.{Kernel, kernel_services}
use mks.Messaging.Lists.{Waiting, Answer, set_list, take_first, serve, yield_cpu}
use mks.Messaging.Rep.{IsRep}
use mks.Messaging.Refine.{IsMarked, IsShort}
use mks.Proc.Sound.{Ready}
use mks.System.Runs.{schedule-Scheduled}
use mks.System.Taken.{Taken, nobody, member, take_first-Taken}
use mks.System.Calm.{waiter, procs, Rested, Calm, with_words-Rested, schedule-Calm}
use mks.System.Calm.Wake.{wake-Rested}

module _ (owner : Ptr → ℕ) where
  -- The call answers and the kernel is calm, or a page that is to be shared is missing.
  pub data Settled (mem : Memory) (o : Answer Kernel) : Type 0 where
    settles :
        (a : ℕ) (m : Store Kernel) (l : Waiting) (r : Ready)
        → o ≡ some (a, m, l)
        → Calm owner m l r
        → Settled mem o
    no_page : (from to : ℕ) → share_page from to mem ≡ none → o ≡ none → Settled mem o

  pub if-Settled :
      (mem : Memory) (b : Bool) (x y : Answer Kernel)
      → Settled mem x
      → Settled mem y
      → Settled mem (if b then x else y)
  if-Settled mem true x y h k = h
  if-Settled mem false x y h k = k

  pub yield_cpu-Settled :
      (mem : Memory) (m : Store Kernel) (l : Waiting) (r : Ready)
      → Rested owner m l r
      → Settled mem (yield_cpu kernel_services m l)
  unfolding yield_cpu
  yield_cpu-Settled mem m l r h =
      let c = schedule-Scheduled (procs m) r h.table h.sound in
      settles 1 (record m { kernel = (c.after, m.kernel.1) }) l c.waiting (rw c.is refl)
        (schedule-Calm owner m l r h c)

  pub serve-Settled :
      (mem : Memory) (test : Ptr → Bool) (xs : List Ptr) (a : Answer Kernel)
      (b : Ptr → List Ptr → Answer Kernel)
      → Distinct xs
      → Settled mem a
      → ((p : Ptr) (rest : List Ptr)
          → has p xs ≡ true
          → ((x : Ptr) → has x rest ≡ true → (has x xs ≡ true) × (x ≢ p))
          → Settled mem (b p rest))
      → Settled mem (serve (take_first test xs) a b)
  serve-Settled mem test xs a b d h k = go (take_first-Taken test xs d)
    where
      go : Taken test xs (take_first test xs) → Settled mem (serve (take_first test xs) a b)
      go (nobody e) = rw e h
      go (member p rest e i others) = rw e (k p rest i others)

  module _ (m : Store Kernel) (l : Waiting) (r : Ready) (h : Rested owner m l r) (s : Ipc Kernel)
      (is : s.mem ≡ m) (rep : IsRep s l) where
    pub calm-IsShort : IsShort 65 l
    calm-IsShort q =
        let le : length (l q) ≤ nr_procs =
          length-le_of_names owner nr_procs (l q) (rep.at q).distinct
            (λ a b i k e. h.once q q a b i k e) (λ a i. (h.blocked q a i).below) in
        omega arith

    pub calm-IsMarked : IsMarked m l
    calm-IsMarked = record {
      ne_null = h.slots_there;
      marked =
          λ q i lt k. absurd (omega (arith, h.slots i lt, (h.blocked q (slot m.slots i) k).below));
    }

    pub alone : (q t : Name) (p : Ptr) → has p (l q) ≡ true → same t q ≡ false → has p (l t) ≡ false
    alone q t p i ne = rep.apart q t p (other q t ne) i
      where
        other : (q t : Name) → same t q ≡ false → same q t ≡ false
        other q t e = ground arith

  -- The receiver or the sender `p` that was found wakes, once words have been written.
  pub served-Settled :
      (mem mem' : Memory) (m : Store Kernel) (l : Waiting) (r : Ready) (q : Name) (p : Ptr)
      (rest : List Ptr) (f : Ptr → ℕ)
      → Rested owner m l r
      → has p (l q) ≡ true
      → ((x : Ptr) → has x rest ≡ true → (has x (l q) ≡ true) × (x ≢ p))
      → ((t : Name) → same t q ≡ false → has p (l t) ≡ false)
      → Settled mem (
          yield_cpu kernel_services
            (set_state kernel_services
              (waiter q m p)
              running
              (record m { long = f; kernel = (procs m, mem') }))
            (set_list l q rest))
  served-Settled mem mem' m l r q p rest f h i others lone =
      let w : Rested owner (record m { long = f; kernel = (procs m, mem') }) l r =
        with_words-Rested owner m l r f mem' h in
      rw (sym (h.blocked q p i).pid) (
        yield_cpu-Settled mem _ (set_list l q rest) r
          (wake-Rested owner _ l r q p rest w i others lone))
