-- ===== src/Messaging/Start.antt =====
-- `msg_init` of kernel/messaging.c: the state that the calls start from.
use mks.Base.{
  ℕ, zero, suc, ◌+◌, ◌≤◌, ◌<◌, ◌≡◌, refl, sym, ◌∙◌, ap, ◌≢◌, arith, inl, inr, Bool-cases, ◌==◌,
  ==_true, [], update_self, update_ne,
}
use mks.Linked.{null, no_ends, Links, Ends}
use mks.Linked.Chain.{IsQueue}
use mks.Messaging.Store.{slot, nr_msg_hardware}
use mks.Messaging.Queues.{Ipc, clear_slots, msg_init}
use mks.Messaging.Lists.{Waiting}
use mks.Messaging.Rep.{IsRep}
use mks.Messaging.Refine.{IsMarked}

abbrev pub nobody_waits : Waiting
nobody_waits q = []

empty-IsQueue : (next : Links) (e : Ends) → e ≡ no_ends → IsQueue next e []
empty-IsQueue next e h = rw h (record { chain = refl; tail = refl; distinct = tt })

module _ {K : Type 0} where
  clear_slots-queue : (k i : ℕ) (s : Ipc K) → (clear_slots k i s).queue ≡ s.queue
  unfolding clear_slots
  clear_slots-queue zero i s = refl
  clear_slots-queue (suc k) i s = clear_slots-queue k (i + 1) _

  clear_slots-slots : (k i : ℕ) (s : Ipc K) → (clear_slots k i s).mem.slots ≡ s.mem.slots
  unfolding clear_slots
  clear_slots-slots zero i s = refl
  clear_slots-slots (suc k) i s = clear_slots-slots k (i + 1) _

  clear_slots-kernel : (k i : ℕ) (s : Ipc K) → (clear_slots k i s).mem.kernel ≡ s.mem.kernel
  unfolding clear_slots
  clear_slots-kernel zero i s = refl
  clear_slots-kernel (suc k) i s = clear_slots-kernel k (i + 1) _

  pub msg_init-kernel : (s : Ipc K) → (msg_init s).mem.kernel ≡ s.mem.kernel
  unfolding msg_init
  msg_init-kernel s = clear_slots-kernel nr_msg_hardware 0 (record s { queue = λ q. no_ends })

  pub msg_init-slots : (s : Ipc K) → (msg_init s).mem.slots ≡ s.mem.slots
  unfolding msg_init
  msg_init-slots s = clear_slots-slots nr_msg_hardware 0 (record s { queue = λ q. no_ends })

  -- The slots before `i` keep their source.
  clear_slots-below :
      (k i j : ℕ) (s : Ipc K)
      → j < i
      → (clear_slots k i s).mem.src (slot s.mem.slots j) ≡ s.mem.src (slot s.mem.slots j)
  unfolding clear_slots
  clear_slots-below zero i j s lt = refl
  clear_slots-below (suc k) i j s lt =
      clear_slots-below k (i + 1) j _ (omega arith)
      ∙ update_ne s.mem.src (slot s.mem.slots i) (slot s.mem.slots j) 0 (λ e. omega arith)

  clear_slots-src :
      (k i j : ℕ) (s : Ipc K)
      → i ≤ j
      → j < k + i
      → (clear_slots k i s).mem.src (slot s.mem.slots j) ≡ 0
  unfolding clear_slots
  clear_slots-src zero i j s lo hi = absurd (omega arith)
  clear_slots-src (suc k) i j s lo hi = elim (Bool-cases (j == i)) [
    | inl e ↦ rw (==_true j i e) (
        clear_slots-below k (i + 1) i _ (omega arith)
        ∙ update_self s.mem.src (slot s.mem.slots i) 0)
    | inr ne ↦ clear_slots-src k (i + 1) j _ (ground arith) (omega arith)
  ]

  -- After `msg_init` nobody waits in any queue, every slot for a hardware message is free, and, where
  -- the array does not lie at address 0, the state is one that the calls can start from: the pointers
  -- stand for four empty lists, and the slots are marked.
  pub msg_init-IsRep :
      (s : Ipc K)
      → s.mem.slots ≢ null
      → IsRep (msg_init s) nobody_waits
        × IsMarked (msg_init s).mem nobody_waits
        × ((i : ℕ) → i < nr_msg_hardware → (msg_init s).mem.src (slot s.mem.slots i) ≡ 0)
  unfolding msg_init
  msg_init-IsRep s ne = (
    record {
      at = λ q.
          empty-IsQueue _ _ (
            ap (λ f. f q)
              (clear_slots-queue nr_msg_hardware 0 (record s { queue = λ q. no_ends })));
      apart = λ q r p apart h. refl;
    },
    record {
      ne_null = λ e.
          ne (sym (clear_slots-slots nr_msg_hardware 0 (record s { queue = λ q. no_ends })) ∙ e);
      marked = λ q i lt h. ground arith;
    },
    λ i lt.
        clear_slots-src nr_msg_hardware 0 i (record s { queue = λ q. no_ends }) (omega arith)
          (omega arith),
  )
