-- ===== src/Messaging/Examples.antt =====
-- The calls of kernel/messaging.c on queues in which one process waits to send a small message and
-- another to receive one.

use mks.Base.{ℕ, ◌<◌, ◌≡◌, refl, false, [], ◌∷◌, arith, ◌==◌, if◌then◌else◌, has}
use mks.Linked.{null, ends, no_ends}
use mks.Linked.Chain.{IsQueue}
use mks.Memory.{Memory}
use mks.Messaging.Store.{slot, nr_msg_hardware, Store, msg_any}
use mks.Messaging.Queues.{msg_init, Name, small_sends, small_receives, big_sends, big_receives, Ipc}
use mks.Messaging.Small.{small_send, small_receive}
use mks.Messaging.Big.{do_intr_msg, big_send, big_receive}
use mks.Messaging.Kernel.{Kernel, kernel_services}
use mks.Messaging.Spec
use mks.Messaging.Lists.{Waiting}
use mks.Messaging.Rep.{IsRep}
use mks.Messaging.Start.{nobody_waits, msg_init-IsRep}
use mks.Messaging.Refine.Interrupt.{do_intr_msg-Refines}
use mks.Messaging.Refine.{Refines, IsFree, IsMarked, IsShort}
use mks.Messaging.Refine.SmallSend.{small_send-Refines}
use mks.Messaging.Refine.SmallReceive.{small_receive-Refines}
use mks.Messaging.Refine.Big.{big_send-Refines, big_receive-Refines}
use mks.Proc.Examples.{busy}
use mks.Messaging.Failure.{Answers, do_intr_msg-Answers}

abbrev memory : Memory
memory = record { word = λ a. 7; mem_map = λ i. 0; high_memory = 0x400_0000 }

-- The struct 0x5000 offers 42 from process 3 to process 2, and 0x6000 waits for any message to
-- process 1, its source at 0x7000 and its place at 0x7004.
abbrev store : Store Kernel
store = record {
  long = λ p. if p == 0x7000 then msg_any else if p == 0x8000 then 1 else 9;
  src = λ p. if p == 0x5000 then 3 else if p == 0x6000 then 0x7000 else 0;
  dest = λ p. if p == 0x5000 then 2 else if p == 0x6000 then 1 else 0;
  msg = λ p. if p == 0x5000 then 42 else if p == 0x6000 then 0x7004 else 0;
  slots = 0x10000;
  kernel = (busy, memory);
}

abbrev pub state : Ipc Kernel
state = record {
  mem = store;
  next = λ p. null;
  queue = λ q. elim q [
    | small_sends ↦ ends 0x5000 0x5000
    | small_receives ↦ ends 0x6000 0x6000
    | big_sends ↦ no_ends
    | big_receives ↦ no_ends
  ];
}

abbrev lists : Waiting
lists small_sends = 0x5000 ∷ []
lists small_receives = 0x6000 ∷ []
lists big_sends = []
lists big_receives = []

queue-lists : (q : Name) → IsQueue state.next (state.queue q) (lists q)
queue-lists small_sends = record {
  chain = (refl, ground arith, refl);
  tail = refl;
  distinct = (refl, tt);
}
queue-lists small_receives = record {
  chain = (refl, ground arith, refl);
  tail = refl;
  distinct = (refl, tt);
}
queue-lists big_sends = record { chain = refl; tail = refl; distinct = tt }
queue-lists big_receives = record { chain = refl; tail = refl; distinct = tt }

state-IsRep : IsRep state lists
state-IsRep = record { at = queue-lists; apart = λ q r p ne h. ground arith }

lists-IsShort : IsShort 64 lists
lists-IsShort q = ground arith

new_struct-absent : (q : Name) → has 0x9000 (lists q) ≡ false
new_struct-absent q = ground arith

new_struct-IsFree : IsFree 0x9000 lists
new_struct-IsFree = record { ne_null = ground arith; absent = new_struct-absent }

store-IsMarked : IsMarked store lists
store-IsMarked = record { ne_null = ground arith; marked = λ q i lt h. ground arith }

-- Process 3 sends what stands at 0x9100 to process 1, which waits.
small_send-Refines_example :
    Refines
      (small_send kernel_services 64 0x9000 3 0x8000 0x9100 state)
      (Spec.small_send kernel_services 0x9000 3 0x8000 0x9100 store lists)
small_send-Refines_example =
    small_send-Refines kernel_services 64 0x9000 3 0x8000 0x9100 state lists state-IsRep
      lists-IsShort store-IsMarked new_struct-IsFree

-- Process 2 receives from any, and process 3 has a message for it.
small_receive-Refines_example :
    Refines
      (small_receive kernel_services 64 0x9000 0x7000 2 0x9100 state)
      (Spec.small_receive kernel_services 0x9000 0x7000 2 0x9100 store lists)
small_receive-Refines_example =
    small_receive-Refines kernel_services 64 0x9000 0x7000 2 0x9100 state lists state-IsRep
      lists-IsShort new_struct-IsFree

-- Process 2 sends a page to process 1, and process 1 asks for one, while nobody waits for pages.
big_send-Refines_example :
    Refines
      (big_send kernel_services 64 0x9000 2 0x8000 0x9100 state)
      (Spec.big_send kernel_services 0x9000 2 0x8000 0x9100 store lists)
big_send-Refines_example =
    big_send-Refines kernel_services 64 0x9000 2 0x8000 0x9100 state lists state-IsRep lists-IsShort
      new_struct-IsFree

big_receive-Refines_example :
    Refines
      (big_receive kernel_services 64 0x9000 0x7000 1 0x9100 state)
      (Spec.big_receive kernel_services 0x9000 0x7000 1 0x9100 store lists)
big_receive-Refines_example =
    big_receive-Refines kernel_services 64 0x9000 0x7000 1 0x9100 state lists state-IsRep
      lists-IsShort new_struct-IsFree

msg_init-IsRep_example :
    IsRep (msg_init state) nobody_waits
    × IsMarked (msg_init state).mem nobody_waits
    × ((i : ℕ) → i < nr_msg_hardware → (msg_init state).mem.src (slot 0x10000 i) ≡ 0)
msg_init-IsRep_example = msg_init-IsRep state (ground arith)

-- Process 1 runs and sends to process 9.
do_intr_msg-Refines_example :
    Refines
      (do_intr_msg kernel_services 64 0x9000 0x9200 1 0x8800 0x9100 state)
      (Spec.do_intr_msg kernel_services 0x9000 0x9200 1 0x8800 0x9100 store lists)
do_intr_msg-Refines_example =
    do_intr_msg-Refines kernel_services 64 0x9000 0x9200 1 0x8800 0x9100 state lists state-IsRep
      lists-IsShort store-IsMarked new_struct-IsFree

-- Process 1 runs, and asks for a function that there is not.
do_intr_msg-Answers_example :
    Answers 0x9200 state (do_intr_msg kernel_services 64 0x9000 0x9200 5 0x8800 0x9100 state)
do_intr_msg-Answers_example =
    do_intr_msg-Answers kernel_services 64 0x9000 0x9200 5 0x8800 0x9100 state
