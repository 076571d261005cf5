-- ===== src/System/Examples.antt =====
-- The kernel while it runs, on states of its own.
use mks.Base.{
  ℕ, ◌-◌, ◌/◌, ◌≤◌, ◌<◌, ◌≡◌, refl, sym, ◌∙◌, update_self, update_ne, some, inl, true, [], ◌∷◌,
  arith, ltb, ◌==◌, if◌then◌else◌, has,
}
use mks.Linked.{Ptr, ends, no_ends}
use mks.Linked.Chain.{IsQueue}
use mks.Messaging.Store.{slot, nr_procs, nr_msg_hardware, running, sleeping}
use mks.Messaging.Queues.{Name, Ipc, small_sends, small_receives, big_sends, big_receives}
use mks.Messaging.Kernel.{Kernel, kernel_services}
use mks.Messaging.Big.{do_intr_msg}
use mks.Messaging.Lists.{Waiting}
use mks.Proc.Table.{Class, task, server, user, Procs}
use mks.Proc.Start.{load}
use mks.Proc.Start.Examples.{loaded}
use mks.Proc.Examples.{busy, busy-IsTable, busy-IsSound, waiting}
use mks.Time.Examples.{stamp, stamp-IsDate, cmos-Shows}
use mks.Boot.{Whole, main}
use mks.Boot.Examples.{given, whole, paged, paged-IsLoaded}
use mks.System.States.{with_state, with_state-IsTable, with_state-IsSound}
use mks.System.Calm.{Blocked, Rested}
use mks.System.Message.{Steady, Left, rounds, do_intr_msg-Left}
use mks.System.Reach.{System, Reach, Good}
use mks.System.Start.{started, main-Good}

-- The structs of the processes, with their stacks, lie from 0x2_0000 on, a page each.
abbrev stack_of : Ptr → ℕ
stack_of p = if ltb p 0x2_0000 then nr_procs else (p - 0x2_0000) / 0x1000

slots_apart : (i : ℕ) → i < nr_msg_hardware → nr_procs ≤ stack_of (slot 0x1_0000 i)
slots_apart i lt = ground arith

abbrev before : Whole
before = record whole { start = record loaded { memory = paged } }

main-Good_example :
    (after : Whole) × (main 3 given (record before { start = load before.start }) ≡ some after)
    × ((k : System) → Reach stack_of after.interrupts.table (started after) k → Good stack_of k)
main-Good_example =
    main-Good stack_of 2 given before stamp 41 cmos-Shows stamp-IsDate (ground arith) (ground arith)
      (omega arith) (omega arith) paged-IsLoaded slots_apart

-- Process 2 sleeps, and waits with the struct at 0x3800 for a message from any.
abbrev asleep : Procs
asleep = with_state busy 0x3000 sleeping

abbrev page_of : Ptr → ℕ
page_of p = p / 0x1000 - 1

abbrev state : Ipc Kernel
state = record {
  mem = record {
    long = λ p. if p == 0x8000 then 2 else 0xffff_ffff;
    src = λ p. 0x3900;
    dest = λ p. 2;
    msg = λ p. 0x3904;
    slots = 0x5_0000;
    kernel = (asleep, record { word = λ a. 7; mem_map = λ i. 0; high_memory = 0x400_0000 });
  };
  next = λ p. 0;
  queue = λ q. elim q [
    | small_sends ↦ no_ends
    | small_receives ↦ ends 0x3800 0x3800
    | big_sends ↦ no_ends
    | big_receives ↦ no_ends
  ];
}

abbrev lists : Waiting
lists small_sends = []
lists small_receives = 0x3800 ∷ []
lists big_sends = []
lists big_receives = []

queue-lists : (q : Name) → IsQueue state.next (state.queue q) (lists q)
queue-lists small_sends = record { chain = refl; tail = refl; distinct = tt }
queue-lists small_receives = record {
  chain = (refl, ground arith, refl);
  tail = refl;
  distinct = (refl, tt);
}
queue-lists big_sends = record { chain = refl; tail = refl; distinct = tt }
queue-lists big_receives = record { chain = refl; tail = refl; distinct = tt }

lists_one : (q : Name) (p : Ptr) → has p (lists q) ≡ true → (p ≡ 0x3800) × (q ≡ small_receives)
lists_one small_sends p h = ground arith
lists_one small_receives p h = (ground arith, refl)
lists_one big_sends p h = ground arith
lists_one big_receives p h = ground arith

slots_off : (i : ℕ) → i < nr_msg_hardware → nr_procs ≤ page_of (slot 0x5_0000 i)
slots_off i lt = ground arith

receiver-Blocked : Blocked page_of state.mem small_receives 0x3800
receiver-Blocked = record {
  pid = refl;
  below = omega arith;
  not_idle = omega arith;
  there = ground arith;
  sleeps = rw (update_self busy.state 0x3000 sleeping) (omega arith);
}

queued_ready : (c : Class) (a : Ptr) → has a (waiting c) ≡ true → asleep.state a ≡ running
queued_ready task a h = ground arith
queued_ready server a h = ground arith
queued_ready user a h =
    let e : a ≡ 0x4000 = ground arith in
    rw e (update_ne busy.state 0x3000 0x4000 sleeping (ground arith))

state-Rested : Rested page_of state.mem lists waiting
state-Rested = record {
  table = with_state-IsTable busy 0x3000 sleeping busy-IsTable;
  sound = with_state-IsSound busy waiting 0x3000 sleeping busy-IsSound queued_ready;
  blocked = λ q p h. rw ((lists_one q p h).0, (lists_one q p h).1) receiver-Blocked;
  once = λ q q' p p' h h' e. (lists_one q p h).0 ∙ sym (lists_one q' p' h').0;
  slots = slots_off;
  slots_there = ground arith;
}

state-Steady : Steady page_of state lists waiting
state-Steady = record {
  rep = record { at = queue-lists; apart = λ q r p ne h. ground arith };
  calm = record {
    rested = state-Rested;
    runs = inl (update_ne busy.state 0x3000 0x2000 sleeping (ground arith));
  };
}

-- Process 1 sends what stands at 0x9100 to process 2.
do_intr_msg-Left_example :
    Left page_of state.mem.kernel.1
      (do_intr_msg kernel_services rounds 0x2800 0x9200 1 0x8000 0x9100 state)
do_intr_msg-Left_example =
    do_intr_msg-Left page_of state lists waiting state-Steady 0x2800 refl (omega arith) 0x9200 1
      0x8000 0x9100 (ground arith)
