-- ===== src/User/PageExamples.antt =====
-- A big message from process 2 to process 1, with nobody else waiting.
use mks.Base.{◌==◌, if◌then◌else◌, ◌≡◌, ◌≢◌, inl, inr, refl, arith, some, update, true, has}
use mks.Linked.{Ptr, null, no_ends}
use mks.Memory.{Memory, is_present, table_entry}
use mks.Memory
use mks.Memory.Fault.{page_of}
use mks.Memory.Share.{Mapped, Shared}
use mks.Messaging.Store.{msg_any}
use mks.Messaging.Queues.{Ipc}
use mks.Messaging.Kernel.{Kernel, kernel_services}
use mks.Messaging.Big
use mks.Messaging.Rep.{IsRep}
use mks.Messaging.Start.{nobody_waits}
use mks.Proc.Table.{Class, task, server, user, Procs}
use mks.Proc.Sound.{IsTable, IsSound}
use mks.Proc.Examples.{busy, waiting, busy-IsTable, busy-IsSound}
use mks.User.{intr_msg, big_msg_receive}
use mks.User.Delivery.{Room}
use mks.User.PageDelivery.{Frames, meanwhile_sends_page}
use mks.User.PageKernel.{Runs, big_msg_receive-Shared}

-- Process 2 has a page at 0x2000 of its memory, and process 1 a table.
abbrev memory : Memory
memory = record {
  word = λ x.
      if x == 0x7080
      then 0x10_0007
      else if x == 0x7040
      then 0x10_1007
      else if x == 0x10_0008
      then 0x20_0007
      else 0;
  mem_map = λ i. 1;
  high_memory = 0x400_0000;
}

abbrev quiet : Ipc Kernel
quiet = record {
  mem = record {
    long = λ p. 0;
    src = λ p. 0;
    dest = λ p. 0;
    msg = λ p. 0;
    slots = 0x1_0000;
    kernel = (busy, memory);
  };
  next = λ p. null;
  queue = λ q. no_ends;
}

quiet-Room : Room 64 quiet nobody_waits 0x5000 0x6000
quiet-Room = record {
  rep = record {
    at = λ q. record { chain = refl; tail = refl; distinct = tt };
    apart = λ q r p ne h. refl;
  };
  short = λ q. omega arith;
  marked = record { ne_null = ground arith; marked = λ q i lt h. ground arith };
  free = record { ne_null = ground arith; absent = λ q. refl };
  free' = record { ne_null = ground arith; absent = λ q. refl };
  two = ground arith;
  no_slot = λ i. omega arith;
}

frames : Frames 0x5100 0x6100 0x5200 0x6200
frames = record {
  apart = inl (omega arith);
  own = ground arith;
  own' = ground arith;
  other = ground arith;
}

-- Process 2 runs in place of process 1.
abbrev turned : Procs
turned = record busy { proc_current = 0x3000 }

turned-IsTable : IsTable turned
turned-IsTable = record {
  numbered = busy-IsTable.numbered;
  typed = busy-IsTable.typed;
  idle = busy-IsTable.idle;
  current = ground arith;
  current_below = omega arith;
  current_at = refl;
}

not_second : (c : Class) (x : Ptr) → has x (waiting c) ≡ true → x ≢ 0x3000
not_second task x h = ground arith
not_second server x h = ground arith
not_second user x h = ground arith

turned-IsSound : IsSound turned waiting
turned-IsSound = record {
  ordered = record {
    rep = busy-IsSound.rep;
    waits = λ c x h.
        let w = busy-IsSound.waits c x h in
        record {
          at = w.at;
          not_idle = w.not_idle;
          below = w.below;
          class = w.class;
          runs = w.runs;
        };
  };
  not_current = not_second;
}

busy-Runs : Runs 1 (busy, memory) waiting
busy-Runs = record { pid = refl; table = busy-IsTable; sound = busy-IsSound }

turned-Runs : Runs 2 (turned, memory) waiting
turned-Runs = record { pid = refl; table = turned-IsTable; sound = turned-IsSound }

given-Mapped : Mapped (Big.page_entry 2 0x1234) memory
unfolding is_present table_entry Memory.page_entry Big.page_entry
given-Mapped = record { table = refl; page = refl }

wanted_table : is_present (memory.word (table_entry (Big.page_entry 1 0x5678))) ≡ true
unfolding is_present table_entry Big.page_entry
wanted_table = refl

fits : memory.word (page_of (Big.page_entry 2 0x1234) memory) ≡ 0x20_0007
unfolding table_entry Memory.page_entry Big.page_entry
fits = refl

-- Process 1 asks anyone, and process 2 sends.
big_msg_receive-Shared_example :
    (s : Ipc Kernel) × (big_msg_receive
        (intr_msg kernel_services 64 0x5000 0x5100 0x5200 (
          meanwhile_sends_page kernel_services 64 0x6000 0x6100 0x6200 0x300 0x1234
            (λ a. if a == 0x300 then 1 else 42)
            (turned, memory)))
        0x200
        0x5678
        (λ a. msg_any)
        quiet
      ≡ some ((1, update (λ a. msg_any) 0x200 2), s))
    × Shared
        (page_of (Big.page_entry 2 0x1234) memory)
        (page_of (Big.page_entry 1 0x5678) memory)
        (memory.word (page_of (Big.page_entry 2 0x1234) memory))
        memory
        s.mem.kernel.1
    × IsRep s nobody_waits
big_msg_receive-Shared_example =
    big_msg_receive-Shared 64 1 2 (omega arith) (omega arith) (ground arith) 0x5000 0x6000 0x5100
      0x6100 0x5200 0x6200 quiet nobody_waits quiet-Room frames 0x200 0x5678 0x300 0x1234
      (λ a. msg_any) (λ a. if a == 0x300 then 1 else 42) (turned, memory) waiting waiting busy-Runs
      (inr refl) (λ q x h. absurd (ground arith)) refl turned-Runs (omega arith) (omega arith)
      given-Mapped (rw fits (omega arith)) wanted_table
