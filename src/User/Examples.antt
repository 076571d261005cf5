-- ===== src/User/Examples.antt =====
-- The calls of lib/message.c between the processes 1 and 2, with nobody else waiting.
use mks.Base.{
  ◌==◌, if◌then◌else◌, ℕ, ◌+◌, ◌*◌, ◌%◌, ◌≤◌, ◌≡◌, inl, inr, refl, arith, some, update, Option,
  ◌>>=◌,
}
use mks.Linked.{null, no_ends}
use mks.Messaging.Store.{Services, msg_any}
use mks.Messaging.Queues.{Ipc}
use mks.Messaging.Big.{page_entry}
use mks.Messaging.Rep.{IsRep}
use mks.Messaging.Start.{nobody_waits}
use mks.User.{get_msg_entry, intr_msg, small_msg_receive, Regs}
use mks.User.Tasks.{system_task, asks, system_task-asks}
use mks.User.Entry.{get_msg_entry-inside}
use mks.User.Delivery.{Room, meanwhile_sends, small_msg_receive-small_msg_send}

get_msg_entry-inside_example :
    (get_msg_entry 0x1234 % 4096 ≡ 0)
    × (0x1234 ≤ get_msg_entry 0x1234)
    × (get_msg_entry 0x1234 + 4096 ≤ 0x1234 + 0x2000)
    × (page_entry 3 0x1234 ≡ 3 * 0x400_0000 + get_msg_entry 0x1234)
get_msg_entry-inside_example = get_msg_entry-inside 3 0x1234 (omega arith) (omega arith)

-- A kernel that is the number of the process that runs.
abbrev services : Services ℕ
services = record {
  current_pid = λ k. k;
  set_state = λ i v k. k;
  schedule = λ k. some k;
  share_page = λ from to k. some k;
}

abbrev quiet : Ipc ℕ
quiet = record {
  mem = record {
    long = λ p. 0;
    src = λ p. 0;
    dest = λ p. 0;
    msg = λ p. 0;
    slots = 0x1_0000;
    kernel = 1;
  };
  next = λ p. null;
  queue = λ q. no_ends;
}

quiet-Room : Room 64 quiet nobody_waits 0x5000 0x6000
quiet-Room = record {
  rep = record {
    at = λ q. record { chain = refl; tail = refl; distinct = tt };
    apart = λ q r p ne h. refl;
  };
  short = λ q. omega arith;
  marked = record { ne_null = ground arith; marked = λ q i lt h. ground arith };
  free = record { ne_null = ground arith; absent = λ q. refl };
  free' = record { ne_null = ground arith; absent = λ q. refl };
  two = ground arith;
  no_slot = λ i. omega arith;
}

-- Process 1 asks anyone, and process 2 sends 42.
small_msg_receive-small_msg_send_example :
    (s : Ipc ℕ) × (small_msg_receive
        (intr_msg services 64 0x5000 0x5100 0x5200 (
          meanwhile_sends services 64 0x6000 0x6100 0x6200 0x300 0x304
            (λ a. if a == 0x300 then 1 else 42)
            2))
        7
        0x200
        0x204
        (λ a. msg_any)
        quiet
      ≡ some ((1, update (update (λ a. msg_any) 0x204 42) 0x200 2), s))
    × (s.mem.kernel ≡ 2)
    × IsRep s nobody_waits
small_msg_receive-small_msg_send_example =
    small_msg_receive-small_msg_send services 64 1 2 (omega arith) (omega arith) (ground arith)
      0x5000 0x6000 0x5200 0x6200 quiet nobody_waits quiet-Room 0x5100 0x6100 0x200 0x204 7 0x300
      0x304 (λ a. msg_any) (λ a. if a == 0x300 then 1 else 42) 1 2 2 refl (inr refl)
      (λ q x h. absurd (ground arith)) refl refl (inl (omega arith)) refl refl

-- A kernel that counts the calls and answers with a message from process 3.
abbrev counting : Regs → ℕ → Option (Regs × ℕ)
counting r w = some (record { eax = 1; ebx = 3; ecx = 0 }, w + 1)

system_task-asks_example : system_task counting 2 0x100 0x2000 (λ a. 5) 7 ≡ (
    asks counting 2 (record { eax = 4; ebx = msg_any; ecx = 0x2000 }) 7 >>= λ w.
    some (update (λ a. 5) 0x100 msg_any, w))
system_task-asks_example = system_task-asks counting 2 0x100 0x2000 (λ a. 5) 7
