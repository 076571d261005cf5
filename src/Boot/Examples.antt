-- ===== src/Boot/Examples.antt =====
-- The start of kernel/main.c on a machine with 16 MB.
use mks.Base.{some, ℕ, ◌+◌, ◌-◌, ◌/◌, ◌≤◌, ltb, ◌==◌, if◌then◌else◌, refl, ◌≡◌, [], arith, ◌*◌, ◌%◌}
use mks.Memory.{Memory}
use mks.Messaging.Examples.{state}
use mks.Proc.Start.{load}
use mks.Proc.Start.Examples.{loaded, labels}
use mks.Time.Examples.{running_clock, stamp, stamp-IsDate, cmos_at_stamp, cmos-Shows}
use mks.Keyboard.Examples.{queue}
use mks.Printk.Examples.{last_place}
use mks.Interrupt.{reserved}
use mks.Boot.{Given, Whole, find_memory, main, megabyte}
use mks.Boot.UserMode.{Cpu, sti, move_to_user_mode}
use mks.Boot.UserMode.Enters.{local_entry, InUserMode, move_to_user_mode-InUserMode}
use mks.Descriptors.Fields.{segment_of}
use mks.Proc.Start.Ready.{tables, struct_of}
use mks.Proc.Start.Segments.{user_segment}
use mks.Boot.Pages.{find_memory-map}
use mks.Boot.Order.{InOrder}
use mks.Boot.Return.{IsLoaded, main-InOrder}
use mks.Proc.Start.Kernel.{SeesKernel}

abbrev memory : Memory
memory = record { word = λ a. 0; mem_map = λ i. 9; high_memory = 0 }

-- The page behind the buffer.
find_memory-map_example : (find_memory (16 * megabyte) memory).mem_map 1024 ≡ 0
find_memory-map_example =
    find_memory-map (16 * megabyte) memory 1024 (omega arith) (omega arith) (omega arith)

-- What the boot code leaves.
abbrev pub paged : Memory
paged = record {
  word =
      λ a. if a == 0x7000 then 0x8007 else if ltb a 0x8000 then 0 else (a - 0x8000) / 4 * 4096 + 7;
  mem_map = λ i. 9;
  high_memory = 0;
}

no_table : (i : ℕ) → 1 ≤ i → i ≤ 2 → paged.word (0x7000 + 64 * i) ≡ 0
no_table i lo hi = ground arith

pub paged-IsLoaded : IsLoaded paged
paged-IsLoaded = record {
  paged = record { directory = refl; same = λ j lt. ground arith };
  no_table = no_table;
}

abbrev pub given : Given
given = record {
  mem_size = 16 * megabyte;
  entries = λ e. 0x1000;
  labels = labels;
  intr_mask = 0xff;
  time_mask = 0xf9;
  cmos = cmos_at_stamp;
}

abbrev pub whole : Whole
whole = record {
  screen = last_place;
  interrupts = record { table = λ i. reserved; idt = λ i. record { a = 0; b = 0 }; ports = [] };
  start = loaded;
  clock = running_clock;
  ipc = state;
  kbd = queue;
}

main-InOrder_example :
    (after : Whole) × (main 3 given
        (record whole { start = load (record loaded { memory = paged }) })
      ≡ some after)
    × InOrder given (record whole { start = record loaded { memory = paged } }) after stamp 41
    × SeesKernel 1 after.start.memory
    × SeesKernel 2 after.start.memory
main-InOrder_example =
    main-InOrder 2 given (record whole { start = record loaded { memory = paged } }) stamp 41
      cmos-Shows stamp-IsDate (ground arith) (ground arith) (omega arith) (omega arith)
      paged-IsLoaded

-- The processor in the kernel, with the stack at 0x8000 and without interrupts.
abbrev cpu : Cpu
cpu = record {
  eax = 1;
  esp = 0x8000;
  eip = 0x100;
  eflags = 0x2;
  cs = 8;
  ss = 0x10;
  ds = 0x10;
  es = 0x10;
  fs = 0x10;
  gs = 0x10;
  stack = λ a. 0;
}

move_to_user_mode-InUserMode_example :
    (let u = move_to_user_mode 0x140 (sti cpu) in
      let frames = (tables labels loaded).frames in
      InUserMode 0x140 cpu u
      × (u.cs % 8 ≡ 7)
      × (u.ss % 8 ≡ 7)
      × (segment_of (local_entry frames (struct_of loaded 0) u.cs) ≡ user_segment 0xfa 0)
      × (segment_of (local_entry frames (struct_of loaded 0) u.ss) ≡ user_segment 0xf2 0))
move_to_user_mode-InUserMode_example =
    move_to_user_mode-InUserMode 0x140 cpu labels loaded refl (omega arith) (omega arith)
      (omega arith)
