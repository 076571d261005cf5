-- ===== src/Boot.antt =====
-- The start of the kernel: kernel/main.c.
pub mod Pages
pub mod Order
pub mod Return
pub mod UserMode
pub mod Examples
use mks.Base.{ℕ, ◌+◌, ◌*◌, Option, some, ltb, if◌then◌else◌, bit_and, ◌>>=◌}
use mks.Memory.{Memory, mem_init}
use mks.Messaging.Queues.{Ipc, msg_init}
use mks.Messaging.Kernel.{Kernel}
use mks.Proc.Start.{Start, Labels, proc_init}
use mks.Time.{Clock, Cmos, time_init}
use mks.Keyboard.{KbdQueue, keyboard_init}
use mks.Printk.{Screen, con_init}
use mks.Interrupt.{Entry, Interrupts, intr_init}

abbrev pub megabyte : ℕ
megabyte = 1024 * 1024

-- `memory_end`, from the size of the memory that the loader has stored at 0x90000.
unfoldable pub memory_end : ℕ → ℕ
memory_end mem_size =
    let e = bit_and mem_size 0xffff_f000 in if ltb (64 * megabyte) e then 64 * megabyte else e

-- `buffer_memory_end`, which is `main_memory_start`.
unfoldable pub buffer_memory_end : ℕ → ℕ
buffer_memory_end e =
    if ltb (12 * megabyte) e
    then 4 * megabyte
    else if ltb (6 * megabyte) e
    then 2 * megabyte
    else 1 * megabyte

-- The part of `main` that finds the main memory.
unfoldable pub find_memory : ℕ → Memory → Memory
find_memory mem_size m = let e = memory_end mem_size in mem_init (buffer_memory_end e) e m

-- What the machine and the loader give: the size of the memory, the addresses that the linker has
-- chosen, the mask that port 0x21 reads before each of its two changes, and the CMOS clock.
pub record Given : Type 0 where
  pub mem_size : ℕ
  pub entries : Entry → ℕ
  pub labels : Labels
  pub intr_mask : ℕ
  pub time_mask : ℕ
  pub cmos : Cmos

-- The state of the whole kernel. `start` holds the processes and the memory, which `clock` and `ipc`
-- take over as they are initialised.
pub record Whole : Type 0 where
  pub screen : Screen
  pub interrupts : Interrupts
  pub start : Start
  pub clock : Clock
  pub ipc : Ipc Kernel
  pub kbd : KbdQueue

-- `main` up to `sti`. `rounds` bounds the loop of `time_init`.
unfoldable pub main : ℕ → Given → Whole → Option Whole
main rounds g s = con_init s.screen >>= λ screen.
    let memory = find_memory g.mem_size s.start.memory in
    let interrupts = intr_init g.entries g.intr_mask s.interrupts in
    time_init rounds g.cmos g.time_mask s.clock >>= λ clock.
    proc_init g.labels (record s.start { memory = memory }) >>= λ start.
    let ipc = record s.ipc { mem = record s.ipc.mem { kernel = (start.procs, start.memory) } } in
    some (record {
      screen = screen;
      interrupts = interrupts;
      start = start;
      clock = record clock { procs = start.procs };
      ipc = msg_init ipc;
      kbd = keyboard_init s.kbd;
    })
