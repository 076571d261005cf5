-- ===== src/Interrupt/Examples.antt =====
-- Interrupts of kernel/interrupt.c on a machine with one process that waits.
use mks.Base.{ℕ, ◌<◌, ◌^◌, ◌≡◌, some, [], arith}
use mks.Descriptors.Fields.{gate_of}
use mks.Memory.{Memory}
use mks.Proc.Examples.{waiting, busy-IsTable, busy-IsSound}
use mks.Time.Examples.{running_clock}
use mks.Keyboard.Examples.{queue, queue-IsValid}
use mks.Printk.Examples.{last_place}
use mks.Interrupt.{
  Entry, intr, hwintr, intr_reserved, intr_msg, intr_kercall, clock, reserved, Interrupts,
  intr_init,
}
use mks.Interrupt.Gates.{expected, intr_init-expected}
use mks.Interrupt.Dispatch.{called, handler_for, intr_init-called}
use mks.Interrupt.Handlers.{Machine, Raised}
use mks.Interrupt.Kept.{IsGood, Kept, run-Kept}

-- Where the entries lie.
abbrev address : Entry → ℕ
address (intr n) = 0x10000
address (hwintr n) = 0x20000
address intr_reserved = 0x30000
address intr_msg = 0x40000
address intr_kercall = 0x50000

address-fits : (e : Entry) → address e < 2 ^ 32
address-fits (intr n) = omega arith
address-fits (hwintr n) = omega arith
address-fits intr_reserved = omega arith
address-fits intr_msg = omega arith
address-fits intr_kercall = omega arith

abbrev empty_tables : Interrupts
empty_tables = record { table = λ i. reserved; idt = λ i. record { a = 0; b = 0 }; ports = [] }

-- The system call.
intr_init-expected_example :
    gate_of ((intr_init address 0xff empty_tables).idt 0x80) ≡ expected address 0x80
intr_init-expected_example =
    intr_init-expected address 0xff empty_tables 0x80 address-fits (omega arith)

-- The clock.
intr_init-called_example : called (intr_init address 0xff empty_tables).table 32 ≡ some clock
unfolding handler_for
intr_init-called_example =
    intr_init-called address 0xff empty_tables 32 (omega arith) (ground arith)

abbrev memory : Memory
memory = record { word = λ a. 7; mem_map = λ i. 0; high_memory = 0x400_0000 }

abbrev running_machine : Machine
running_machine = record {
  screen = last_place;
  kbd = queue;
  memory = memory;
  clock = running_clock;
}

abbrev key_a : Raised
key_a = record { cpl = 3; error_code = 0; cr2 = 0; scan_code = 0x1e }

running_machine-IsGood : IsGood running_machine waiting
running_machine-IsGood = record {
  table = busy-IsTable;
  sound = busy-IsSound;
  kbd = queue-IsValid;
  screen = record { x_in = omega arith; y_in = omega arith };
}

run-Kept_example : Kept clock key_a running_machine waiting
run-Kept_example = run-Kept clock key_a running_machine waiting running_machine-IsGood (omega arith)
