-- ===== src/Interrupt/Handlers.antt =====
-- The handlers of kernel/interrupt.c, and those of the other files that its table names, as steps of
-- the whole machine.
use mks.Base.{ℕ, Option, some, List, [], ◌∷◌, ◌++◌, ◌>>=◌}
use mks.Time.{Clock, do_intr_clock}
use mks.Memory.{Memory}
use mks.Memory.Fault.{do_intr_page}
use mks.Keyboard.{KbdQueue, Effect, quiet, prints, do_intr_keyboard}
use mks.Printk.{Screen, println, printk, printbin, printchar, chars_of_long}
use mks.Interrupt.{Handler, reserved, debug2, page, clock, keyboard, parallel, kercall, numbered}

-- What the drivers and the kernel keep. The screen has its own list of what it sends to the ports.
pub record Machine : Type 0 where
  pub screen : Screen
  pub kbd : KbdQueue
  pub memory : Memory
  pub clock : Clock

-- What the processor and the devices have when an interrupt comes: the privilege of the code that it
-- interrupts, the error code, the register cr2, and the byte at the port of the keyboard.
pub record Raised : Type 0 where
  pub cpl : ℕ
  pub error_code : ℕ
  pub cr2 : ℕ
  pub scan_code : ℕ

-- `outb(0x20, 0x20)`: the interrupt controller may go on.
unfoldable pub end_of_interrupt : Machine → Machine
end_of_interrupt m = record m {
  clock = record m.clock { ports = m.clock.ports ++ (0x20, 0x20) ∷ [] };
}

unfoldable pub print_line : List ℕ → Machine → Option Machine
print_line text m = printk text m.screen >>= λ r. some (record m { screen = r.1 })

-- The texts "intr_reserved", "kernel call" and "intr_occur ".
abbrev pub reserved_text : List ℕ
reserved_text = 105 ∷ 110 ∷ 116 ∷ 114 ∷ 95 ∷ 114 ∷ 101 ∷ 115 ∷ 101 ∷ 114 ∷ 118 ∷ 101 ∷ 100 ∷ []

abbrev pub kercall_text : List ℕ
kercall_text = 107 ∷ 101 ∷ 114 ∷ 110 ∷ 101 ∷ 108 ∷ 32 ∷ 99 ∷ 97 ∷ 108 ∷ 108 ∷ []

abbrev pub occur_text : List ℕ
occur_text = 105 ∷ 110 ∷ 116 ∷ 114 ∷ 95 ∷ 111 ∷ 99 ∷ 99 ∷ 117 ∷ 114 ∷ 32 ∷ []

abbrev pub show : Effect → Screen → Screen
show quiet s = s
show (prints c) s = printchar c s

unfoldable pub run : Handler → Raised → Machine → Option Machine
run reserved r m = print_line reserved_text m
run kercall r m = print_line kercall_text m
run (numbered n) r m = print_line (occur_text ++ chars_of_long n) m
run parallel r m = some (end_of_interrupt m)
run debug2 r m = printbin r.error_code m.screen >>= λ s. some (record m { screen = println s })
run page r m = do_intr_page r.cr2 r.error_code m.memory >>= λ mem. some (record m { memory = mem })
run clock r m = do_intr_clock r.cpl m.clock >>= λ c. some (record m { clock = c })
run keyboard r m = do_intr_keyboard r.scan_code m.kbd >>= λ k.
    some (end_of_interrupt (record m { screen = show k.0 m.screen; kbd = k.1 }))
