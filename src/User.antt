-- ===== src/User.antt =====
-- The calls of a process: lib/message.c, and `intr_msg` of kernel/asm.s, by which they reach the kernel.
pub mod Entry
pub mod Meeting
pub mod Queued
pub mod Delivery
pub mod Tasks
pub mod PageMeeting
pub mod PageDelivery
pub mod PageKernel
pub mod Examples
pub mod PageExamples
use mks.Base.{ℕ, ◌+◌, Option, some, ◌==◌, if◌then◌else◌, bit_and, add32, minus_one, update, ◌>>=◌}
use mks.Linked.{Ptr}
use mks.Messaging.Store.{Services, write_long}
use mks.Messaging.Queues.{Ipc}
use mks.Messaging.Big.{do_intr_msg}

unfoldable pub get_msg_entry : ℕ → ℕ
get_msg_entry msgpt = add32 (bit_and msgpt 0xffff_f000) 0x1000

-- The registers that the software interrupt takes and gives.
pub record Regs : Type 0 where
  pub eax : ℕ
  pub ebx : ℕ
  pub ecx : ℕ

-- The calls over `int $0x80`, here `trap`. `mem` is the longs that the arguments point to; the first
-- `ecx` is what the register holds by chance.
module _ {W : Type 0} (trap : Regs → W → Option (Regs × W)) where
  unfoldable pub small_msg_send : Ptr → Ptr → (Ptr → ℕ) → W → Option (ℕ × W)
  small_msg_send destination msgpt mem w =
      trap (record { eax = 1; ebx = mem destination; ecx = mem msgpt }) w >>= λ r.
      some (if r.0.eax == 1 then 1 else minus_one, r.1)

  unfoldable pub small_msg_receive : ℕ → Ptr → Ptr → (Ptr → ℕ) → W → Option ((ℕ × (Ptr → ℕ)) × W)
  small_msg_receive ecx source msgpt mem w =
      trap (record { eax = 2; ebx = mem source; ecx = ecx }) w >>= λ r. some (
        if r.0.eax == 1
            then (1, update (update mem msgpt r.0.ecx) source r.0.ebx)
            else (minus_one, mem),
        r.1,
      )

  unfoldable pub big_msg_send : Ptr → ℕ → (Ptr → ℕ) → W → Option (ℕ × W)
  big_msg_send destination msgpt mem w =
      trap (record { eax = 3; ebx = mem destination; ecx = msgpt }) w >>= λ r.
      some (if r.0.eax == 1 then 1 else minus_one, r.1)

  unfoldable pub big_msg_receive : Ptr → ℕ → (Ptr → ℕ) → W → Option ((ℕ × (Ptr → ℕ)) × W)
  big_msg_receive source msgpt mem w =
      trap (record { eax = 4; ebx = mem source; ecx = msgpt }) w >>= λ r.
      some (if r.0.eax == 1 then (1, update mem source r.0.ebx) else (minus_one, mem), r.1)

module _ {K : Type 0} where
  -- `pushl %ecx` and `pushl %ebx`: the words that `do_intr_msg` gets the addresses of.
  unfoldable pub save : Ptr → Regs → Ipc K → Ipc K
  save frame r s = record s { mem = write_long (write_long s.mem (frame + 4) r.ecx) frame r.ebx }

-- `intr_msg`. The caller goes on when it is next switched to, in the state that `meanwhile` gives; only
-- then does it take its registers off the stack.
module _ {K : Type 0} (os : Services K) (rounds : ℕ) (new_msg entry frame : Ptr)
    (meanwhile : Ipc K → Option (Ipc K)) where
  unfoldable pub intr_msg : Regs → Ipc K → Option (Regs × Ipc K)
  intr_msg r s =
      do_intr_msg os rounds new_msg entry r.eax frame (frame + 4) (save frame r s) >>= λ a.
      meanwhile a.1 >>= λ s'.
      some (record { eax = a.0; ebx = s'.mem.long frame; ecx = s'.mem.long (frame + 4) }, s')
