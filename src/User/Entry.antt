-- ===== src/User/Entry.antt =====
-- Where the page of a big message lies: `get_msg_entry` of lib/message.c and `do_intr_msg` of
-- kernel/messaging.c.
use mks.Base.{ℕ, ◌+◌, ◌*◌, ◌%◌, ◌<◌, ◌≤◌, ◌≡◌, arith, bit_and_0xffff_f000}
use mks.Messaging.Big.{page_entry}
use mks.User.{get_msg_entry}

-- For a message of two pages inside the 64 MB of one of the 64 processes, `get_msg_entry` gives the start
-- of a whole page inside the message, and the kernel takes the same page, in the memory of the process.
pub get_msg_entry-inside :
    (pid v : ℕ)
    → pid < 64
    → v + 0x2000 ≤ 0x400_0000
    → (get_msg_entry v % 4096 ≡ 0)
      × (v ≤ get_msg_entry v)
      × (get_msg_entry v + 4096 ≤ v + 0x2000)
      × (page_entry pid v ≡ pid * 0x400_0000 + get_msg_entry v)
unfolding get_msg_entry page_entry
get_msg_entry-inside pid v lt fits =
    rw (bit_and_0xffff_f000 v (omega arith)) (omega arith, omega arith, omega arith, omega arith)
