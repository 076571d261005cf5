-- ===== src/Messaging/Kernel.antt =====
-- What kernel/messaging.c calls, as the scheduler and the memory of this kernel provide it.
use mks.Base.{◌>>=◌, some, update}
use mks.Memory.{Memory}
use mks.Memory.Fault
use mks.Proc.Table.{Procs}
use mks.Proc.Schedule
use mks.Messaging.Store.{Services}

-- The processes and the memory.
abbrev pub Kernel : Type 0
Kernel = Procs × Memory

-- `proc[i]->state = v` needs a process with the number `i`: without one, the code writes to an
-- address near 0, and so does this.
abbrev pub kernel_services : Services Kernel
kernel_services = record {
  current_pid = λ (s, m). s.pid s.proc_current;
  set_state = λ i v k. (record (k.0) { state = update (k.0).state ((k.0).proc i) v }, k.1);
  schedule = λ k. Schedule.schedule k.0 >>= λ s. some (s, k.1);
  share_page = λ from to k. Fault.share_page from to k.1 >>= λ m. some (k.0, m);
}
