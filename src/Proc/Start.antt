-- ===== src/Proc/Start.antt =====
-- `proc_init` of kernel/proc.c: the first three processes, and what `INIT_PROC_DATA` and `PROC_INIT` of
-- include/kernel/proc.h and include/config.h put into their structs.
pub mod Ready
pub mod Segments
pub mod Kernel
pub mod Examples
use mks.Base.{
  ℕ, zero, suc, ◌+◌, ◌*◌, ◌^◌, Option, none, some, ltb, leb, ◌==◌, ◌&&◌, if◌then◌else◌, update,
  ◌>>=◌,
}
use mks.Linked.{Ptr, null, no_ends}
use mks.Descriptors.{Desc, set_tss_desc, set_ldt_desc, set_ldt_cs_desc, set_ldt_ds_desc}
use mks.Memory.{Memory, page_size}
use mks.Memory.Fault.{share_multi_pages}
use mks.Proc.Table.{Procs}
use mks.Messaging.Store.{nr_procs}

-- The fields of the structs that the scheduler does not read: those of the task state segment, and the
-- descriptors of the code and the data in the local table.
pub record Frames : Type 0 where
  pub esp0 : Ptr → ℕ
  pub ldt : Ptr → ℕ
  pub esp : Ptr → ℕ
  pub ebp : Ptr → ℕ
  pub eip : Ptr → ℕ
  pub eflags : Ptr → ℕ
  pub code_desc : Ptr → Desc
  pub data_desc : Ptr → Desc

-- `gdt` is the global table by the number of the descriptor; `init_procs` the address of the array.
pub record Start : Type 0 where
  pub procs : Procs
  pub frames : Frames
  pub gdt : ℕ → Desc
  pub memory : Memory
  pub init_procs : Ptr

-- Where the linker has put the code of the processes.
pub record Labels : Type 0 where
  pub idle : ℕ
  pub init_proc : ℕ
  pub system_task : ℕ

abbrev pub first_tss_entry : ℕ
first_tss_entry = 4

abbrev pub first_ldt_entry : ℕ
first_ldt_entry = 5

-- `LDT(n)`, the selector of the local table of process `n`.
abbrev pub ldt_selector : ℕ → ℕ
ldt_selector n = n * 2 ^ 4 + first_ldt_entry * 2 ^ 3

-- The offsets of `ldt` and `tss` in `struct proc_struct`.
abbrev pub ldt_offset : ℕ
ldt_offset = 116

abbrev pub tss_offset : ℕ
tss_offset = 140

abbrev pub no_desc : Desc
no_desc = record { a = 0; b = 0 }

-- `INIT_PROC_DATA`, which the program is loaded with.
unfoldable pub load : Start → Start
load s =
    let p = s.init_procs in
    let f = s.frames in
    record s {
      procs = record s.procs {
        proc_type = update s.procs.proc_type p 0;
        state = update s.procs.state p 0;
        counter = update s.procs.counter p 0;
        pid = update s.procs.pid p 0;
        utime = update s.procs.utime p 0;
        stime = update s.procs.stime p 0;
        next_ready = update s.procs.next_ready p null;
      };
      frames = record {
        esp0 = update f.esp0 p 0;
        ldt = update f.ldt p 0;
        esp = update f.esp p 0;
        ebp = update f.ebp p 0;
        eip = update f.eip p 0;
        eflags = update f.eflags p 0;
        code_desc = update f.code_desc p no_desc;
        data_desc = update f.data_desc p no_desc;
      };
    }

-- The loops that clear the table of the processes and their descriptors.
unfoldable pub clear_tables : Start → Start
clear_tables s = record s {
  procs = record s.procs { proc = λ i. if ltb i nr_procs then null else s.procs.proc i };
  gdt = λ i.
      if leb first_tss_entry i && ltb i (first_tss_entry + nr_procs * 2) then no_desc else s.gdt i;
}

abbrev pub copy_field {ℓ} : {A : Type ℓ} → Ptr → Ptr → (Ptr → A) → Ptr → A
copy_field from to f = update f to (f from)

-- The copy of a page, here of the fields in it.
unfoldable pub copy_struct : Ptr → Ptr → Start → Start
copy_struct from to s =
    let f = s.frames in
    record s {
      procs = record s.procs {
        proc_type = copy_field from to s.procs.proc_type;
        state = copy_field from to s.procs.state;
        counter = copy_field from to s.procs.counter;
        pid = copy_field from to s.procs.pid;
        utime = copy_field from to s.procs.utime;
        stime = copy_field from to s.procs.stime;
        next_ready = copy_field from to s.procs.next_ready;
      };
      frames = record {
        esp0 = copy_field from to f.esp0;
        ldt = copy_field from to f.ldt;
        esp = copy_field from to f.esp;
        ebp = copy_field from to f.ebp;
        eip = copy_field from to f.eip;
        eflags = copy_field from to f.eflags;
        code_desc = copy_field from to f.code_desc;
        data_desc = copy_field from to f.data_desc;
      };
    }

-- What is set in the struct of process `i` after the copy, and its two descriptors.
unfoldable pub set_struct : ℕ → Ptr → Start → Start
set_struct i p s =
    let f = s.frames in
    record s {
      procs = record s.procs { pid = update s.procs.pid p i };
      frames = record f {
        esp0 = update f.esp0 p (page_size + p);
        ldt = update f.ldt p (ldt_selector i);
        esp = update f.esp p 0x400_0000;
        ebp = update f.ebp p 0x400_0000;
        code_desc = update f.code_desc p (set_ldt_cs_desc (0x400_0000 * i) 16384);
        data_desc = update f.data_desc p (set_ldt_ds_desc (0x400_0000 * i) 16384);
      };
      gdt =
          update (update s.gdt (first_tss_entry + i * 2) (set_tss_desc (p + tss_offset)))
            (first_ldt_entry + i * 2) (set_ldt_desc (p + ldt_offset));
    }

-- One round of the loop over the first processes, up to the sharing of the pages.
unfoldable pub set_up : ℕ → Start → Start
set_up i s =
    let p = s.init_procs + page_size * i in
    let s' : Start = record s { procs = record s.procs { proc = update s.procs.proc i p } } in
    set_struct i p (copy_struct (s'.procs.proc 0) p s')

-- The pages of the kernel, 640 KB, in the address space of process `i`.
unfoldable pub share_kernel : ℕ → Memory → Option Memory
share_kernel i m =
    if i == 0 then some m else (share_multi_pages 0 (0x400_0000 * i) 160 m >>= λ r. some r.1)

-- `for (i = 0; i < NR_INIT_PROCS; i++)`, with the rounds left.
unfoldable pub set_up_all : ℕ → ℕ → Start → Option Start
set_up_all zero i s = some s
set_up_all (suc k) i s =
    let s' = set_up i s in
    share_kernel i s'.memory >>= λ m. set_up_all k (i + 1) (record s' { memory = m })

-- `PROC_INIT`, for one process.
unfoldable pub set_code : ℕ → ℕ → ℕ → ℕ → Start → Start
set_code i type eip eflags s =
    let p = s.procs.proc i in
    record s {
      procs = record s.procs { proc_type = update s.procs.proc_type p type };
      frames = record s.frames {
        eip = update s.frames.eip p eip;
        eflags = update s.frames.eflags p eflags;
      };
    }

unfoldable pub set_all_code : Labels → Start → Start
set_all_code at s =
    set_code 2 1 at.system_task 0x3202
      (set_code 1 3 at.init_proc 0x202 (set_code 0 3 at.idle 0x202 s))

-- The queues are emptied, and process 0 is the current one.
unfoldable pub set_queues : Start → Start
set_queues s = record s {
  procs = record s.procs { queue = λ c. no_ends; proc_current = s.procs.proc 0 };
}

unfoldable pub proc_init : Labels → Start → Option Start
proc_init at s = set_up_all 3 0 (clear_tables s) >>= λ s'. some (set_queues (set_all_code at s'))
