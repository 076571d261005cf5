-- ===== src/Proc/Start/Examples.antt =====
-- The first processes of kernel/proc.c, their structs at 0x20000.
use mks.Base.{some, ◌-◌, ◌*◌, ◌/◌, ltb, ◌==◌, if◌then◌else◌, refl, ◌≡◌, ◌+◌, arith}
use mks.Descriptors.Fields.{segment_of}
use mks.Memory.{Memory, needs_table}
use mks.Proc.Examples.{busy}
use mks.Proc.Start.{Start, Labels, load, proc_init, share_kernel, tss_offset, ldt_offset}
use mks.Proc.Start.Ready.{Started, proc_init-Started, tables}
use mks.Proc.Start.Kernel.{IsFresh, SeesKernel, share_kernel-SeesKernel}
use mks.Proc.Start.Segments.{user_segment, tables_segments}

abbrev memory : Memory
memory = record { word = λ a. 0; mem_map = λ i. 9; high_memory = 0 }

abbrev pub loaded : Start
loaded = record {
  procs = busy;
  frames = record {
    esp0 = λ p. 1;
    ldt = λ p. 1;
    esp = λ p. 1;
    ebp = λ p. 1;
    eip = λ p. 1;
    eflags = λ p. 1;
    code_desc = λ p. record { a = 1; b = 1 };
    data_desc = λ p. record { a = 1; b = 1 };
  };
  gdt = λ i. record { a = 1; b = 1 };
  memory = memory;
  init_procs = 0x2_0000;
}

abbrev pub labels : Labels
labels = record { idle = 0x100; init_proc = 0x200; system_task = 0x300 }

proc_init-Started_example : Started labels loaded (proc_init labels (load loaded))
proc_init-Started_example = proc_init-Started labels loaded (ground arith)

tables_segments_example :
    (segment_of ((tables labels loaded).gdt 6)
      ≡ record { base = 0x2_1000 + tss_offset; limit = 104; in_pages = 0; access = 0x89 })
    × (segment_of ((tables labels loaded).gdt 7)
        ≡ record { base = 0x2_1000 + ldt_offset; limit = 104; in_pages = 0; access = 0x82 })
    × (segment_of ((tables labels loaded).frames.code_desc 0x2_1000) ≡ user_segment 0xfa 1)
    × (segment_of ((tables labels loaded).frames.data_desc 0x2_1000) ≡ user_segment 0xf2 1)
tables_segments_example = tables_segments labels loaded 1 (omega arith) (omega arith)

-- 256 pages in use, mapped to themselves.
abbrev fresh : Memory
fresh = record {
  word =
      λ a. if a == 0x7000 then 0x8007 else if ltb a 0x8000 then 0 else (a - 0x8000) / 4 * 4096 + 7;
  mem_map = λ i. if ltb i 256 then 1 else 0;
  high_memory = 0x400_0000;
}

fresh-IsFresh : IsFresh 256 fresh
unfolding needs_table
fresh-IsFresh = record {
  paged = record { directory = refl; same = λ j lt. ground arith };
  no_table = λ i lo hi. ground arith;
  used = λ j lt. ground arith;
  free = refl;
  next_free = refl;
  plain = refl;
  next_plain = refl;
  from = omega arith;
  below = omega arith;
}

share_kernel-SeesKernel_example :
    (m₁ : Memory) × (m₂ : Memory) × (share_kernel 1 fresh ≡ some m₁)
    × (share_kernel 2 m₁ ≡ some m₂)
    × SeesKernel 1 m₂
    × SeesKernel 2 m₂
share_kernel-SeesKernel_example = share_kernel-SeesKernel 256 fresh fresh-IsFresh
