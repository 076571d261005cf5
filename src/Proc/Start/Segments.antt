-- ===== src/Proc/Start/Segments.antt =====
-- The descriptors that `proc_init` of kernel/proc.c sets up for the first processes.
use mks.Base.{ℕ, zero, suc, ◌+◌, ◌*◌, ◌^◌, ◌<◌, ◌≡◌, refl, arith, update_at}
use mks.Descriptors.{set_tss_desc, set_ldt_desc, set_ldt_cs_desc, set_ldt_ds_desc, set_ldt_seg_desc}
use mks.Descriptors.Fields.{Segment, segment_of, segment_of-set_tssldt_desc}
use mks.Proc.Start.{
  Start, Labels, clear_tables, copy_struct, set_struct, set_up, set_code, set_all_code, set_queues,
  tss_offset, ldt_offset,
}
use mks.Proc.Start.Ready.{tables, struct_of}

tables-tss :
    (at : Labels) (s : Start) (i : ℕ)
    → i < 3
    → (tables at s).gdt (4 + i * 2) ≡ set_tss_desc (struct_of s i + tss_offset)
unfolding set_queues set_all_code set_code set_up set_struct copy_struct clear_tables
tables-tss at s zero h = simp update_at refl
tables-tss at s (suc zero) h = simp update_at refl
tables-tss at s (suc (suc zero)) h = simp update_at refl
tables-tss at s (suc (suc (suc i))) h = absurd (omega arith)

tables-ldt :
    (at : Labels) (s : Start) (i : ℕ)
    → i < 3
    → (tables at s).gdt (5 + i * 2) ≡ set_ldt_desc (struct_of s i + ldt_offset)
unfolding set_queues set_all_code set_code set_up set_struct copy_struct clear_tables
tables-ldt at s zero h = simp update_at refl
tables-ldt at s (suc zero) h = simp update_at refl
tables-ldt at s (suc (suc zero)) h = simp update_at refl
tables-ldt at s (suc (suc (suc i))) h = absurd (omega arith)

tables-code :
    (at : Labels) (s : Start) (i : ℕ)
    → i < 3
    → (tables at s).frames.code_desc (struct_of s i) ≡ set_ldt_cs_desc (0x400_0000 * i) 16384
unfolding set_queues set_all_code set_code set_up set_struct copy_struct clear_tables
tables-code at s i h = simp update_at (ground arith)

tables-data :
    (at : Labels) (s : Start) (i : ℕ)
    → i < 3
    → (tables at s).frames.data_desc (struct_of s i) ≡ set_ldt_ds_desc (0x400_0000 * i) 16384
unfolding set_queues set_all_code set_code set_up set_struct copy_struct clear_tables
tables-data at s i h = simp update_at (ground arith)

-- A segment of user memory, by the access byte: 64 MB from the start of the process and one page more.
abbrev pub user_segment : ℕ → ℕ → Segment
user_segment access i = record {
  base = 0x400_0000 * i;
  limit = 16384;
  in_pages = 1;
  access = access;
}

code_segment :
    (i : ℕ) → i < 3 → segment_of (set_ldt_cs_desc (0x400_0000 * i) 16384) ≡ user_segment 0xfa i
unfolding set_ldt_seg_desc
code_segment zero h = refl
code_segment (suc zero) h = refl
code_segment (suc (suc zero)) h = refl
code_segment (suc (suc (suc i))) h = absurd (omega arith)

data_segment :
    (i : ℕ) → i < 3 → segment_of (set_ldt_ds_desc (0x400_0000 * i) 16384) ≡ user_segment 0xf2 i
unfolding set_ldt_seg_desc
data_segment zero h = refl
data_segment (suc zero) h = refl
data_segment (suc (suc zero)) h = refl
data_segment (suc (suc (suc i))) h = absurd (omega arith)

-- As the processor reads the descriptors of the processes 0, 1 and 2, where their structs lie below
-- 4 GB: the task state segment is that of the struct, 105 bytes long, the local table lies in the
-- struct, and the code and the data begin at 64 MB times the number, for privilege 3, with a limit of
-- 16384. As the limit is the number of the last page, a process reaches one page of the next.
pub tables_segments :
    (at : Labels) (s : Start) (i : ℕ)
    → i < 3
    → s.init_procs + 0x3000 < 2 ^ 32
    → (segment_of ((tables at s).gdt (4 + i * 2))
        ≡ record { base = struct_of s i + tss_offset; limit = 104; in_pages = 0; access = 0x89 })
      × (segment_of ((tables at s).gdt (5 + i * 2))
          ≡ record { base = struct_of s i + ldt_offset; limit = 104; in_pages = 0; access = 0x82 })
      × (segment_of ((tables at s).frames.code_desc (struct_of s i)) ≡ user_segment 0xfa i)
      × (segment_of ((tables at s).frames.data_desc (struct_of s i)) ≡ user_segment 0xf2 i)
tables_segments at s i h fits = (
  rw (tables-tss at s i h) (segment_of-set_tssldt_desc 0x89 _ (omega arith) (omega arith)),
  rw (tables-ldt at s i h) (segment_of-set_tssldt_desc 0x82 _ (omega arith) (omega arith)),
  rw (tables-code at s i h) (code_segment i h),
  rw (tables-data at s i h) (data_segment i h),
)
