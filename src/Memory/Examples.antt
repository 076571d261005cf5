-- ===== src/Memory/Examples.antt =====
-- A memory of kernel/memory.c in which page 0x3FD is the first that nobody uses.
use mks.Base.{◌≡◌, ℕ, refl, true, false, some, arith, ◌==◌, ltb, if◌then◌else◌}
use mks.Memory.{Memory, is_present, get_free_page, page_entry, table_entry, needs_table}
use mks.Memory.Fault.{page_of, do_wp_page, do_no_page}
use mks.Memory.Free.{FirstFree}
use mks.Memory.Copy.{Copied, do_wp_page-Copied}
use mks.Memory.NoPage.{Faulted, do_no_page-Faulted}
use mks.Memory.Page.{Got, get_free_page-Got}

abbrev memory : Memory
memory = record {
  word = λ a. 0;
  mem_map = λ i. if ltb i 0x3fd then 1 else 0;
  high_memory = 0x400_0000;
}

get_free_page-Got_example : Got memory (get_free_page memory)
get_free_page-Got_example = get_free_page-Got memory

-- Page 5 has two users, and page 300 is free.
abbrev shared : Memory
shared = record {
  word = λ a. if a == 0x7000 then 0x8007 else if a == 0x8014 then 0x5005 else a;
  mem_map = λ i. if i == 5 then 2 else if ltb i 300 then 1 else 0;
  high_memory = 0x400_0000;
}

shared-first : FirstFree 0 shared 300
shared-first = record { from = omega arith; is_free = refl; first = λ j lo hi. ground arith }

entry-is : page_of 0x5123 shared ≡ 0x8014
unfolding page_entry table_entry
entry-is = refl

plain : needs_table 300 ≡ false
unfolding needs_table
plain = refl

do_wp_page-Copied_example :
    (m' : Memory) × (do_wp_page 0x5123 shared ≡ some m')
    × Copied (page_of 0x5123 shared) 5 300 shared m'
do_wp_page-Copied_example =
    do_wp_page-Copied 0x5123 5 300 shared (rw entry-is refl) (rw entry-is (omega arith))
      (omega arith) (omega arith) shared-first plain (rw entry-is (omega arith)) (omega arith)
      (omega arith)

-- Only page 300 is free. The table of the second 64 MB is at page 257.
abbrev one_free : Memory
one_free = record {
  word = λ a. if a == 0x7040 then 0x10_1007 else 0;
  mem_map = λ i. if i == 300 then 0 else 1;
  high_memory = 0x400_0000;
}

one_free_table : is_present (one_free.word (table_entry 0x400_6123)) ≡ true
unfolding table_entry is_present
one_free_table = refl

one_free_entry : page_of 0x400_6123 one_free ≡ 0x10_1018
unfolding table_entry page_entry
one_free_entry = refl

one_free_plain : (i : ℕ) → one_free.mem_map i ≡ 0 → needs_table i ≡ false
one_free_plain i h = let e : i ≡ 300 = ground arith in rw e plain

do_no_page-Faulted_example : Faulted 0x400_6123 one_free (do_no_page 0x400_6123 one_free)
do_no_page-Faulted_example =
    do_no_page-Faulted 0x400_6123 one_free one_free_table (omega arith)
      (rw one_free_entry (omega arith)) one_free_plain
