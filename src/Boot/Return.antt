-- ===== src/Boot/Return.antt =====
-- `main` of kernel/main.c gets to its end: the boot code leaves enough for all its loops.
use mks.Base.{
  ℕ, zero, suc, ◌+◌, ◌*◌, ◌^◌, ◌≤◌, ◌<◌, ◌≡◌, ◌≢◌, inl, inr, refl, sym, ◌∙◌, some, arith, ltb, leb,
  ◌&&◌, if◌then◌else◌,
}
use mks.Linked.{null}
use mks.Memory.{Memory, set_map, paging_pages, fill_map, mem_init}
use mks.Memory.Free.{needs_table-mod}
use mks.Memory.Shared.{IsPaged}
use mks.Proc.Start.{load}
use mks.Proc.Start.Kernel.{IsFresh, SeesKernel, share_kernel-SeesKernel}
use mks.Time.{Tm}
use mks.Time.Calendar.{IsDate}
use mks.Time.Startup.{Shows}
use mks.Boot.{Given, Whole, find_memory, main}
use mks.Boot.Pages.{first_page, find_memory-map}
use mks.Boot.Order.{InOrder, booted, no_pages, main-Booted}

fill_map-word : (k i v : ℕ) (m : Memory) → (fill_map k i v m).word ≡ m.word
unfolding fill_map
fill_map-word zero i v m = refl
fill_map-word (suc k) i v m = fill_map-word k (i + 1) v (set_map i v m)

find_memory-word : (w : ℕ) (m : Memory) → (find_memory w m).word ≡ m.word
unfolding find_memory mem_init
find_memory-word w m = fill_map-word _ _ 0 _ ∙ fill_map-word paging_pages 0 1 _

-- What the boot code leaves: the first pages are mapped to themselves, and the processes have no tables.
pub record IsLoaded (m : Memory) : Type 0 where
  pub paged : IsPaged m
  pub no_table : (i : ℕ) → 1 ≤ i → i ≤ 2 → m.word (0x7000 + 64 * i) ≡ 0

find_memory-IsFresh :
    (w : ℕ) (m : Memory)
    → w < 2 ^ 32
    → 0x10_2000 ≤ w
    → IsLoaded m
    → IsFresh (first_page w) (find_memory w m)
find_memory-IsFresh w m fits enough loaded =
    let below : first_page w + 1 < 16384 = ground arith in
    let is : (f : ℕ)
        → f < 16384
        → (find_memory w m).mem_map f
          ≡ (if leb (first_page w) f && ltb (f * 4096 + 4095) w then 0 else 1) =
      λ f lt. find_memory-map w m f fits (omega arith) lt in
    record {
      paged = record {
        directory = rw (find_memory-word w m) loaded.paged.directory;
        same = rw (find_memory-word w m) loaded.paged.same;
      };
      no_table = rw (find_memory-word w m) loaded.no_table;
      used = λ j lt. is j (omega arith) ∙ ground arith;
      free = is (first_page w) (omega arith) ∙ ground arith;
      next_free = is (first_page w + 1) below ∙ ground arith;
      plain = needs_table-mod (first_page w) (omega arith) ∙ ground arith;
      next_plain = needs_table-mod (first_page w + 1) below ∙ ground arith;
      from = ground arith;
      below = below;
    }

-- Where the CMOS clock shows a date of 1970 to 2069 at every read, neither the first process nor the array
-- of hardware messages lies at address 0, the memory is at least 1 MB and two pages large, the boot code
-- has mapped the first pages to themselves and the processes have no tables yet: from the data that the
-- program is loaded with, `main` gets to the point where it turns the interrupts on. Then the process table,
-- the ready queues, the shift queue and the cursor are in order, the first three processes are there and
-- see the pages of the kernel read-only, nobody waits for a message and the start time is that of the date;
-- and in every state that interrupts with handlers lead to from there, table, queues and cursor are in order.
pub main-InOrder :
    (rounds : ℕ) (g : Given) (s : Whole) (t : Tm) (n : ℕ)
    → Shows g.cmos t
    → IsDate t n
    → s.start.init_procs ≢ null
    → s.ipc.mem.slots ≢ null
    → g.mem_size < 2 ^ 32
    → 0x10_2000 ≤ g.mem_size
    → IsLoaded s.start.memory
    → (after : Whole) × (main (suc rounds) g (record s { start = load s.start }) ≡ some after)
      × InOrder g s after t n
      × SeesKernel 1 after.start.memory
      × SeesKernel 2 after.start.memory
main-InOrder rounds g s t n shows date ne ne' fits enough loaded =
    let (m₁, m₂, e₁, e₂, one, two) =
      share_kernel-SeesKernel (first_page g.mem_size) (find_memory g.mem_size s.start.memory)
        (find_memory-IsFresh g.mem_size s.start.memory fits enough loaded) in
    elim (main-Booted rounds g s t n shows date ne ne') [
      | booted after is order ↦
          let (m₁', e₁', e₂') = order.shared in
          let same₁ : m₁ ≡ m₁' = cc in
          let same : m₂ ≡ after.start.memory = cc in
          (after, is, order, rw (sym same) one, rw (sym same) two)
      | no_pages (inl h) is ↦ absurd cc
      | no_pages (inr (m₁', h, h')) is ↦ absurd cc
    ]
