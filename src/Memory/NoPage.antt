-- ===== src/Memory/NoPage.antt =====
-- A page that is not there: `do_no_page` of kernel/memory.c, where the table of the address is there.
use mks.Base.{
  ℕ, suc, ◌+◌, ◌*◌, ◌/◌, ◌^◌, ◌≤◌, ◌<◌, ◌≡◌, ◌≢◌, refl, sym, ◌∙◌, ap, true, false, Option, none,
  some, Bool-cases, arith, ltb, ◌==◌, inl, inr, update_self, update_ne, bit_or, bit_and_0xffff_f000,
  bit_or_7,
}
use mks.Memory.{
  Memory, is_present, table_entry, set_word, take_page, needs_table, free_page, get_free_page,
  get_free_page_at, paging_pages,
}
use mks.Memory.Fault.{paging_memory, page_of, map_page, do_no_page}
use mks.Memory.Free.{FirstFree, Found, page, all_used, free_page-Found, Taken, take_page-Taken}
use mks.Memory.Table.{get_free_page-first}
use mks.Memory.Shared.{need_table-stays}

-- The entry leads to page `f` for reading and writing. The page is empty and has one user.
pub record Given (entry f : ℕ) (m m' : Memory) : Type 0 where
  pub leads : m'.word entry ≡ f * 4096 + 7
  pub empty : (j : ℕ) → j < 1024 → m'.word (f * 4096 + 4 * j) ≡ 0
  pub own : m'.mem_map f ≡ 1
  pub others : (j : ℕ) → j ≢ f → m'.mem_map j ≡ m.mem_map j
  pub kept : (a : ℕ) → a ≢ entry → a / 4096 ≢ f → m'.word a ≡ m.word a

-- How a fault ends: below 64 MB the page is mapped to itself, above it the entry leads to the first free page,
-- and where no page is free nothing is done.
pub data Faulted (addr : ℕ) (m : Memory) (r : Option Memory) : Type 0 where
  itself :
      (m' : Memory)
      → addr < paging_memory
      → r ≡ some m'
      → m'.word (page_of addr m) ≡ addr / 4096 * 4096 + 7
      → ((a : ℕ) → a ≢ page_of addr m → m'.word a ≡ m.word a)
      → m'.mem_map ≡ m.mem_map
      → Faulted addr m r
  given :
      (f : ℕ) (m' : Memory)
      → paging_memory ≤ addr
      → FirstFree 0 m f
      → r ≡ some m'
      → Given (page_of addr m) f m m'
      → Faulted addr m r
  full :
      paging_memory ≤ addr
      → ((i : ℕ) → i < paging_pages → m.mem_map i ≢ 0)
      → r ≡ some m
      → Faulted addr m r

taken-Given :
    (entry f : ℕ) (m : Memory)
    → entry / 4096 ≢ f
    → Given entry f m (set_word entry (f * 4096 + 7) (take_page f m).1)
taken-Given entry f m apart =
    let t : Taken f m (take_page f m).1 = take_page-Taken f m in
    record {
      leads = update_self _ entry (f * 4096 + 7);
      empty = λ j lt.
          update_ne _ entry (f * 4096 + 4 * j) _
            (λ e. apart (ap (λ a. a / 4096) (sym e) ∙ omega arith))
          ∙ t.cleared j lt;
      own = t.used;
      others = t.others;
      kept = λ a ne out. update_ne _ entry a _ ne ∙ t.outside a (λ j lt e. out (omega arith));
    }

get_free_page_at-full :
    (depth : ℕ) (m : Memory)
    → free_page paging_pages 0 m ≡ none
    → get_free_page_at (suc depth) m ≡ some (0, m)
unfolding get_free_page_at
get_free_page_at-full depth m e = rw (get_free_page_at, e) refl

get_free_page-full :
    (m : Memory) → free_page paging_pages 0 m ≡ none → get_free_page m ≡ some (0, m)
unfolding get_free_page
get_free_page-full m e = get_free_page_at-full 16 m e

module _ (addr : ℕ) (m : Memory) where
  map_page-low :
      addr < paging_memory
      → map_page addr m ≡ some (set_word (page_of addr m) (addr / 4096 * 4096 + 7) m)
  unfolding map_page
  map_page-low low =
      let below : ltb addr paging_memory ≡ true = ground arith in
      rw
        (below, bit_and_0xffff_f000 addr (omega arith), bit_or_7 (addr / 4096 * 4096) (omega arith))
        refl

  map_page-high :
      (f : ℕ)
      → paging_memory ≤ addr
      → 1 ≤ f
      → get_free_page m ≡ some (take_page f m)
      → map_page addr m ≡ some (set_word (page_of addr m) (f * 4096 + 7) (take_page f m).1)
  unfolding map_page take_page
  map_page-high f high from found =
      let above : ltb addr paging_memory ≡ false = ground arith in
      let there : (f * 2 ^ 12 == 0) ≡ false = ground arith in
      let flags : bit_or (f * 2 ^ 12) 7 ≡ f * 4096 + 7 = bit_or_7 (f * 2 ^ 12) (omega arith) in
      rw (above, found, there, flags) refl

  map_page-full : paging_memory ≤ addr → get_free_page m ≡ some (0, m) → map_page addr m ≡ some m
  unfolding map_page
  map_page-full high found =
      let above : ltb addr paging_memory ≡ false = ground arith in rw (above, found) refl

  -- Where the table of the address is there, the page 0 and the page of the entry are in use, and no free page
  -- holds back a table: `do_no_page` returns. An address below 64 MB is mapped to itself, and nothing else
  -- changes. Above it the entry leads to the first free page, which is empty and has one user, and no other
  -- word outside of this page and no other count has changed. Where no page is free, nothing has changed.
  pub do_no_page-Faulted :
      is_present (m.word (table_entry addr)) ≡ true
      → m.mem_map 0 ≢ 0
      → m.mem_map (page_of addr m / 4096) ≢ 0
      → ((i : ℕ) → m.mem_map i ≡ 0 → needs_table i ≡ false)
      → Faulted addr m (do_no_page addr m)
  unfolding do_no_page
  do_no_page-Faulted table zero_used entry_used plain =
      rw (need_table-stays addr m table) (elim (Bool-cases (ltb addr paging_memory)) [
        | inl low ↦
            itself _ (ground arith) (map_page-low (ground arith))
              (update_self m.word (page_of addr m) (addr / 4096 * 4096 + 7))
              (λ a ne. update_ne m.word (page_of addr m) a _ ne) refl
        | inr high ↦ above (ground arith) (free_page-Found paging_pages 0 m)
      ])
    where
      above :
          paging_memory ≤ addr
          → Found paging_pages 0 m (free_page paging_pages 0 m)
          → Faulted addr m (map_page addr m)
      above high (page f lt first is) =
          let other : f ≢ 0 = λ e. zero_used (ap m.mem_map (sym e) ∙ first.is_free) in
          let from : 1 ≤ f = omega (arith, other) in
          given f _ high first
            (map_page-high f high from
              (get_free_page-first m f (omega arith) first (plain f first.is_free)))
            (taken-Given (page_of addr m) f m (λ e. entry_used (ap m.mem_map e ∙ first.is_free)))
      above high (all_used used is) =
          full high (λ i lt. used i (omega arith) (omega arith))
            (map_page-full high (get_free_page-full m is))
