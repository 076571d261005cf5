-- ===== src/Memory.antt =====
-- Physical pages and page tables: kernel/memory.c.
pub mod Fault
pub mod Free
pub mod Page
pub mod Shared
pub mod Share
pub mod Table
pub mod Copy
pub mod NoPage
pub mod Examples
use mks.Base.{
  ℕ, zero, suc, ◌+◌, ◌-◌, ◌*◌, ◌/◌, ◌%◌, ◌^◌, Bool, Option, none, some, ◌&&◌, not, ltb, ◌==◌,
  if◌then◌else◌, bit_and, bit_or, add32, sub32, update, ◌>>=◌,
}

-- `word` is the memory by the address of each long, `mem_map` the number of users of each page.
pub record Memory : Type 0 where
  pub word : ℕ → ℕ
  pub mem_map : ℕ → ℕ
  pub high_memory : ℕ

-- `PAGE_DIR_ADDR`, where the page directory lies.
abbrev pub pg_dir : ℕ
pg_dir = 0x7000

abbrev pub paging_pages : ℕ
paging_pages = 16384

-- `MAP_NR(addr)`
abbrev pub map_nr : ℕ → ℕ
map_nr addr = addr / 2 ^ 12

abbrev pub page_size : ℕ
page_size = 4096

-- The address of the directory's entry for a linear address: `pg_dir + ((addr>>20) & 0xFFC)`.
unfoldable pub table_entry : ℕ → ℕ
table_entry addr = pg_dir + bit_and (addr / 2 ^ 20) 0xffc

-- The address of the page's entry in a table: `(table & 0xFFFFF000) + ((addr>>10) & 0xFFC)`.
unfoldable pub page_entry : ℕ → ℕ → ℕ
page_entry table addr = bit_and table 0xffff_f000 + bit_and (addr / 2 ^ 10) 0xffc

-- `w & 1`, the present bit.
unfoldable pub is_present : ℕ → Bool
is_present w = not (bit_and w 1 == 0)

abbrev pub set_word : ℕ → ℕ → Memory → Memory
set_word a v m = record m { word = update m.word a v }

-- `mem_map` is an array of `unsigned char`.
abbrev pub set_map : ℕ → ℕ → Memory → Memory
set_map i v m = record m { mem_map = update m.mem_map i (v % 256) }

-- `for (i = 0; i < n; i++) mem_map[i] = v;` from `i` on, with the rounds left.
unfoldable pub fill_map : ℕ → ℕ → ℕ → Memory → Memory
fill_map zero i v m = m
fill_map (suc k) i v m = fill_map k (i + 1) v (set_map i v m)

-- All pages are in use but those of the main memory.
unfoldable pub mem_init : ℕ → ℕ → Memory → Memory
mem_init start_mem end_mem m =
    let used = fill_map paging_pages 0 1 (record m { high_memory = end_mem }) in
    fill_map (sub32 end_mem start_mem / 2 ^ 12) (map_nr start_mem) 0 used

-- `*(q++) = *(p++)` and `*(p++) = 0` over a page, with the longs left.
unfoldable pub copy_longs : ℕ → ℕ → ℕ → Memory → Memory
copy_longs zero from to m = m
copy_longs (suc k) from to m = copy_longs k (from + 4) (to + 4) (set_word to (m.word from) m)

unfoldable pub copy_page : ℕ → ℕ → Memory → Memory
copy_page from to m = copy_longs (page_size / 4) from to m

unfoldable pub clear_longs : ℕ → ℕ → Memory → Memory
clear_longs zero p m = m
clear_longs (suc k) p m = clear_longs k (p + 4) (set_word p 0 m)

-- A free page is cleared and taken. The result is its address.
unfoldable pub take_page : ℕ → Memory → ℕ × Memory
take_page i m = (i * 2 ^ 12, set_map i 1 (clear_longs (page_size / 4) (i * 2 ^ 12) m))

-- The first page from `i` on that nobody uses, with the pages left.
unfoldable pub free_page : ℕ → ℕ → Memory → Option ℕ
free_page zero i m = none
free_page (suc k) i m =
    let rest = free_page k (i + 1) m in if m.mem_map i == 0 then some i else rest

-- `(i & 0x3FF) == 0x3FD`: the table of the page after the next may be missing, and is made first.
unfoldable pub needs_table : ℕ → Bool
needs_table i = bit_and i 0x3ff == 0x3fd

-- The result of `create_page_table`: 0, 1, or -1 for none.
pub data Created : Type 0 where
  exists made failed : Created

abbrev pub is_failed : Created → Bool
is_failed failed = Bool.true
is_failed _ = Bool.false

-- `create_page_table` and `get_free_page` call each other. `get` is the latter.
unfoldable pub create_with : (Memory → Option (ℕ × Memory)) → ℕ → Memory → Option (Created × Memory)
create_with get addr m =
    if is_present (m.word (table_entry addr))
    then some (exists, m)
    else (get m >>= λ r.
        if r.0 == 0
        then some (failed, r.1)
        else some (made, set_word (table_entry addr) (bit_or r.0 7) r.1))

-- `get_free_page`, with the depth of the calls left: each holds back one more page of the pattern
-- that needs a table, and there are 16 of these.
unfoldable pub get_free_page_at : ℕ → Memory → Option (ℕ × Memory)
get_free_page_at zero m = none
get_free_page_at (suc depth) m =
    let get = get_free_page_at depth in
    elim (free_page paging_pages 0 m) [
      | none ↦ some (0, m)
      | some i ↦
          if needs_table i
          then (create_with get ((i + 2) * 2 ^ 12) (set_map i 1 m) >>= λ r.
              let m' = set_map i 0 r.1 in
              if is_failed r.0 then some (0, m') else some (take_page i m'))
          else some (take_page i m)
    ]

abbrev pub call_depth : ℕ
call_depth = 17

unfoldable pub get_free_page : Memory → Option (ℕ × Memory)
get_free_page = get_free_page_at call_depth

unfoldable pub create_page_table : ℕ → Memory → Option (Created × Memory)
create_page_table = create_with get_free_page
