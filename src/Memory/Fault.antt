-- ===== src/Memory/Fault.antt =====
-- Page faults and shared pages of kernel/memory.c. Each `while` loop repeats a call until an entry is
-- present. It takes two rounds at most, one for the call and one for the test after it: a call that
-- leaves the entry absent leaves it absent every time. `none` stands for such an endless loop.
use mks.Base.{
  ℕ, zero, suc, ◌+◌, ◌*◌, Option, none, some, ◌||◌, not, ltb, ◌==◌, if◌then◌else◌, bit_and, bit_or,
  add32, minus_one, ◌>>=◌,
}
use mks.Memory.{
  Memory, map_nr, table_entry, page_entry, is_present, set_word, set_map, copy_page, get_free_page,
  create_page_table,
}

-- 64 MB: below it, linear addresses are physical ones.
abbrev pub paging_memory : ℕ
paging_memory = 64 * 1024 * 1024

abbrev pub rounds : ℕ
rounds = 2

-- `while (!(*table & 1)) create_page_table(addr);`
unfoldable pub need_table : ℕ → ℕ → Memory → Option Memory
need_table zero addr m = none
need_table (suc k) addr m =
    let rest = create_page_table addr m >>= λ r. need_table k addr r.1 in
    if is_present (m.word (table_entry addr)) then some m else rest

abbrev pub page_of : ℕ → Memory → ℕ
page_of addr m = page_entry (m.word (table_entry addr)) addr

-- Where the table is there.
unfoldable pub map_page : ℕ → Memory → Option Memory
map_page addr m =
    if ltb addr paging_memory
    then some (set_word (page_of addr m) (bit_or (bit_and addr 0xffff_f000) 7) m)
    else (get_free_page m >>= λ r.
        if r.0 == 0 then some r.1 else some (set_word (page_of addr m) (bit_or r.0 7) r.1))

unfoldable pub do_no_page : ℕ → Memory → Option Memory
do_no_page addr m = need_table rounds addr m >>= λ m'. map_page addr m'

unfoldable pub do_wp_page : ℕ → Memory → Option Memory
do_wp_page addr m =
    let page = page_of addr m in
    let old_page = bit_and (m.word page) 0xffff_f000 in
    if m.mem_map (map_nr old_page) == 1
    then some (set_word page (bit_or (m.word page) 2) m)
    else (get_free_page m >>= λ r.
        if r.0 == 0
        then some r.1
        else let m' = set_map (map_nr old_page) (r.1.mem_map (map_nr old_page) + 255) r.1 in
          some (set_word page (bit_or r.0 7) (copy_page old_page r.0 m')))

-- `addr` is what the register cr2 holds.
unfoldable pub do_intr_page : ℕ → ℕ → Memory → Option Memory
do_intr_page addr error_code m =
    if bit_and error_code 1 == 0 then do_no_page addr m else do_wp_page addr m

-- `while (!(*from_table & 1)) do_no_page(from);`
unfoldable pub fault_table : ℕ → ℕ → Memory → Option Memory
fault_table zero addr m = none
fault_table (suc k) addr m =
    let rest = do_no_page addr m >>= λ m'. fault_table k addr m' in
    if is_present (m.word (table_entry addr)) then some m else rest

-- `while (!(*from_page & 1)) do_no_page(from);`
unfoldable pub fault_page : ℕ → ℕ → Memory → Option Memory
fault_page zero addr m = none
fault_page (suc k) addr m =
    let rest = do_no_page addr m >>= λ m'. fault_page k addr m' in
    if is_present (m.word (page_of addr m)) then some m else rest

-- Both addresses have their entries: the page is counted once more and loses its write permission.
unfoldable pub link_page : ℕ → ℕ → Memory → Memory
link_page from to m =
    let from_page = page_of from m in
    let to_page = page_of to m in
    let page = m.word from_page in
    let shared = bit_and page 0xffff_fffd in
    let m' = set_word to_page shared (set_map (map_nr page) (m.mem_map (map_nr page) + 1) m) in
    if ltb from paging_memory then m' else set_word from_page shared m'

unfoldable pub share_page : ℕ → ℕ → Memory → Option Memory
share_page from to m = fault_table rounds from m >>= λ m.
    fault_page rounds from m >>= λ m. need_table rounds to m >>= λ m. some (link_page from to m)

unfoldable pub share_pages : ℕ → ℕ → ℕ → Memory → Option Memory
share_pages zero from to m = some m
share_pages (suc amount) from to m =
    share_page from to m >>= λ m'. share_pages amount (add32 from 0x1000) (add32 to 0x1000) m'

-- The result, 1 or -1, and the memory.
unfoldable pub share_multi_pages : ℕ → ℕ → ℕ → Memory → Option (ℕ × Memory)
share_multi_pages from to amount m =
    if not (bit_and from 0xfff == 0) || not (bit_and to 0xfff == 0)
    then some (minus_one, m)
    else (share_pages amount from to m >>= λ m'. some (1, m'))
