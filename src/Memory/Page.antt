-- ===== src/Memory/Page.antt =====
-- `get_free_page` and `create_page_table` of kernel/memory.c, which call each other: that the calls
-- end, and whose page is taken.
use mks.Base.{
  ℕ, zero, suc, ◌+◌, ◌*◌, ◌/◌, ◌^◌, ◌≤◌, ◌<◌, ◌≡◌, ◌≢◌, refl, sym, ◌∙◌, Option, some, arith, ◌==◌,
  ==_true, inl, inr, Bool-cases, if◌then◌else◌, bit_or, update_ne, update_self, ◌%◌, ltb, ◌>>=◌,
}
use mks.Memory.{
  Memory, free_page, take_page, set_word, set_map, paging_pages, is_present, table_entry,
  needs_table, Created, made, failed, is_failed, create_with, get_free_page_at, get_free_page,
  call_depth,
}
use mks.Memory.Free.{
  FirstFree, Found, page, all_used, free_page-Found, IsZero, take_page-Taken, needs_table-mod,
}

-- The pages in use stay in use as they are.
abbrev pub Keeps : Memory → Memory → Type 0
Keeps m m' = (j : ℕ) → m.mem_map j ≢ 0 → m'.mem_map j ≡ m.mem_map j

-- The address 0 for no page, or the address of a page that nobody used, cleared and now used once.
pub data Got (m : Memory) (r : Option (ℕ × Memory)) : Type 0 where
  nothing : (m' : Memory) → Keeps m m' → r ≡ some (0, m') → Got m r
  got :
      (p : ℕ) (m' : Memory)
      → m.mem_map p ≡ 0
      → p < paging_pages
      → Keeps m m'
      → IsZero (p * 4096) m'
      → m'.mem_map p ≡ 1
      → r ≡ some (p * 4096, m')
      → Got m r

take-Got :
    (i : ℕ) (m m' : Memory)
    → m.mem_map i ≡ 0
    → i < paging_pages
    → Keeps m m'
    → Got m (some (take_page i m'))
unfolding take_page
take-Got i m m' free lt keeps =
    let t = take_page-Taken i m' in
    got i (take_page i m').1 free lt (λ j used. t.others j (λ e. used (rw e free)) ∙ keeps j used)
      t.cleared t.used refl

-- What `create_page_table` does with the result of its call.
abbrev linked : ℕ → Option (ℕ × Memory) → Option (Created × Memory)
linked addr o = o >>= λ r.
    if r.0 == 0
    then some (failed, r.1)
    else some (made, set_word (table_entry addr) (bit_or r.0 7) r.1)

-- What `get_free_page` does after it.
abbrev taken : ℕ → Created × Memory → Option (ℕ × Memory)
taken i r =
    let m' = set_map i 0 r.1 in if is_failed r.0 then some (0, m') else some (take_page i m')

module _ (i : ℕ) (m : Memory) (free : m.mem_map i ≡ 0) where
  -- Page `i` is held back during a call, and given free again.
  held-Keeps : (m' : Memory) → Keeps (set_map i 1 m) m' → Keeps m (set_map i 0 m')
  held-Keeps m' keeps j used =
      let ne : j ≢ i = λ e. used (rw e free) in
      let same = update_ne m.mem_map i j 1 ne in
      update_ne m'.mem_map i j 0 ne ∙ keeps j (λ e. used (sym same ∙ e)) ∙ same

  with_table-Got :
      (get : Memory → Option (ℕ × Memory)) (addr : ℕ)
      → i < paging_pages
      → Got (set_map i 1 m) (get (set_map i 1 m))
      → Got m (create_with get addr (set_map i 1 m) >>= taken i)
  unfolding create_with
  with_table-Got get addr lt inner = elim (Bool-cases (is_present (m.word (table_entry addr)))) [
    | inl there ↦ rw there (take-Got i m _ free lt (held-Keeps (set_map i 1 m) (λ j h. refl)))
    | inr absent ↦ rw absent (go inner)
  ]
    where
      go :
          Got (set_map i 1 m) (get (set_map i 1 m))
          → Got m (linked addr (get (set_map i 1 m)) >>= taken i)
      go (nothing m' keeps e) = rw e (nothing (set_map i 0 m') (held-Keeps m' keeps) refl)
      go (got p m' f l keeps z u e) = rw e (elim (Bool-cases (p * 4096 == 0)) [
        | inl zero_page ↦ rw zero_page (nothing (set_map i 0 m') (held-Keeps m' keeps) refl)
        | inr page_there ↦ rw page_there (
            take-Got i m (set_map i 0 (set_word (table_entry addr) (bit_or (p * 4096) 7) m')) free
              lt (held-Keeps (set_word (table_entry addr) (bit_or (p * 4096) 7) m') keeps))
      ])

not_below : (m : Memory) (b i : ℕ) → ((j : ℕ) → j < b → m.mem_map j ≢ 0) → FirstFree 0 m i → b ≤ i
not_below m b i used f = elim (Bool-cases (ltb i b)) [
  | inl below ↦ absurd (used i (ground arith) f.is_free)
  | inr above ↦ ground arith
]

-- With page `i` held back, all pages up to it are in use.
used_up :
    (m : Memory) (b i : ℕ)
    → ((j : ℕ) → j < b → m.mem_map j ≢ 0)
    → FirstFree 0 m i
    → (j : ℕ) → j < i + 1
    → (set_map i 1 m).mem_map j ≢ 0
used_up m b i used f j lt = elim (Bool-cases (j == i)) [
  | inl e ↦ rw (==_true j i e, update_self m.mem_map i 1) (ground arith)
  | inr other ↦
      let ne : j ≢ i = ground arith in
      rw (update_ne m.mem_map i j 1 ne) (f.first j (omega arith) (omega arith))
]

next_depth :
    (depth b i : ℕ)
    → call_depth ≤ suc depth + (b + 2) / 1024
    → b ≤ i
    → i % 1024 ≡ 1021
    → call_depth ≤ depth + (i + 1 + 2) / 1024
next_depth depth b i enough le e = omega arith

-- The calls end: each holds back a page with a number that is 1021 over a multiple of 1024, and the
-- next one finds a greater number.
get_free_page_at-Got :
    (depth b : ℕ) (m : Memory)
    → ((j : ℕ) → j < b → m.mem_map j ≢ 0)
    → b ≤ paging_pages
    → call_depth ≤ depth + (b + 2) / 1024
    → Got m (get_free_page_at depth m)
unfolding get_free_page_at
get_free_page_at-Got zero b m used le enough = absurd (omega arith)
get_free_page_at-Got (suc depth) b m used le enough =
    go (λ b m used le enough. get_free_page_at-Got depth b m used le enough)
      (free_page-Found paging_pages 0 m)
  where
    go :
        ((b : ℕ) (m : Memory)
          → ((j : ℕ) → j < b → m.mem_map j ≢ 0)
          → b ≤ paging_pages
          → call_depth ≤ depth + (b + 2) / 1024
          → Got m (get_free_page_at depth m))
        → Found paging_pages 0 m (free_page paging_pages 0 m)
        → Got m (get_free_page_at (suc depth) m)
    go again (all_used h e) = rw (get_free_page_at, e) (nothing m (λ j h. refl) refl)
    go again (page i lt f e) =
        rw (get_free_page_at, e)
          (elim (Bool-cases (needs_table i)) [
            | inr plain ↦ rw plain (take-Got i m m f.is_free (omega arith) (λ j h. refl))
            | inl tabled ↦ rw tabled (
                with_table-Got i m f.is_free (get_free_page_at depth) ((i + 2) * 2 ^ 12)
                  (omega arith)
                  (again (i + 1) (set_map i 1 m) (used_up m b i used f) (omega arith) (
                    next_depth depth b i enough (not_below m b i used f)
                      (==_true _ _ (sym (needs_table-mod i (omega arith)) ∙ tabled)))))
          ])

-- On every memory `get_free_page` returns. It returns 0, or the address of a page of the 64 MB that
-- nobody used before; then the page is zero in all its longs and has one user. In both cases each page
-- that was in use has as many users as before.
pub get_free_page-Got : (m : Memory) → Got m (get_free_page m)
unfolding get_free_page
get_free_page-Got m =
    get_free_page_at-Got call_depth 0 m (λ j h. absurd (omega arith)) (omega arith) (omega arith)
