-- ===== src/Memory/Table.antt =====
-- The page table of a process, which the first page that `proc_init` shares with it needs: kernel/memory.c.
use mks.Base.{
  ℕ, suc, ◌+◌, ◌*◌, ◌^◌, ◌≤◌, ◌<◌, ◌≡◌, refl, sym, ◌∙◌, ap, false, some, arith, ltb, ◌==◌, ==_true,
  inl, inr, Bool-cases, update_self, update_ne, upto-at, bit_and, bit_or, bit_or_7,
}
use mks.Memory.{
  made, Memory, is_present, set_word, take_page, free_page, needs_table, get_free_page,
  get_free_page_at, create_page_table, create_with, paging_pages,
}
use mks.Memory.Fault.{rounds, need_table, share_page, share_pages, share_multi_pages}
use mks.Memory.Free.{FirstFree, Found, page, all_used, free_page-Found, Taken, take_page-Taken}
use mks.Memory.Shared.{
  IsPaged, present, high_table, need_table-stays, low_stays, Linked, share_pages-Linked,
}

pub free_page-first :
    (m : Memory) (f : ℕ) → f < paging_pages → FirstFree 0 m f → free_page paging_pages 0 m ≡ some f
free_page-first m f lt first = go (free_page-Found paging_pages 0 m)
  where
    go : Found paging_pages 0 m (free_page paging_pages 0 m) → free_page paging_pages 0 m ≡ some f
    go (page p lt' first' is) = elim (Bool-cases (p == f)) [
      | inl e ↦ is ∙ ap some (==_true p f e)
      | inr ne ↦ elim (Bool-cases (ltb p f)) [
        | inl before ↦ absurd (first.first p (omega arith) (ground arith) first'.is_free)
        | inr after ↦ absurd (first'.first f (omega arith) (ground arith) first.is_free)
      ]
    ]
    go (all_used h is) = absurd (h f (omega arith) (omega arith) first.is_free)

get_free_page_at-first :
    (depth : ℕ) (m : Memory) (f : ℕ)
    → f < paging_pages
    → FirstFree 0 m f
    → needs_table f ≡ false
    → get_free_page_at (suc depth) m ≡ some (take_page f m)
unfolding get_free_page_at
get_free_page_at-first depth m f lt first plain =
    rw (get_free_page_at, free_page-first m f lt first, plain) refl

pub get_free_page-first :
    (m : Memory) (f : ℕ)
    → f < paging_pages
    → FirstFree 0 m f
    → needs_table f ≡ false
    → get_free_page m ≡ some (take_page f m)
unfolding get_free_page
get_free_page-first m f lt first plain = get_free_page_at-first 16 m f lt first plain

-- With a table for the process `i` in the page `f`.
abbrev pub tabled : ℕ → ℕ → Memory → Memory
tabled f i m = set_word (0x7000 + 64 * i) (4096 * f + 7) (take_page f m).1

none_present : is_present 0 ≡ false
unfolding is_present
none_present = refl

module _ (f i : ℕ) (f_in : f < 16384) (i_in : i < 64) (i_from : 1 ≤ i) (above : 9 ≤ f) (m : Memory)
    (first : FirstFree 0 m f) (plain : needs_table f ≡ false) (paged : IsPaged m)
    (absent : m.word (0x7000 + 64 * i) ≡ 0) where
  create_page_table-tabled :
      create_page_table (0x400_0000 * i + 4096 * 0) m ≡ some (made, tabled f i m)
  unfolding create_page_table create_with take_page
  create_page_table-tabled =
      let found : (f * 2 ^ 12 == 0) ≡ false = ground arith in
      let entry : bit_or (f * 2 ^ 12) 7 ≡ 4096 * f + 7 =
        bit_or_7 (f * 2 ^ 12) (omega arith) ∙ omega arith in
      rw
        (
          high_table i 0 i_in (omega arith),
          absent,
          none_present,
          get_free_page-first m f f_in first plain,
          found,
          entry,
        )
        refl

  tabled-entry : (tabled f i m).word (0x7000 + 64 * i) ≡ 4096 * f + 7
  tabled-entry = update_self _ (0x7000 + 64 * i) (4096 * f + 7)

  need_table-tabled : need_table rounds (0x400_0000 * i + 4096 * 0) m ≡ some (tabled f i m)
  unfolding need_table
  need_table-tabled =
      rw
        (
          create_page_table-tabled,
          high_table i 0 i_in (omega arith),
          absent,
          none_present,
          tabled-entry,
          present f,
        )
        refl

  tabled-IsPaged : IsPaged (tabled f i m)
  tabled-IsPaged =
      let t : Taken f m (take_page f m).1 = take_page-Taken f m in
      record {
        directory =
            update_ne _ (0x7000 + 64 * i) 0x7000 _ (omega arith)
            ∙ t.outside 0x7000 (λ j lt. omega arith)
            ∙ paged.directory;
        same = λ j lt.
            update_ne _ (0x7000 + 64 * i) (0x8000 + 4 * j) _ (omega arith)
            ∙ t.outside (0x8000 + 4 * j) (λ n h. omega arith)
            ∙ paged.same j lt;
      }

  share_page-tabled :
      share_page (4096 * 0) (0x400_0000 * i + 4096 * 0) m
      ≡ share_page (4096 * 0) (0x400_0000 * i + 4096 * 0) (tabled f i m)
  share_page-tabled =
      rw
        (
          low_stays 0 (0x400_0000 * i + 4096 * 0) m paged (omega arith),
          low_stays 0 (0x400_0000 * i + 4096 * 0) (tabled f i m) tabled-IsPaged (omega arith),
          need_table-tabled,
          need_table-stays (0x400_0000 * i + 4096 * 0) (tabled f i m)
              (rw (high_table i 0 i_in (omega arith), tabled-entry) (present f)),
        )
        refl

  share_pages-tabled :
      share_pages 160 (4096 * 0) (0x400_0000 * i + 4096 * 0) m
      ≡ share_pages 160 (4096 * 0) (0x400_0000 * i + 4096 * 0) (tabled f i m)
  unfolding share_pages
  share_pages-tabled = rw share_page-tabled refl

  whole : bit_and (0x400_0000 * i) 0xfff ≡ 0
  whole = ==_true _ _ (upto-at 64 (λ i. bit_and (0x400_0000 * i) 0xfff == 0) i refl i_in)

  pub share_multi_pages-Linked :
      (m' : Memory) × (share_multi_pages 0 (0x400_0000 * i) 160 m ≡ some (1, m'))
      × Linked f i f_in i_in 160 0 (tabled f i m) m'
  unfolding share_multi_pages
  share_multi_pages-Linked =
      let (m', is, h) =
        share_pages-Linked f i f_in i_in 160 0 (tabled f i m) above tabled-IsPaged tabled-entry
          (omega arith) in
      let from_is : 4096 * 0 ≡ 0 = refl in
      let to_is : 0x400_0000 * i + 4096 * 0 ≡ 0x400_0000 * i = omega arith in
      let e : share_pages 160 0 (0x400_0000 * i) m ≡ some m' =
        ap (λ a. share_pages 160 0 a m) (sym to_is) ∙ share_pages-tabled ∙ is in
      (m', rw (whole, e) refl, h)
