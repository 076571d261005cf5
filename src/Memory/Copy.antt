-- ===== src/Memory/Copy.antt =====
-- A write to a shared page: `do_wp_page` of kernel/memory.c.
use mks.Base.{
  ℕ, zero, suc, ◌+◌, ◌*◌, ◌/◌, ◌^◌, ◌≤◌, ◌<◌, ◌≡◌, ◌≢◌, ◌⊎◌, refl, sym, ◌∙◌, ap, false, some, arith,
  ltb, ◌==◌, inl, inr, Bool-cases, update_self, update_ne, bit_and, bit_or, bit_and_0xffff_f000,
  bit_or_7,
}
use mks.Memory.{Memory, set_word, set_map, copy_longs, copy_page, take_page, needs_table}
use mks.Memory.Fault.{page_of, do_wp_page}
use mks.Memory.Free.{FirstFree, Taken, take_page-Taken}
use mks.Memory.Table.{get_free_page-first}

copy_longs-outside :
    (k from to : ℕ) (m : Memory) (a : ℕ)
    → ((j : ℕ) → j < k → a ≢ to + 4 * j)
    → (copy_longs k from to m).word a ≡ m.word a
unfolding copy_longs
copy_longs-outside zero from to m a h = refl
copy_longs-outside (suc k) from to m a h =
    copy_longs-outside k (from + 4) (to + 4) (set_word to (m.word from) m) a
      (λ j lt e. h (suc j) (omega arith) (omega arith))
    ∙ update_ne m.word to a (m.word from) (λ e. h 0 (omega arith) (omega arith))

copy_longs-word :
    (k from to : ℕ) (m : Memory) (j : ℕ)
    → (from + 4 * k ≤ to) ⊎ (to + 4 * k ≤ from)
    → j < k
    → (copy_longs k from to m).word (to + 4 * j) ≡ m.word (from + 4 * j)
unfolding copy_longs
copy_longs-word zero from to m j apart h = absurd (omega arith)
copy_longs-word (suc k) from to m zero apart h =
    let e : to + 4 * 0 ≡ to = omega arith in
    let e' : from + 4 * 0 ≡ from = omega arith in
    rw (e, e')
      (copy_longs-outside k (from + 4) (to + 4) (set_word to (m.word from) m) to
          (λ j lt. omega arith)
        ∙ update_self m.word to (m.word from))
copy_longs-word (suc k) from to m (suc j) apart h =
    let e : to + 4 * suc j ≡ to + 4 + 4 * j = omega arith in
    let e' : from + 4 * suc j ≡ from + 4 + 4 * j = omega arith in
    let apart' : (from + 4 + 4 * k ≤ to + 4) ⊎ (to + 4 + 4 * k ≤ from + 4) = elim apart [
      | inl a ↦ inl (omega arith)
      | inr a ↦ inr (omega arith)
    ] in
    rw (e, e')
      (copy_longs-word k (from + 4) (to + 4) (set_word to (m.word from) m) j apart' (omega arith)
        ∙ update_ne m.word to (from + 4 + 4 * j) (m.word from)
            (elim apart [ inl a ↦ omega arith | inr a ↦ omega arith ]))

copy_longs-map : (k from to : ℕ) (m : Memory) → (copy_longs k from to m).mem_map ≡ m.mem_map
unfolding copy_longs
copy_longs-map zero from to m = refl
copy_longs-map (suc k) from to m =
    copy_longs-map k (from + 4) (to + 4) (set_word to (m.word from) m)

-- The entry at `entry`, which led to page `old`, leads to page `f` for reading and writing, and `f` holds
-- what `old` held.
pub record Copied (entry old f : ℕ) (m m' : Memory) : Type 0 where
  pub leads : m'.word entry ≡ f * 4096 + 7
  pub same : (j : ℕ) → j < 1024 → m'.word (f * 4096 + 4 * j) ≡ m.word (old * 4096 + 4 * j)
  pub kept : (a : ℕ) → a ≢ entry → a / 4096 ≢ f → m'.word a ≡ m.word a
  pub own : m'.mem_map f ≡ 1
  pub left : m'.mem_map old + 1 ≡ m.mem_map old
  pub others : (j : ℕ) → j ≢ f → j ≢ old → m'.mem_map j ≡ m.mem_map j

module _ (addr old f : ℕ) (m : Memory) (old_is : m.word (page_of addr m) / 4096 ≡ old)
    (fits : m.word (page_of addr m) < 2 ^ 32) (f_in : f < 16384) (from : 1 ≤ f)
    (first : FirstFree 0 m f) (plain : needs_table f ≡ false) (apart : page_of addr m / 4096 ≢ f)
    (shared : 2 ≤ m.mem_map old) (counts : m.mem_map old < 256) where
  abbrev copied : Memory
  copied = set_word (page_of addr m) (f * 4096 + 7) (
      copy_page (old * 4096) (f * 4096)
        (set_map old ((take_page f m).1.mem_map old + 255) (take_page f m).1))

  other : old ≢ f
  other e = omega (arith, first.is_free, ap m.mem_map e)

  -- The case of a page with more users than one, where `f` is the first free page.
  do_wp_page-copied : do_wp_page addr m ≡ some copied
  unfolding do_wp_page take_page
  do_wp_page-copied =
      let old-is : bit_and (m.word (page_of addr m)) 0xffff_f000 ≡ old * 4096 =
        bit_and_0xffff_f000 _ fits ∙ omega arith in
      let number : old * 4096 / 2 ^ 12 ≡ old = omega arith in
      let many : (m.mem_map old == 1) ≡ false = ground arith in
      let found : (f * 2 ^ 12 == 0) ≡ false = ground arith in
      let entry : bit_or (f * 4096) 7 ≡ f * 4096 + 7 = bit_or_7 (f * 4096) (omega arith) in
      rw (old-is, number, many, get_free_page-first m f f_in first plain, found, entry) refl

  far : (old * 4096 + 4 * 1024 ≤ f * 4096) ⊎ (f * 4096 + 4 * 1024 ≤ old * 4096)
  far = elim (Bool-cases (ltb old f)) [
    | inl lt ↦ inl (ground arith)
    | inr ge ↦ inr (ground (arith, other))
  ]

  copied_map :
      (before : Memory) → (copy_page (old * 4096) (f * 4096) before).mem_map ≡ before.mem_map
  unfolding copy_page
  copied_map before = copy_longs-map 1024 (old * 4096) (f * 4096) before

  copied_word :
      (before : Memory) (j : ℕ)
      → j < 1024
      → (copy_page (old * 4096) (f * 4096) before).word (f * 4096 + 4 * j)
        ≡ before.word (old * 4096 + 4 * j)
  unfolding copy_page
  copied_word before j lt = copy_longs-word 1024 (old * 4096) (f * 4096) before j far lt

  copied_outside :
      (before : Memory) (a : ℕ)
      → ((j : ℕ) → j < 1024 → a ≢ f * 4096 + 4 * j)
      → (copy_page (old * 4096) (f * 4096) before).word a ≡ before.word a
  unfolding copy_page
  copied_outside before a h = copy_longs-outside 1024 (old * 4096) (f * 4096) before a h

  copied-Copied : Copied (page_of addr m) old f m copied
  copied-Copied =
      let t : Taken f m (take_page f m).1 = take_page-Taken f m in
      let before : Memory = set_map old ((take_page f m).1.mem_map old + 255) (take_page f m).1 in
      let is_map : (copy_page (old * 4096) (f * 4096) before).mem_map ≡ before.mem_map =
        copied_map before in
      let left-is : (copy_page (old * 4096) (f * 4096) before).mem_map old + 1 ≡ m.mem_map old =
        rw
          (ap (λ g. g old) is_map ∙ update_self (take_page f m).1.mem_map old _, t.others old other)
          (omega arith) in
      record {
        leads = update_self _ (page_of addr m) (f * 4096 + 7);
        same = λ j lt.
            update_ne _ (page_of addr m) (f * 4096 + 4 * j) _
              (λ e. apart (ap (λ a. a / 4096) (sym e) ∙ omega arith))
            ∙ copied_word before j lt
            ∙ t.outside (old * 4096 + 4 * j) (λ n h e. other (omega arith));
        kept = λ a ne out.
            update_ne _ (page_of addr m) a _ ne
            ∙ copied_outside before a (λ j lt e. out (omega arith))
            ∙ t.outside a (λ j lt e. out (omega arith));
        own =
            ap (λ g. g f) is_map
            ∙ update_ne (take_page f m).1.mem_map old f _ (λ e. other (sym e))
            ∙ t.used;
        left = left-is;
        others = λ j ne ne'.
            ap (λ g. g j) is_map ∙ update_ne (take_page f m).1.mem_map old j _ ne' ∙ t.others j ne;
      }

  -- A write to a page with more users than one, where the first free page `f` holds back no table and the
  -- entry does not lie in it: the entry then leads to `f` for reading and writing, `f` holds what the page
  -- held and has one user, the page has one user less, and no other word and no other count has changed.
  pub do_wp_page-Copied :
      (m' : Memory) × (do_wp_page addr m ≡ some m') × Copied (page_of addr m) old f m m'
  do_wp_page-Copied = (copied, do_wp_page-copied, copied-Copied)
