-- ===== src/Memory/Shared.antt =====
-- The pages of the kernel in the address space of a process: `share_multi_pages` of kernel/memory.c, as
-- `proc_init` of kernel/proc.c calls it.
use mks.Base.{
  ◌⊎◌, ℕ, zero, suc, ◌+◌, ◌*◌, ◌/◌, ◌%◌, ◌^◌, ◌≤◌, ◌<◌, ◌≡◌, ◌≢◌, refl, ◌∙◌, ap, true, some, arith,
  ltb, ◌==◌, ==_true, inl, inr, Bool-cases, update_self, update_ne, bit_and_1, upto-at, bit_and,
  add32, bit_and_0xffc, bit_and_0xffff_f000, ◌>>=◌,
}
use mks.Memory.{Memory, table_entry, page_entry, is_present, set_word, set_map}
use mks.Memory.Fault.{
  rounds, paging_memory, page_of, need_table, fault_table, fault_page, link_page, share_page,
  share_pages,
}

-- What the boot code leaves: the first table lies at 0x8000, and its entries map the pages to
-- themselves.
pub record IsPaged (m : Memory) : Type 0 where
  pub directory : m.word 0x7000 ≡ 0x8007
  pub same : (j : ℕ) → j < 160 → m.word (0x8000 + 4 * j) ≡ 4096 * j + 7

low_table : (j : ℕ) → j < 160 → table_entry (4096 * j) ≡ 0x7000
unfolding table_entry
low_table j h = rw (bit_and_0xffc (4096 * j / 2 ^ 20)) (omega arith)

low_page : (j : ℕ) → j < 160 → page_entry 0x8007 (4096 * j) ≡ 0x8000 + 4 * j
unfolding page_entry
low_page j h =
    rw (bit_and_0xffc (4096 * j / 2 ^ 10), bit_and_0xffff_f000 0x8007 (omega arith)) (omega arith)

pub high_table :
    (i j : ℕ) → i < 64 → j < 160 → table_entry (0x400_0000 * i + 4096 * j) ≡ 0x7000 + 64 * i
unfolding table_entry
high_table i j hi h = rw (bit_and_0xffc ((0x400_0000 * i + 4096 * j) / 2 ^ 20)) (omega arith)

pub high_page :
    (f i j : ℕ)
    → f < 16384
    → i < 64
    → j < 160
    → page_entry (4096 * f + 7) (0x400_0000 * i + 4096 * j) ≡ 4096 * f + 4 * j
unfolding page_entry
high_page f i j hf hi h =
    rw
      (
        bit_and_0xffc ((0x400_0000 * i + 4096 * j) / 2 ^ 10),
        bit_and_0xffff_f000 (4096 * f + 7) (omega arith),
      )
      (omega arith)

read_only : (j : ℕ) → j < 160 → bit_and (4096 * j + 7) 0xffff_fffd ≡ 4096 * j + 5
read_only j h =
    ==_true _ _ (upto-at 160 (λ j. bit_and (4096 * j + 7) 0xffff_fffd == 4096 * j + 5) j refl h)

pub present : (f : ℕ) → is_present (4096 * f + 7) ≡ true
unfolding is_present
present f = rw (bit_and_1 (4096 * f + 7)) (ground arith)

-- The page `j` is one of the kernel's, and its entry in the table at page `f` leads to it, without the
-- permission to write.
abbrev linked : ℕ → ℕ → Memory → Memory
linked f j m = set_word (4096 * f + 4 * j) (4096 * j + 5) (set_map j (m.mem_map j + 1) m)

pub fault_table-stays :
    (a : ℕ) (m : Memory)
    → is_present (m.word (table_entry a)) ≡ true
    → fault_table rounds a m ≡ some m
unfolding fault_table
fault_table-stays a m h = rw h refl

pub fault_page-stays :
    (a : ℕ) (m : Memory) → is_present (m.word (page_of a m)) ≡ true → fault_page rounds a m ≡ some m
unfolding fault_page
fault_page-stays a m h = rw h refl

pub need_table-stays :
    (a : ℕ) (m : Memory)
    → is_present (m.word (table_entry a)) ≡ true
    → need_table rounds a m ≡ some m
unfolding need_table
need_table-stays a m h = rw h refl

pub low_stays :
    (j to : ℕ) (m : Memory)
    → IsPaged m
    → j < 160
    → share_page (4096 * j) to m
      ≡ (need_table rounds to m >>= λ m'. some (link_page (4096 * j) to m'))
unfolding share_page
low_stays j to m paged h =
    rw
      (
        fault_table-stays (4096 * j) m (rw (low_table j h, paged.directory) (present 8)),
        fault_page-stays (4096 * j) m
            (rw (low_table j h, paged.directory, low_page j h, paged.same j h) (present j)),
      )
      refl

module _ (f i : ℕ) (f_in : f < 16384) (i_in : i < 64) where
  link_page-linked :
      (j : ℕ) (m : Memory)
      → IsPaged m
      → m.word (0x7000 + 64 * i) ≡ 4096 * f + 7
      → j < 160
      → link_page (4096 * j) (0x400_0000 * i + 4096 * j) m ≡ linked f j m
  unfolding link_page
  link_page-linked j m paged table h =
      rw
        (
          low_table j h,
          high_table i j i_in h,
          table,
          paged.directory,
          low_page j h,
          high_page f i j f_in i_in h,
          paged.same j h,
          read_only j h,
        )
        (rw (number, low) refl)
    where
      number : (4096 * j + 7) / 2 ^ 12 ≡ j
      number = omega arith

      low : ltb (4096 * j) paging_memory ≡ true
      low = ground arith

  -- Both addresses have their tables.
  share_page-linked :
      (j : ℕ) (m : Memory)
      → IsPaged m
      → m.word (0x7000 + 64 * i) ≡ 4096 * f + 7
      → j < 160
      → share_page (4096 * j) (0x400_0000 * i + 4096 * j) m ≡ some (linked f j m)
  share_page-linked j m paged table h =
      rw
        (
          low_stays j (0x400_0000 * i + 4096 * j) m paged h,
          need_table-stays (0x400_0000 * i + 4096 * j) m
              (rw (high_table i j i_in h, table) (present f)),
        )
        (ap some (link_page-linked j m paged table h))

  -- `k` pages from page `j` on.
  pub record Linked (k j : ℕ) (m m' : Memory) : Type 0 where
    pub paged : IsPaged m'
    pub entries : (n : ℕ) → j ≤ n → n < k + j → m'.word (4096 * f + 4 * n) ≡ 4096 * n + 5
    pub words : (a : ℕ) → (a < 4096 * f + 4 * j) ⊎ (4096 * f + 640 ≤ a) → m'.word a ≡ m.word a
    pub users : (n : ℕ) → (k + j ≤ n) ⊎ (n < j) → m'.mem_map n ≡ m.mem_map n
    pub counted : (n : ℕ) → j ≤ n → n < k + j → m'.mem_map n ≡ (m.mem_map n + 1) % 256

  linked-IsPaged : (j : ℕ) (m : Memory) → 9 ≤ f → IsPaged m → IsPaged (linked f j m)
  linked-IsPaged j m above paged = record {
    directory = update_ne m.word _ 0x7000 _ (omega arith) ∙ paged.directory;
    same = λ n h. update_ne m.word _ (0x8000 + 4 * n) _ (omega arith) ∙ paged.same n h;
  }

  Linked-next :
      (k j : ℕ) (m m' : Memory)
      → suc k + j ≤ 160
      → Linked k (j + 1) (linked f j m) m'
      → Linked (suc k) j m m'
  Linked-next k j m m' fits rest = record {
    paged = rest.paged;
    entries = λ n lo hi. elim (Bool-cases (n == j)) [
      | inl e ↦ rw (==_true n j e) (
          rest.words (4096 * f + 4 * j) (inl (omega arith))
          ∙ update_self m.word (4096 * f + 4 * j) (4096 * j + 5))
      | inr ne ↦ rest.entries n (ground arith) (omega arith)
    ];
    words = λ a h. elim h [
      | inl lo ↦ rest.words a (inl (omega arith)) ∙ update_ne m.word _ a _ (omega arith)
      | inr hi ↦ rest.words a (inr hi) ∙ update_ne m.word _ a _ (omega arith)
    ];
    users = λ n h. elim h [
      | inl hi ↦ rest.users n (inl (omega arith)) ∙ update_ne m.mem_map j n _ (omega arith)
      | inr lo ↦ rest.users n (inr (omega arith)) ∙ update_ne m.mem_map j n _ (omega arith)
    ];
    counted = λ n lo hi. elim (Bool-cases (n == j)) [
      | inl e ↦ rw (==_true n j e) (rest.users j (inr (omega arith)) ∙ update_self m.mem_map j _)
      | inr ne ↦
          let other : n ≢ j = ground arith in
          rest.counted n (omega arith) (omega arith)
          ∙ ap (λ v. (v + 1) % 256) (update_ne m.mem_map j n _ other)
    ];
  }

  pub share_pages-Linked :
      (k j : ℕ) (m : Memory)
      → 9 ≤ f
      → IsPaged m
      → m.word (0x7000 + 64 * i) ≡ 4096 * f + 7
      → k + j ≤ 160
      → (m' : Memory) × (share_pages k (4096 * j) (0x400_0000 * i + 4096 * j) m ≡ some m')
        × Linked k j m m'
  unfolding share_pages
  share_pages-Linked zero j m above paged table fits = (
    m,
    refl,
    record {
      paged = paged;
      entries = λ n lo hi. absurd (omega arith);
      words = λ a h. refl;
      users = λ n h. refl;
      counted = λ n lo hi. absurd (omega arith);
    },
  )
  share_pages-Linked (suc k) j m above paged table fits =
      let kept : (linked f j m).word (0x7000 + 64 * i) ≡ 4096 * f + 7 =
        update_ne m.word _ (0x7000 + 64 * i) _ (omega arith) ∙ table in
      let (m', is, rest) =
        share_pages-Linked k (j + 1) (linked f j m) above (linked-IsPaged j m above paged) kept
          (omega arith) in
      let from_is : add32 (4096 * j) 0x1000 ≡ 4096 * (j + 1) = omega arith in
      let to_is : add32 (0x400_0000 * i + 4096 * j) 0x1000 ≡ 0x400_0000 * i + 4096 * (j + 1) =
        omega arith in
      (
        m',
        rw (share_page-linked j m paged table (omega arith), from_is, to_is) is,
        Linked-next k j m m' fits rest,
      )
