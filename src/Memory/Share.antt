-- ===== src/Memory/Share.antt =====
-- A page of a process that another process gets to see: `share_page` of kernel/memory.c, as the big messages
-- of kernel/messaging.c use it.
use mks.Base.{
  ℕ, ◌+◌, ◌*◌, ◌/◌, ◌%◌, ◌^◌, ◌≤◌, ◌<◌, ◌≡◌, ◌≢◌, refl, ◌∙◌, ap, true, false, some, arith, ltb,
  ◌==◌, update, update_self, update_ne, bit_and_0xffff_fffd, inl, inr, Bool-cases, ==_true,
}
use mks.Memory.{Memory, is_present, table_entry, set_word, set_map}
use mks.Memory.Fault.{paging_memory, page_of, link_page, share_page}
use mks.Memory.Shared.{need_table-stays, fault_table-stays, fault_page-stays}

-- The entry of an address is there, and what it holds leads to a page.
pub record Mapped (addr : ℕ) (m : Memory) : Type 0 where
  pub table : is_present (m.word (table_entry addr)) ≡ true
  pub page : is_present (m.word (page_of addr m)) ≡ true

-- An entry without the permission to write.
abbrev pub read_only : ℕ → ℕ
read_only v = v / 4 * 4 + v % 2

-- The entry at `from` led by `v` to a page. Now it leads to the same page and so does the entry at `to`, both
-- without the permission to write, and the page has one user more. All else is as before.
pub record Shared (from to v : ℕ) (m m' : Memory) : Type 0 where
  pub sender : m'.word from ≡ read_only v
  pub receiver : m'.word to ≡ read_only v
  pub users : m'.mem_map (v / 2 ^ 12) ≡ (m.mem_map (v / 2 ^ 12) + 1) % 256
  pub other_users : (n : ℕ) → n ≢ v / 2 ^ 12 → m'.mem_map n ≡ m.mem_map n
  pub words : (x : ℕ) → x ≢ from → x ≢ to → m'.word x ≡ m.word x

module _ (from to : ℕ) (m : Memory) where
  abbrev entry : ℕ
  entry = m.word (page_of from m)

  abbrev linked : Memory
  linked =
      let counted = set_map (entry / 2 ^ 12) (m.mem_map (entry / 2 ^ 12) + 1) m in
      set_word (page_of from m) (read_only entry)
        (set_word (page_of to m) (read_only entry) counted)

  linked-Shared : Shared (page_of from m) (page_of to m) entry m linked
  linked-Shared =
      let inner = update m.word (page_of to m) (read_only entry) in
      record {
        sender = update_self inner (page_of from m) (read_only entry);
        receiver = elim (Bool-cases (page_of to m == page_of from m)) [
          | inl e ↦
              ap (update inner (page_of from m) (read_only entry)) (==_true _ _ e)
              ∙ update_self inner (page_of from m) (read_only entry)
          | inr e ↦
              update_ne inner (page_of from m) (page_of to m) (read_only entry) (ground arith)
              ∙ update_self m.word (page_of to m) (read_only entry)
        ];
        users = update_self m.mem_map (entry / 2 ^ 12) _;
        other_users = λ n ne. update_ne m.mem_map (entry / 2 ^ 12) n _ ne;
        words = λ x ne ne'.
            update_ne inner (page_of from m) x (read_only entry) ne
            ∙ update_ne m.word (page_of to m) x (read_only entry) ne';
      }

  link_page-linked : paging_memory ≤ from → entry < 2 ^ 32 → link_page from to m ≡ linked
  unfolding link_page
  link_page-linked high fits =
      let above : ltb from paging_memory ≡ false = ground arith in
      rw (above, bit_and_0xffff_fffd entry fits) refl

  pub share_page-Shared :
      paging_memory ≤ from
      → Mapped from m
      → entry < 2 ^ 32
      → is_present (m.word (table_entry to)) ≡ true
      → (m' : Memory) × (share_page from to m ≡ some m')
        × Shared (page_of from m) (page_of to m) entry m m'
  unfolding share_page
  share_page-Shared high mapped fits table = (
    linked,
    rw
        (
          fault_table-stays from m mapped.table,
          fault_page-stays from m mapped.page,
          need_table-stays to m table,
        )
        (ap some (link_page-linked high fits)),
    linked-Shared,
  )
