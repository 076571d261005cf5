-- ===== src/Proc/Start/Kernel.antt =====
-- The pages of the kernel in the address spaces of the first processes: `proc_init` of kernel/proc.c with
-- `share_multi_pages` of kernel/memory.c.
use mks.Base.{
  ℕ, ◌+◌, ◌*◌, ◌≤◌, ◌<◌, ◌≡◌, ◌≢◌, refl, ◌∙◌, false, some, arith, ltb, ◌==◌, ==_true, inl, inr,
  Bool-cases, update_self, update_ne,
}
use mks.Memory.{Memory, needs_table, take_page}
use mks.Memory.Fault.{page_of, share_multi_pages}
use mks.Memory.Free.{FirstFree, Taken, take_page-Taken}
use mks.Memory.Shared.{IsPaged, high_table, high_page, Linked}
use mks.Memory.Table.{tabled, share_multi_pages-Linked}
use mks.Proc.Start.{share_kernel}

-- What the boot code and `mem_init` leave for the first two calls: the first pages are mapped to
-- themselves, the processes have no tables, the pages up to `f` have one user, and `f` and the next are
-- free.
pub record IsFresh (f : ℕ) (m : Memory) : Type 0 where
  pub paged : IsPaged m
  pub no_table : (i : ℕ) → 1 ≤ i → i ≤ 2 → m.word (0x7000 + 64 * i) ≡ 0
  pub used : (j : ℕ) → j < f → m.mem_map j ≡ 1
  pub free : m.mem_map f ≡ 0
  pub next_free : m.mem_map (f + 1) ≡ 0
  pub plain : needs_table f ≡ false
  pub next_plain : needs_table (f + 1) ≡ false
  pub from : 256 ≤ f
  pub below : f + 1 < 16384

-- The process `i` reads the kernel's pages at its own addresses, and cannot write them.
abbrev pub SeesKernel : ℕ → Memory → Type 0
SeesKernel i m = (n : ℕ) → n < 160 → m.word (page_of (0x400_0000 * i + 4096 * n) m) ≡ 4096 * n + 5

sees :
    (f i : ℕ) (m : Memory)
    → f < 16384
    → i < 64
    → m.word (0x7000 + 64 * i) ≡ 4096 * f + 7
    → ((n : ℕ) → n < 160 → m.word (4096 * f + 4 * n) ≡ 4096 * n + 5)
    → SeesKernel i m
sees f i m f_in i_in table entries n lt =
    rw (high_table i n i_in lt, table, high_page f i n f_in i_in lt) (entries n lt)

share_kernel-is :
    (i : ℕ) (m m' : Memory)
    → (i == 0) ≡ false
    → share_multi_pages 0 (0x400_0000 * i) 160 m ≡ some (1, m')
    → share_kernel i m ≡ some m'
unfolding share_kernel
share_kernel-is i m m' ne e = rw (ne, e) refl

module _ (f : ℕ) (m : Memory) (fresh : IsFresh f m) where
  f_in : f < 16384
  f_in = omega (arith, fresh.below)

  first : FirstFree 0 m f
  first = record {
    from = omega arith;
    is_free = fresh.free;
    first = λ j lo hi. rw (fresh.used j hi) (ground arith);
  }

  taken : Taken f m (take_page f m).1
  taken = take_page-Taken f m

  module _ (m₁ : Memory) (h : Linked f 1 f_in (omega arith) 160 0 (tabled f 1 m) m₁) where
    entry-kept : m₁.word 0x7040 ≡ 4096 * f + 7
    entry-kept =
        h.words 0x7040 (inl (omega (arith, fresh.from)))
        ∙ update_self (take_page f m).1.word 0x7040 (4096 * f + 7)

    no_table-kept : m₁.word 0x7080 ≡ 0
    no_table-kept =
        h.words 0x7080 (inl (omega (arith, fresh.from)))
        ∙ update_ne (take_page f m).1.word 0x7040 0x7080 (4096 * f + 7) (omega arith)
        ∙ taken.outside 0x7080 (λ j lt. omega (arith, fresh.from))
        ∙ fresh.no_table 2 (omega arith) (omega arith)

    used-kept : (j : ℕ) → j < f + 1 → m₁.mem_map j ≢ 0
    used-kept j lt = elim (Bool-cases (j == f)) [
      | inl e ↦
          rw (==_true j f e, h.users f (inl (omega (arith, fresh.from))), taken.used) (omega arith)
      | inr ne ↦
          let other : j ≢ f = ground arith in
          let one : (take_page f m).1.mem_map j ≡ 1 =
            taken.others j other ∙ fresh.used j (omega arith) in
          elim (Bool-cases (ltb j 160)) [
            | inl low ↦ rw (h.counted j (omega arith) (ground arith), one) (omega arith)
            | inr high ↦ rw (h.users j (inl (ground arith)), one) (omega arith)
          ]
    ]

    next_first : FirstFree 0 m₁ (f + 1)
    next_first = record {
      from = omega arith;
      is_free =
          h.users (f + 1) (inl (omega (arith, fresh.from)))
          ∙ taken.others (f + 1) (omega arith)
          ∙ fresh.next_free;
      first = λ j lo hi. used-kept j hi;
    }

  -- Where the first pages are mapped to themselves, the processes 1 and 2 have no tables, the pages up to
  -- `f` have one user, and `f`, from 256 on, and the next are free and hold back no table: the calls of
  -- `share_multi_pages` for the two processes return, and afterwards both see the 160 pages of the kernel,
  -- read-only.
  pub share_kernel-SeesKernel :
      (m₁ : Memory) × (m₂ : Memory) × (share_kernel 1 m ≡ some m₁)
      × (share_kernel 2 m₁ ≡ some m₂)
      × SeesKernel 1 m₂
      × SeesKernel 2 m₂
  share_kernel-SeesKernel =
      let (m₁, is₁, h₁) =
        share_multi_pages-Linked f 1 f_in (omega arith) (omega arith) (omega (arith, fresh.from)) m
          first fresh.plain fresh.paged (fresh.no_table 1 (omega arith) (omega arith)) in
      let (m₂, is₂, h₂) =
        share_multi_pages-Linked (f + 1) 2 fresh.below (omega arith) (omega arith)
          (omega (arith, fresh.from)) m₁ (next_first m₁ h₁) fresh.next_plain h₁.paged
          (no_table-kept m₁ h₁) in
      let taken₂ : Taken (f + 1) m₁ (take_page (f + 1) m₁).1 = take_page-Taken (f + 1) m₁ in
      let low : (a : ℕ) → a < 4096 * (f + 1) → a ≢ 0x7080 → m₂.word a ≡ m₁.word a = λ a lt ne.
        h₂.words a (inl (omega arith))
        ∙ update_ne (take_page (f + 1) m₁).1.word 0x7080 a (4096 * (f + 1) + 7) ne
        ∙ taken₂.outside a (λ j h. omega arith) in
      let entry₂ : m₂.word 0x7080 ≡ 4096 * (f + 1) + 7 =
        h₂.words 0x7080 (inl (omega (arith, fresh.from)))
        ∙ update_self (take_page (f + 1) m₁).1.word 0x7080 (4096 * (f + 1) + 7) in
      (
        m₁,
        m₂,
        share_kernel-is 1 m m₁ refl is₁,
        share_kernel-is 2 m₁ m₂ refl is₂,
        sees f 1 m₂ f_in (omega arith)
            (low 0x7040 (omega (arith, fresh.from)) (omega arith) ∙ entry-kept m₁ h₁)
            (λ n lt.
              low (4096 * f + 4 * n) (omega arith) (omega (arith, fresh.from))
              ∙ h₁.entries n (omega arith) (omega arith)),
        sees (f + 1) 2 m₂ fresh.below (omega arith) entry₂
            (λ n lt. h₂.entries n (omega arith) (omega arith)),
      )
