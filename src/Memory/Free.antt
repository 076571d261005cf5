-- ===== src/Memory/Free.antt =====
-- `get_free_page` of kernel/memory.c: whose page it takes.
use mks.Base.{
  ℕ, zero, suc, ◌+◌, ◌*◌, ◌%◌, ◌≤◌, ◌<◌, ◌≡◌, ◌≢◌, refl, ap, ◌∙◌, false, Option, none, some, arith,
  ◌==◌, ==_true, inl, inr, Bool-cases, update_self, update_ne, agree, agree_eq, upto-at, bit_and,
}
use mks.Memory.{Memory, free_page, needs_table, take_page, clear_longs, set_word}

-- The first page from `i` on that nobody uses.
pub record FirstFree (i : ℕ) (m : Memory) (p : ℕ) : Type 0 where
  pub from : i ≤ p
  pub is_free : m.mem_map p ≡ 0
  pub first : (j : ℕ) → i ≤ j → j < p → m.mem_map j ≢ 0

-- The search finds the first, or there is none.
pub data Found (k i : ℕ) (m : Memory) (r : Option ℕ) : Type 0 where
  page : (p : ℕ) → p < k + i → FirstFree i m p → r ≡ some p → Found k i m r
  all_used : ((j : ℕ) → i ≤ j → j < k + i → m.mem_map j ≢ 0) → r ≡ none → Found k i m r

pub free_page-Found : (k i : ℕ) (m : Memory) → Found k i m (free_page k i m)
unfolding free_page
free_page-Found zero i m = all_used (λ j lo hi. absurd (omega arith)) refl
free_page-Found (suc k) i m = elim (Bool-cases (m.mem_map i == 0)) [
  | inl free ↦ rw free (
      page i (omega arith)
        (record {
          from = omega arith;
          is_free = ==_true _ _ free;
          first = λ j lo hi. absurd (omega arith);
        })
        refl)
  | inr used ↦ rw used (later used (free_page-Found k (i + 1) m))
]
  where
    unused_first :
        (j : ℕ)
        → (m.mem_map i == 0) ≡ false
        → i ≤ j
        → (i + 1 ≤ j → m.mem_map j ≢ 0)
        → m.mem_map j ≢ 0
    unused_first j used lo h = elim (Bool-cases (j == i)) [
      | inl same ↦ rw (==_true j i same) (ground arith)
      | inr other ↦ h (ground arith)
    ]

    later :
        (m.mem_map i == 0) ≡ false
        → Found k (i + 1) m (free_page k (i + 1) m)
        → Found (suc k) i m (free_page k (i + 1) m)
    later used (page p lt f e) =
        page p (omega arith)
          (record {
            from = omega (arith, f.from);
            is_free = f.is_free;
            first = λ j lo hi. unused_first j used lo (λ lo'. f.first j lo' hi);
          })
          e
    later used (all_used h e) =
        all_used (λ j lo hi. unused_first j used lo (λ lo'. h j lo' (omega arith))) e

-- A page is zero in all its longs.
abbrev pub IsZero : ℕ → Memory → Type 0
IsZero a m = (j : ℕ) → j < 1024 → m.word (a + 4 * j) ≡ 0

clear_longs-outside :
    (k p : ℕ) (m : Memory) (a : ℕ)
    → ((j : ℕ) → j < k → a ≢ p + 4 * j)
    → (clear_longs k p m).word a ≡ m.word a
unfolding clear_longs
clear_longs-outside zero p m a h = refl
clear_longs-outside (suc k) p m a h =
    clear_longs-outside k (p + 4) (set_word p 0 m) a
      (λ j lt e. h (suc j) (omega arith) (omega arith))
    ∙ update_ne m.word p a 0 (λ e. h 0 (omega arith) (omega arith))

clear_longs-zero : (k p : ℕ) (m : Memory) (j : ℕ) → j < k → (clear_longs k p m).word (p + 4 * j) ≡ 0
unfolding clear_longs
clear_longs-zero zero p m j h = absurd (omega arith)
clear_longs-zero (suc k) p m zero h =
    let e : p + 4 * 0 ≡ p = omega arith in
    rw e (
      clear_longs-outside k (p + 4) (set_word p 0 m) p (λ j lt e. omega arith)
      ∙ update_self m.word p 0)
clear_longs-zero (suc k) p m (suc j) h =
    let e : p + 4 * suc j ≡ p + 4 + 4 * j = omega arith in
    rw e (clear_longs-zero k (p + 4) (set_word p 0 m) j (omega arith))

clear_longs-map : (k p : ℕ) (m : Memory) → (clear_longs k p m).mem_map ≡ m.mem_map
unfolding clear_longs
clear_longs-map zero p m = refl
clear_longs-map (suc k) p m = clear_longs-map k (p + 4) (set_word p 0 m)

-- Page `p` is cleared and counted, and nothing else has changed.
pub record Taken (p : ℕ) (m m' : Memory) : Type 0 where
  pub cleared : IsZero (p * 4096) m'
  pub used : m'.mem_map p ≡ 1
  pub others : (j : ℕ) → j ≢ p → m'.mem_map j ≡ m.mem_map j
  pub outside : (a : ℕ) → ((j : ℕ) → j < 1024 → a ≢ p * 4096 + 4 * j) → m'.word a ≡ m.word a

pub take_page-Taken : (p : ℕ) (m : Memory) → Taken p m (take_page p m).1
unfolding take_page
take_page-Taken p m = record {
  cleared = λ j lt. clear_longs-zero 1024 (p * 4096) m j lt;
  used = update_self _ p 1;
  others = λ j ne. update_ne _ p j 1 ne ∙ ap (λ f. f j) (clear_longs-map 1024 (p * 4096) m);
  outside = λ a h. clear_longs-outside 1024 (p * 4096) m a h;
}

-- The pages whose number is 1021 over a multiple of 1024.
pub needs_table-mod : (i : ℕ) → i < 16384 → needs_table i ≡ (i % 1024 == 1021)
unfolding needs_table
needs_table-mod i h =
    agree_eq _ _ (upto-at 16384 (λ i. agree (bit_and i 0x3ff == 0x3fd) (i % 1024 == 1021)) i refl h)
