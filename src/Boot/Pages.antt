-- ===== src/Boot/Pages.antt =====
-- Which pages are free when the kernel starts: kernel/main.c and `mem_init` of kernel/memory.c.
use mks.Base.{
  ℕ, zero, suc, ◌+◌, ◌*◌, ◌/◌, ◌%◌, ◌^◌, ◌≤◌, ◌<◌, ◌≡◌, refl, arith, ltb, leb, ◌==◌, ◌&&◌, ==_true,
  inl, inr, Bool-cases, if◌then◌else◌, update_at, bit_and_0xffff_f000, sub32,
}
use mks.Memory.{Memory, fill_map, mem_init, paging_pages}
use mks.Boot.{megabyte, memory_end, buffer_memory_end, find_memory}

fill_map-at :
    (k i v j : ℕ) (m : Memory)
    → (fill_map k i v m).mem_map j ≡ (if leb i j && ltb j (k + i) then v % 256 else m.mem_map j)
unfolding fill_map
fill_map-at zero i v j m = ground arith
fill_map-at (suc k) i v j m =
    simp (fill_map-at k (i + 1) v j, update_at)
      (elim (Bool-cases (j == i)) [
        | inl e ↦ rw (e, ==_true j i e) (ground arith)
        | inr e ↦ rw e (ground arith)
      ])

memory_end-is :
    (w : ℕ)
    → w < 2 ^ 32
    → memory_end w
      ≡ (if ltb (64 * megabyte) (w / 4096 * 4096) then 64 * megabyte else w / 4096 * 4096)
unfolding memory_end
memory_end-is w h = rw (bit_and_0xffff_f000 w h) refl

-- The bounds of the main memory, in pages.
abbrev pub first_page : ℕ → ℕ
first_page w =
    if ltb (12 * megabyte) (w / 4096 * 4096)
    then 1024
    else if ltb (6 * megabyte) (w / 4096 * 4096)
    then 512
    else 256

mem_init-map :
    (lo hi j : ℕ) (m : Memory)
    → lo ≤ hi
    → hi < 2 ^ 32
    → lo % 4096 ≡ 0
    → j < paging_pages
    → (mem_init lo hi m).mem_map j ≡ (if leb (lo / 4096) j && ltb j (hi / 4096) then 0 else 1)
unfolding mem_init
mem_init-map lo hi j m le fits whole lt =
    let size : sub32 hi lo / 2 ^ 12 + lo / 4096 ≡ hi / 4096 = omega arith in
    simp (fill_map-at, size) (ground arith)

buffer-pages :
    (e : ℕ)
    → (buffer_memory_end e / 4096
        ≡ (if ltb (12 * megabyte) e then 1024 else if ltb (6 * megabyte) e then 512 else 256))
      × (buffer_memory_end e % 4096 ≡ 0)
unfolding buffer_memory_end
buffer-pages e = ground arith

buffer-le : (e : ℕ) → megabyte ≤ e → buffer_memory_end e ≤ e
unfolding buffer_memory_end
buffer-le e h = ground arith

-- For a size of the memory that is a 32-bit number and at least 1 MB, after the start of `main` a page
-- of the 64 MB is free exactly if it lies whole in the memory and behind the buffer, which ends at 4 MB
-- with more than 12 MB of memory, at 2 MB with more than 6 MB, and at 1 MB with less. Every other page
-- has one user.
pub find_memory-map :
    (w : ℕ) (m : Memory) (j : ℕ)
    → w < 2 ^ 32
    → megabyte ≤ w
    → j < paging_pages
    → (find_memory w m).mem_map j
      ≡ (if leb (first_page w) j && ltb (j * 4096 + 4095) w then 0 else 1)
unfolding find_memory
find_memory-map w m j fits enough lt =
    let e : ℕ = if ltb (64 * megabyte) (w / 4096 * 4096) then 64 * megabyte else w / 4096 * 4096 in
    let big : megabyte ≤ e = ground arith in
    let small : e < 2 ^ 32 = ground arith in
    let (page, whole) = buffer-pages e in
    rw
      (
        memory_end-is w fits,
        mem_init-map (buffer_memory_end e) e j m (buffer-le e big) small whole lt,
        page,
      )
      (ground arith)
