-- ===== src/Linked.antt =====
-- The singly linked queues of kernel/messaging.c and kernel/proc.c.
pub mod Chain
pub mod Unlink
pub mod Append
pub mod Family
pub mod Turn
use mks.Base.{ℕ, zero, suc, Bool, Option, none, some, ◌==◌, if◌then◌else◌, update}

-- A struct is its address, `NULL` is 0, and `next` is the link field of every struct of one type.
abbrev pub Ptr : Type 0
Ptr = ℕ

abbrev pub null : Ptr
null = 0

abbrev pub Links : Type 0
Links = Ptr → Ptr

-- The head and tail pointers of a queue.
pub record Ends : Type 0 where
  pub head : Ptr
  pub tail : Ptr

abbrev pub ends : Ptr → Ptr → Ends
ends h t = record { head = h; tail = t }

abbrev pub no_ends : Ends
no_ends = ends null null

-- `while (p) { if (test(p)) break; t = p; p = p->next; }`: the two pointers at its end.
unfoldable pub walk : ℕ → (Ptr → Bool) → Links → Ptr → Ptr → Option (Ptr × Ptr)
walk zero test next t p = none
walk (suc k) test next t p =
    let rest = walk k test next p (next p) in
    if p == null then some (t, p) else if test p then some (t, p) else rest

-- Takes `p` out of the queue, where `t` is the struct before it or `NULL`.
unfoldable pub unlink : Links → Ends → Ptr → Ptr → Links × Ends
unlink next e t p =
    let e' = if t == null then ends (next p) e.tail else e in
    let next' = if t == null then next else update next t (next p) in
    (next', if next' p == null then ends e'.head t else e')

-- Puts `p` behind the tail.
unfoldable pub append : Links → Ends → Ptr → Links × Ends
append next e p = if e.head == null then (next, ends p p) else (update next e.tail p, ends e.head p)
