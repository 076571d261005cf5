-- ===== src/Messaging/Refine.antt =====
-- The calls of messaging.c, on pointers that stand for four lists, do what Spec promises.
pub mod SmallSend
pub mod SmallReceive
pub mod Big
pub mod Interrupt
use mks.Base.{
  ℕ, suc, ◌<◌, ◌≡◌, refl, sym, ◌∙◌, ap, ◌≢◌, ◌⊎◌, inl, inr, Bool, true, false, ◌||◌, Option, none,
  some, List, [], ◌∷◌, ◌++◌, arith, ◌==◌, ==_of_ne, if◌then◌else◌, Bool-cases, length, has, ◌>>=◌,
}
use mks.Linked.{Ptr, null}
use mks.Linked.Chain.{last_or, found}
use mks.Messaging.Store.{Services, Store, slot, msg_hardware, nr_msg_hardware}
use mks.Messaging.Queues.{Name, Scan, Ipc, Reply, find, clash, reschedule}
use mks.Messaging.Lists.{Waiting, Answer, take_first, any, any_clash, serve, yield_cpu, refuse}
use mks.Messaging.Rep.{IsRep, Search, nobody, meets, found-Search, find-found}

-- The same answer and the same memory, with pointers that stand for the lists.
abbrev pub Refines : {K : Type 0} → Reply K → Answer K → Type 0
Refines none none = Unit {0}
Refines none (some x) = ⊥
Refines (some x) none = ⊥
Refines (some (r, s)) (some (r', m, l)) = (r ≡ r') × (s.mem ≡ m) × IsRep s l

-- Both sides branch on one test.
pub if-Refines :
    {K : Type 0} (b : Bool) (a c : Reply K) (a' c' : Answer K)
    → Refines a a'
    → (b ≡ false → Refines c c')
    → Refines (if b then a else c) (if b then a' else c')
if-Refines true a c a' c' h k = h
if-Refines false a c a' c' h k = k refl

-- No queue is longer than the rounds that a loop is given.
abbrev pub IsShort : ℕ → Waiting → Type 0
IsShort rounds l = (q : Name) → length (l q) < rounds

-- A struct at this address can be queued.
pub record IsFree (p : Ptr) (l : Waiting) : Type 0 where
  pub ne_null : p ≢ null
  pub absent : (q : Name) → has p (l q) ≡ false

-- A hardware slot that waits says so in its `src`, which is how `small_send` tells the free ones.
pub record IsMarked {K : Type 0} (m : Store K) (l : Waiting) : Type 0 where
  pub ne_null : m.slots ≢ null
  pub marked :
      (q : Name) (i : ℕ)
      → i < nr_msg_hardware
      → has (slot m.slots i) (l q) ≡ true
      → m.src (slot m.slots i) ≡ msg_hardware

module _ {K : Type 0} (rounds : ℕ) (s : Ipc K) (l : Waiting) (rep : IsRep s l)
    (short : IsShort rounds l) where
  search : (q : Name) (test : Ptr → Bool) → Search test (l q) (found test null (l q))
  search q test = found-Search s.next (s.queue q).head test (l q) (rep.at q).chain

  pub serve-Refines :
      (q : Name) (test : Ptr → Bool) (a : Reply K) (b : Ptr × Ptr → Reply K) (a' : Answer K)
      (b' : Ptr → List Ptr → Answer K)
      → Refines a a'
      → ((p : Ptr) (pre post : List Ptr)
          → l q ≡ pre ++ p ∷ post
          → Refines (b (last_or null pre, p)) (b' p (pre ++ post)))
      → Refines
          (find rounds q test s >>= λ r. if r.1 == null then a else b r)
          (serve (take_first test (l q)) a' b')
  serve-Refines q test a b a' b' none_served served =
      rw (find-found rounds q test s l rep (short q)) (go (search q test))
    where
      go :
          Search test (l q) (found test null (l q))
          → Refines
              (if (found test null (l q)).1 == null then a else b (found test null (l q)))
              (serve (take_first test (l q)) a' b')
      go (nobody e t n) = rw (e, t) none_served
      go (meets p pre post np is passes e t n) =
          rw (e, t, ==_of_ne p null np) (served p pre post is)

  pub clash-any : (scans : List Scan) → clash rounds scans s ≡ some (any_clash scans l)
  unfolding clash any_clash
  clash-any [] = refl
  clash-any ((q, test) ∷ scans) =
      rw (find-found rounds q test s l rep (short q)) (go (clash-any scans) (search q test))
    where
      go :
          clash rounds scans s ≡ some (any_clash scans l)
          → Search test (l q) (found test null (l q))
          → (if (found test null (l q)).1 == null then clash rounds scans s else some true)
            ≡ some (any test (l q) || any_clash scans l)
      go later (nobody e t n) = rw (e, n) later
      go later (meets p pre post np is passes e t n) = rw (e, n, ==_of_ne p null np)

module _ {K : Type 0} (os : Services K) where
  pub reschedule-Refines :
      (s : Ipc K) (l : Waiting) → IsRep s l → Refines (reschedule os s) (yield_cpu os s.mem l)
  unfolding reschedule yield_cpu
  reschedule-Refines s l rep =
      elim (os.schedule s.mem.kernel)
        as (λ k.
          Refines (k >>= λ k. some (1, record s { mem = record s.mem { kernel = k } }))
            (k >>= λ k. some (1, record s.mem { kernel = k }, l))) [
              | none ↦ tt
              | some k ↦ (refl, refl, rep)
            ]
