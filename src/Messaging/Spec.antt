-- ===== src/Messaging/Spec.antt =====
-- What the calls of kernel/messaging.c promise, over four plain lists of waiting structs: who may call, who
-- is served, when a call is refused and what is written, in words of its own.
pub mod Conditions
pub mod Agrees
use mks.Base.{
  ℕ, zero, suc, ◌+◌, ◌*◌, ◌/◌, ◌%◌, ◌^◌, Bool, true, not, Option, none, some, List, [], ◌∷◌, ◌++◌,
  ◌&&◌, ◌||◌, ltb, ◌==◌, if◌then◌else◌, update, ◌>>=◌,
}
use mks.Linked.{Ptr}
use mks.Messaging.Store.{
  Services, Store, msg_any, msg_hardware, nr_msg_hardware, nr_procs, running, sleeping,
}
use mks.Messaging.Queues.{Name, same, small_sends, small_receives, big_sends, big_receives}
use mks.Messaging.Lists.{Waiting, Answer, set_list, take_first, any, refuse, serve, yield_cpu}

-- Whom a receiver asks for.
pub data Source : Type 0 where
  anyone : Source
  only : ℕ → Source

unfoldable pub source_of : ℕ → Source
source_of w = if w == msg_any then anyone else only w

unfoldable pub accepts : Source → ℕ → Bool
accepts anyone s = true
accepts (only w) s = w == s

unfoldable pub is_process : ℕ → Bool
is_process w = ltb w nr_procs

-- The page behind the one in which a message begins, in the 64 MB of the process.
unfoldable pub page_address : ℕ → ℕ → ℕ
page_address pid v = (v / 4096 * 4096 + 0x1000 + pid * 0x400_0000) % 2 ^ 32

-- The first that passes the test.
unfoldable pub first : (Ptr → Bool) → List Ptr → Option Ptr
first test [] = none
first test (x ∷ xs) = let rest = first test xs in if test x then some x else rest

-- The array of hardware messages, of 16 bytes each, from number `i` on.
unfoldable pub slots_of : ℕ → ℕ → Ptr → List Ptr
slots_of zero i base = []
slots_of (suc k) i base = (base + 16 * i) ∷ slots_of k (i + 1) base

module _ {K : Type 0} where
  -- The receiver `d` waits in `a` and takes a message from `s`.
  unfoldable pub wants : Store K → ℕ → ℕ → Ptr → Bool
  wants m s d a = (m.dest a == d) && accepts (source_of (m.long (m.src a))) s

  -- A sender waits in `a` with a message for `d`, who asks for `s`.
  unfoldable pub brings : Store K → ℕ → ℕ → Ptr → Bool
  brings m s d a = (m.dest a == d) && accepts (source_of s) (m.src a)

  -- `x` waits for `y` in the struct `a` of a queue: to send to it, or to receive from it.
  unfoldable pub waits_for : Name → Store K → ℕ → ℕ → Ptr → Bool
  waits_for small_sends m x y a = (m.src a == x) && (m.dest a == y)
  waits_for big_sends m x y a = (m.src a == x) && (m.dest a == y)
  waits_for small_receives m x y a = (m.dest a == x) && (m.long (m.src a) == y)
  waits_for big_receives m x y a = (m.dest a == x) && (m.long (m.src a) == y)

  -- `x` waits for `y` in any queue but the one that serves the call: both would wait for ever.
  unfoldable pub stuck : Name → Store K → Waiting → ℕ → ℕ → Bool
  stuck served m l x y =
      let other : Name → Bool = λ q. not (same q served) && any (waits_for q m x y) (l q) in
      other small_sends || other small_receives || other big_sends || other big_receives

  unfoldable pub put : Ptr → ℕ → Store K → Store K
  put p v m = record m { long = update m.long p v }

  -- Who has asked for anyone is told who it is.
  unfoldable pub answer : Source → Ptr → ℕ → Store K → Store K
  answer anyone p v m = put p v m
  answer (only w) p v m = m

  unfoldable pub tell : Ptr → ℕ → Store K → Store K
  tell p v m = answer (source_of (m.long p)) p v m

  unfoldable pub filled : Ptr → ℕ → ℕ → ℕ → Store K → Store K
  filled p s d v m = record m {
    src = update m.src p s;
    dest = update m.dest p d;
    msg = update m.msg p v;
  }

  -- A struct for a message that waits: the local one, or the first slot without a message of the hardware.
  unfoldable pub room : ℕ → Ptr → Store K → Option Ptr
  room src new_msg m =
      if src == msg_hardware
      then first (λ a. not (m.src a == msg_hardware)) (slots_of nr_msg_hardware 0 m.slots)
      else some new_msg

module _ {K : Type 0} (os : Services K) where
  unfoldable pub with_state : ℕ → ℕ → Store K → Store K
  with_state i v m = record m { kernel = os.set_state i v m.kernel }

  -- The word of the sender goes to the receiver that waits in `p`.
  unfoldable pub handed : ℕ → Ptr → Ptr → Store K → Store K
  handed src msg p m =
      let m = tell (m.src p) src (put (m.msg p) (m.long msg) m) in with_state (m.dest p) running m

  -- The word that waits in `p` goes to the receiver; a slot is free again, a sender runs.
  unfoldable pub fetched : Ptr → Ptr → Ptr → Store K → Store K
  fetched src msg p m =
      let m = tell src (m.src p) (put msg (m.msg p) m) in
      if m.src p == msg_hardware
      then record m { src = update m.src p 0 }
      else with_state (m.src p) running m

  -- `me` waits at the end of the queue `q`, with the struct `p`.
  unfoldable pub join : Name → ℕ → Ptr → Store K → Waiting → Answer K
  join q me p m l = yield_cpu os (with_state me sleeping m) (set_list l q (l q ++ p ∷ []))

  unfoldable pub join_small : ℕ → ℕ → ℕ → Option Ptr → Store K → Waiting → Answer K
  join_small src d v none m l = refuse m l
  join_small src d v (some p) m l =
      if src == msg_hardware
      then yield_cpu os (filled p src d v m) (set_list l small_sends (l small_sends ++ p ∷ []))
      else join small_sends src p (filled p src d v m) l

  unfoldable pub small_send : Ptr → ℕ → Ptr → Ptr → Store K → Waiting → Answer K
  small_send new_msg src dest msg m l =
      let d = m.long dest in
      if (is_process src || src == msg_hardware) && is_process d
      then serve (take_first (wants m src d) (l small_receives))
          (if stuck small_receives m l d src
            then refuse m l
            else join_small src d (m.long msg) (room src new_msg m) m l)
          (λ p rest. yield_cpu os (handed src msg p m) (set_list l small_receives rest))
      else refuse m l

  unfoldable pub small_receive : Ptr → Ptr → ℕ → Ptr → Store K → Waiting → Answer K
  small_receive new_msg src dest msg m l =
      let s = m.long src in
      if (is_process s || s == msg_any || s == msg_hardware) && is_process dest
      then serve (take_first (brings m s dest) (l small_sends))
          (if stuck small_sends m l s dest
            then refuse m l
            else join small_receives dest new_msg (filled new_msg src dest msg m) l)
          (λ p rest. yield_cpu os (fetched src msg p m) (set_list l small_sends rest))
      else refuse m l

  -- As in the code, who waits for the sender is looked for by the address `dest`, not by the number there.
  unfoldable pub big_send : Ptr → ℕ → Ptr → Ptr → Store K → Waiting → Answer K
  big_send new_msg src dest msg m l =
      let d = m.long dest in
      if is_process src && is_process d
      then serve (take_first (wants m src d) (l big_receives))
          (if stuck big_receives m l dest src
            then refuse m l
            else join big_sends src new_msg (filled new_msg src d (m.long msg) m) l)
          (λ p rest. os.share_page (m.long msg) (m.msg p) m.kernel >>= λ k.
            let m = tell (m.src p) src (record m { kernel = k }) in
            yield_cpu os (with_state (m.dest p) running m) (set_list l big_receives rest))
      else refuse m l

  unfoldable pub big_receive : Ptr → Ptr → ℕ → Ptr → Store K → Waiting → Answer K
  big_receive new_msg src dest msg m l =
      let s = m.long src in
      if (is_process s || s == msg_any) && is_process dest
      then serve (take_first (brings m s dest) (l big_sends))
          (if stuck big_sends m l s dest
            then refuse m l
            else join big_receives dest new_msg (filled new_msg src dest (m.long msg) m) l)
          (λ p rest. os.share_page (m.msg p) (m.long msg) m.kernel >>= λ k.
            let m = tell src (m.src p) (record m { kernel = k }) in
            yield_cpu os (with_state (m.src p) running m) (set_list l big_sends rest))
      else refuse m l

  -- A process does not call itself, and the number of the function names the call.
  unfoldable pub do_intr_msg : (new_msg entry : Ptr) → ℕ → Ptr → Ptr → Store K → Waiting → Answer K
  do_intr_msg new_msg entry function src_dest msg m l =
      let pid = os.current_pid m.kernel in
      let paged : Store K = put entry (page_address pid (m.long msg)) m in
      if pid == m.long src_dest
      then refuse m l
      else if function == 1
      then small_send new_msg pid src_dest msg m l
      else if function == 2
      then small_receive new_msg src_dest pid msg m l
      else if function == 3
      then big_send new_msg pid src_dest entry paged l
      else if function == 4
      then big_receive new_msg src_dest pid entry paged l
      else refuse m l
