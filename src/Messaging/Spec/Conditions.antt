-- ===== src/Messaging/Spec/Conditions.antt =====
-- The conditions and the writes of kernel/messaging.c are those of Spec.
use mathlib.Core.Path.{fun_ext}
use mks.Base.{
  ℕ, zero, suc, ◌+◌, ◌≡◌, ◌≢◌, refl, sym, ap, inl, inr, arith, Bool, Bool-cases, true, false, not,
  Option, none, some, List, ◌&&◌, ◌||◌, ==_of_ne, bit_and_page, ◌==◌, if◌then◌else◌,
}
use mks.Linked.{Ptr, null}
use mks.Messaging.Store.{
  Store, slot, msg_any, msg_hardware, is_bad_pid, is_bad_sender, is_bad_source, is_bad_big_source,
  takes, offers, sends_from_to, receives_from_at, resolve_any,
}
use mks.Messaging.Queues.{small_sends, small_receives, big_sends, big_receives, free_slot}
use mks.Messaging.Small.{send_clashes, receive_clashes}
use mks.Messaging.Big.{big_send_clashes, big_receive_clashes, page_entry}
use mks.Messaging.Lists.{Waiting, Answer, any_clash, serve}
use mks.Messaging.Spec.{
  source_of, accepts, is_process, page_address, first, slots_of, wants, brings, waits_for, stuck,
  put, answer, tell,
}

pub good_pid : (w : ℕ) → is_bad_pid w ≡ not (is_process w)
unfolding is_bad_pid is_process
good_pid w = ground arith

pub good_sender : (w : ℕ) → is_bad_sender w ≡ not (is_process w || w == msg_hardware)
unfolding is_bad_sender is_process
good_sender w = ground arith

pub good_source :
    (w : ℕ) → is_bad_source w ≡ not (is_process w || w == msg_any || w == msg_hardware)
unfolding is_bad_source is_process
good_source w = ground arith

pub good_big_source : (w : ℕ) → is_bad_big_source w ≡ not (is_process w || w == msg_any)
unfolding is_bad_big_source is_process
good_big_source w = ground arith

pub page_entry-page_address : (pid v : ℕ) → page_entry pid v ≡ page_address pid v
unfolding page_entry page_address
page_entry-page_address pid v = rw (bit_and_page v) (omega arith)

-- Two tests, one after the other, in terms of what they let pass.
pub guarded :
    {A : Type 0} (a b : Bool) {bad_a bad_b : Bool} (x y : A) {x' : A}
    → bad_a ≡ not a
    → bad_b ≡ not b
    → x ≡ x'
    → (if bad_a then y else if bad_b then y else x) ≡ (if a && b then x' else y)
guarded true true x y e f g = rw (e, f) g
guarded true false x y e f g = rw (e, f) refl
guarded false b x y e f g = rw e refl

pub serve-same :
    {K : Type 0} (o : Option (Ptr × List Ptr)) (a a' : Answer K) (f f' : Ptr → List Ptr → Answer K)
    → a ≡ a'
    → ((p : Ptr) (rest : List Ptr) → f p rest ≡ f' p rest)
    → serve o a f ≡ serve o a' f'
serve-same none a a' f f' e h = e
serve-same (some (p, rest)) a a' f f' e h = h p rest

pub if-same :
    {A : Type 0} (b : Bool) (x y y' : A) → y ≡ y' → (if b then x else y) ≡ (if b then x else y')
if-same b x y y' e = ap (λ z. if b then x else z) e

module _ {K : Type 0} where
  pub takes-wants : (m : Store K) (s d : ℕ) → takes m s d ≡ wants m s d
  unfolding takes wants accepts source_of
  takes-wants m s d = fun_ext λ a. ground arith

  pub offers-brings : (m : Store K) (s d : ℕ) → offers m s d ≡ brings m s d
  unfolding offers brings accepts source_of
  offers-brings m s d = fun_ext λ a. ground arith

  senders_small : (m : Store K) (x y : ℕ) → sends_from_to m x y ≡ waits_for small_sends m x y
  unfolding sends_from_to waits_for
  senders_small m x y = fun_ext λ a. ground arith

  senders_big : (m : Store K) (x y : ℕ) → sends_from_to m x y ≡ waits_for big_sends m x y
  unfolding sends_from_to waits_for
  senders_big m x y = fun_ext λ a. ground arith

  receivers_small :
      (m : Store K) (x y : ℕ) → receives_from_at m y x ≡ waits_for small_receives m x y
  unfolding receives_from_at waits_for
  receivers_small m x y = fun_ext λ a. ground arith

  receivers_big : (m : Store K) (x y : ℕ) → receives_from_at m y x ≡ waits_for big_receives m x y
  unfolding receives_from_at waits_for
  receivers_big m x y = fun_ext λ a. ground arith

  pub resolve_any-tell : (m : Store K) (p v : ℕ) → resolve_any m p v ≡ tell p v m
  unfolding resolve_any tell answer source_of put
  resolve_any-tell m p v = elim (Bool-cases (m.long p == msg_any)) [
    | inl e ↦ rw e refl
    | inr e ↦ rw e refl
  ]

  module _ (x y : ℕ) (m : Store K) (l : Waiting) where
    pub send_clashes-stuck : any_clash (send_clashes y x m) l ≡ stuck small_receives m l x y
    unfolding any_clash send_clashes stuck
    send_clashes-stuck =
        rw (sym (senders_small m x y), sym (senders_big m x y), sym (receivers_big m x y))
          (ground arith)

    pub receive_clashes-stuck : any_clash (receive_clashes x y m) l ≡ stuck small_sends m l x y
    unfolding any_clash receive_clashes stuck
    receive_clashes-stuck =
        rw (sym (receivers_small m x y), sym (senders_big m x y), sym (receivers_big m x y))
          (ground arith)

    pub big_send_clashes-stuck : any_clash (big_send_clashes y x m) l ≡ stuck big_receives m l x y
    unfolding any_clash big_send_clashes stuck
    big_send_clashes-stuck =
        rw (sym (senders_small m x y), sym (receivers_small m x y), sym (senders_big m x y))
          (ground arith)

    pub big_receive_clashes-stuck :
        any_clash (big_receive_clashes x y m) l ≡ stuck big_sends m l x y
    unfolding any_clash big_receive_clashes stuck
    big_receive_clashes-stuck =
        rw (sym (senders_small m x y), sym (receivers_small m x y), sym (receivers_big m x y))
          (ground arith)

  pub free_slot-first :
      (k i : ℕ) (m : Store K)
      → m.slots ≢ null
      → first (λ a. not (m.src a == msg_hardware)) (slots_of k i m.slots)
        ≡ (if free_slot k i m == null then none else some (free_slot k i m))
  unfolding first slots_of free_slot
  free_slot-first zero i m ne = refl
  free_slot-first (suc k) i m ne = elim (Bool-cases (m.src (slot m.slots i) == msg_hardware)) [
    | inl used ↦ rw used (free_slot-first k (i + 1) m ne)
    | inr free ↦ rw (free, ==_of_ne (slot m.slots i) null (λ z. ne (omega arith))) refl
  ]
