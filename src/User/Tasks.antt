-- ===== src/User/Tasks.antt =====
-- The first processes and the stub of `fork`: system_task/system.c and lib/fork.c.
use mks.Base.{
  ℕ, zero, suc, ◌≡◌, refl, Option, none, some, inl, inr, update, update_self, update_again,
  minus_one, Bool-cases, ◌==◌, if◌then◌else◌, ◌>>=◌,
}
use mks.Linked.{Ptr}
use mks.Messaging.Store.{msg_any}
use mks.User.{Regs, big_msg_receive}

module _ {W : Type 0} (trap : Regs → W → Option (Regs × W)) where
  -- The registers hold what the caller has left in them, and the answer is not read.
  unfoldable pub fork : Regs → W → Option W
  fork r w = trap r w >>= λ a. some a.1

  -- One round of the loop of `system_task`, with `src` at `src` and the message at `msg`.
  unfoldable pub system_task_round : Ptr → ℕ → (Ptr → ℕ) → W → Option ((Ptr → ℕ) × W)
  system_task_round src msg mem w =
      big_msg_receive trap src msg mem w >>= λ r. some (update r.0.1 src msg_any, r.1)

  unfoldable pub system_task_rounds : ℕ → Ptr → ℕ → (Ptr → ℕ) → W → Option ((Ptr → ℕ) × W)
  system_task_rounds zero src msg mem w = some (mem, w)
  system_task_rounds (suc n) src msg mem w =
      system_task_round src msg mem w >>= λ r. system_task_rounds n src msg r.0 r.1

  -- The first rounds of `system_task`, which has no last.
  unfoldable pub system_task : ℕ → Ptr → ℕ → (Ptr → ℕ) → W → Option ((Ptr → ℕ) × W)
  system_task n src msg mem w = system_task_rounds n src msg (update mem src msg_any) w

  -- Nothing but the same call, again and again.
  unfoldable pub asks : ℕ → Regs → W → Option W
  asks zero r w = some w
  asks (suc n) r w = trap r w >>= λ a. asks n r a.1

  abbrev any_page : ℕ → Regs
  any_page msg = record { eax = 4; ebx = msg_any; ecx = msg }

  -- The answer to a call decides what is written, but `src` is set after that.
  served : Ptr → (Ptr → ℕ) → Regs × W → Option ((Ptr → ℕ) × W)
  served src mem a =
      let r : ℕ × (Ptr → ℕ) =
        if a.0.eax == 1 then (1, update mem src a.0.ebx) else (minus_one, mem) in
      some (update r.1 src msg_any, a.1)

  served-same :
      (src : Ptr) (mem : Ptr → ℕ) (a : Regs × W)
      → served src (update mem src msg_any) a ≡ some (update mem src msg_any, a.1)
  unfolding served
  served-same src mem a = elim (Bool-cases (a.0.eax == 1)) [
    | inl e ↦
        rw
          (
            e,
            update_again (update mem src msg_any) src a.0.ebx msg_any,
            update_again mem src msg_any msg_any,
          )
          refl
    | inr e ↦ rw (e, update_again mem src msg_any msg_any) refl
  ]

  -- One call, and `src` is set after it.
  received : Ptr → (Ptr → ℕ) → Regs × W → (ℕ × (Ptr → ℕ)) × W
  received src mem a = (if a.0.eax == 1 then (1, update mem src a.0.ebx) else (minus_one, mem), a.1)

  abbrev reset : Ptr → (ℕ × (Ptr → ℕ)) × W → (Ptr → ℕ) × W
  reset src r = (update r.0.1 src msg_any, r.1)

  abbrev with_mem : (Ptr → ℕ) → Regs × W → (Ptr → ℕ) × W
  with_mem mem a = (mem, a.1)

  received-served :
      (src : Ptr) (mem : Ptr → ℕ) (o : Option (Regs × W))
      → ((o >>= λ a. some (received src (update mem src msg_any) a)) >>= λ r. some (reset src r))
        ≡ (o >>= λ a. some (with_mem (update mem src msg_any) a))
  unfolding received served
  received-served src mem none = refl
  received-served src mem (some a) = served-same src mem a

  system_task_round-trap :
      (src msg : ℕ) (mem : Ptr → ℕ) (w : W)
      → system_task_round src msg (update mem src msg_any) w
        ≡ (trap (any_page msg) w >>= λ a. some (with_mem (update mem src msg_any) a))
  unfolding system_task_round big_msg_receive received
  system_task_round-trap src msg mem w =
      let any : update mem src msg_any src ≡ msg_any = update_self mem src msg_any in
      rw any (received-served src mem (trap (any_page msg) w))

  repeats :
      (n src msg : ℕ) (mem : Ptr → ℕ) (o : Option (Regs × W))
      → ((w : W)
          → system_task n src msg mem w
            ≡ (asks n (any_page msg) w >>= λ w'. some (update mem src msg_any, w')))
      → ((o >>= λ a. some (with_mem (update mem src msg_any) a)) >>= λ r.
          system_task_rounds n src msg r.0 r.1)
        ≡ ((o >>= λ a. asks n (any_page msg) a.1) >>= λ w'. some (update mem src msg_any, w'))
  unfolding system_task
  repeats n src msg mem none h = refl
  repeats n src msg mem (some a) h = h a.1

  -- In any number of rounds the system task calls the kernel once a round, always for a big message from any
  -- process and into the same buffer, whatever the kernel answers, and `src` is `MSG_ANY` after each of them.
  pub system_task-asks :
      (n src msg : ℕ) (mem : Ptr → ℕ) (w : W)
      → system_task n src msg mem w
        ≡ (asks n (any_page msg) w >>= λ w'. some (update mem src msg_any, w'))
  unfolding system_task system_task_rounds asks
  system_task-asks zero src msg mem w = refl
  system_task-asks (suc n) src msg mem w =
      rw (system_task_round-trap src msg mem w)
        (repeats n src msg mem (trap (any_page msg) w) (λ w'. system_task-asks n src msg mem w'))
