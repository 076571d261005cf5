-- ===== src/System/Calm/Sleep.antt =====
-- A process that waits for a message goes to sleep.

use mks.Base.{
  ℕ, ◌≡◌, ◌≢◌, refl, sym, ◌∙◌, ap, ◌⊎◌, inl, inr, Bool-cases, ◌==◌, ==_true, true, false, [], ◌∷◌,
  ◌++◌, arith, has, has-append, update, update_self, update_ne,
}
use mks.Linked.{Ptr}
use mks.Messaging.Store.{Store, fill, running, sleeping}
use mks.Messaging.Queues.{
  Name, same, small_sends, small_receives, big_sends, big_receives, set_state,
}
use mks.Messaging.Kernel.{Kernel, kernel_services}
use mks.Messaging.Lists.{Waiting, set_list}
use mks.Proc.Sound.{Ready}
use mks.System.States.{with_state-IsTable, sleep-IsSound}
use mks.Messaging.Rep.{same_name}
use mks.System.Calm.{waiter, procs, Blocked, Rested, Calm, Blocked-with}

module _ (owner : Ptr → ℕ) where
  -- The running process fills a struct on its stack, queues it and goes to sleep.
  module _ (m : Store Kernel) (l : Waiting) (r : Ready) (h : Calm owner m l r) (p : Ptr)
      (mine : owner p ≡ (procs m).pid (procs m).proc_current) (no_idle : owner p ≢ 0) where
    abbrev me : ℕ
    me = (procs m).pid (procs m).proc_current

    me_runs : (procs m).state ((procs m).proc me) ≡ running
    me_runs = elim h.runs [ inl e ↦ rw h.table.current_at e | inr z ↦ absurd (no_idle (mine ∙ z)) ]

    -- No other process has this owner.
    pub not_owner : (q : Name) (x : Ptr) → has x (l q) ≡ true → owner x ≢ owner p
    not_owner q x i e = (h.blocked q x i).sleeps (rw (e ∙ mine) me_runs)

    pub absent : (q : Name) → has p (l q) ≡ false
    absent q = elim (Bool-cases (has p (l q))) [ inl i ↦ absurd (not_owner q p i refl) | inr o ↦ o ]

    joined :
        (q t : Name) (x : Ptr)
        → has x (set_list l q (l q ++ p ∷ []) t) ≡ true
        → (has x (l t) ≡ true) ⊎ ((x ≡ p) × (t ≡ q))
    unfolding set_list
    joined q t x i = elim (Bool-cases (same t q)) [
      | inl e ↦ rw (same_name t q e) (elim (Bool-cases (x == p)) [
        | inl new ↦ inr (==_true x p new, refl)
        | inr old ↦ inl (ground (arith, has-append x (l q) (p ∷ []), (rw e at i)))
      ])
      | inr e ↦ inl (rw e at i)
    ]

    filled : (t : Name) (x : Ptr) (s d v : ℕ) → x ≢ p → waiter t (fill m p s d v) x ≡ waiter t m x
    unfolding fill
    filled small_sends x s d v ne = update_ne m.src p x s ne
    filled small_receives x s d v ne = update_ne m.dest p x d ne
    filled big_sends x s d v ne = update_ne m.src p x s ne
    filled big_receives x s d v ne = update_ne m.dest p x d ne

    still_asleep :
        (a : Ptr)
        → (procs m).state a ≢ running
        → update (procs m).state ((procs m).proc me) sleeping a ≢ running
    still_asleep a asleep = elim (Bool-cases (a == (procs m).proc me)) [
      | inl e ↦
          rw
            (
              ==_true a ((procs m).proc me) e,
              update_self (procs m).state ((procs m).proc me) sleeping,
            )
            (omega arith)
      | inr ne ↦ rw (update_ne (procs m).state ((procs m).proc me) a sleeping (ground arith)) asleep
    ]

    pub sleep-Rested :
        (q : Name) (s d v : ℕ)
        → waiter q (fill m p s d v) p ≡ me
        → Rested owner
            (set_state kernel_services me sleeping (fill m p s d v))
            (set_list l q (l q ++ p ∷ []))
            r
    unfolding fill set_state
    sleep-Rested q s d v is_me = record {
      table = with_state-IsTable (procs m) ((procs m).proc me) sleeping h.table;
      sound = rw h.table.current_at (sleep-IsSound (procs m) r h.sound);
      blocked = λ t x i. elim (joined q t x i) [
        | inl old ↦
            let b = h.blocked t x old in
            Blocked-with owner m after t x b
              (filled t x s d v (λ e. not_owner t x old (ap owner e))) refl
              (still_asleep ((procs m).proc (owner x)) b.sleeps)
        | inr (new, at) ↦ rw (new, at) mine_blocked
      ];
      once = λ t t' x x' i i' e. elim (joined q t x i) [
        | inl old ↦ elim (joined q t' x' i') [
          | inl old' ↦ h.once t t' x x' old old' e
          | inr (new', at') ↦ absurd (not_owner t x old (e ∙ ap owner new'))
        ]
        | inr (new, at) ↦ elim (joined q t' x' i') [
          | inl old' ↦ absurd (not_owner t' x' old' (sym e ∙ ap owner new))
          | inr (new', at') ↦ new ∙ sym new'
        ]
      ];
      slots = h.slots;
      slots_there = h.slots_there;
    }
      where
        after : Store Kernel
        after = set_state kernel_services me sleeping (fill m p s d v)

        mine_blocked : Blocked owner after q p
        mine_blocked = record {
          pid = mine ∙ sym is_me;
          below = rw mine h.table.current_below;
          not_idle = no_idle;
          there = rw (mine, h.table.current_at) h.table.current;
          sleeps =
              rw (mine, update_self (procs m).state ((procs m).proc me) sleeping) (omega arith);
        }
