-- ===== src/System/Calm/Wake.antt =====
-- A process that has waited for a message runs again.
use mathlib.Core.Bool.{false≢true}
use mks.Base.{
  ℕ, ◌≡◌, ◌≢◌, refl, sym, ◌∙◌, ap, inl, inr, Bool-cases, true, false, List, has, update_ne,
}
use mks.Linked.{Ptr}
use mks.Messaging.Store.{Store, running}
use mks.Messaging.Queues.{Name, same, set_state}
use mks.Messaging.Kernel.{Kernel, kernel_services}
use mks.Messaging.Lists.{Waiting, set_list}
use mks.Proc.Sound.{Ready}
use mks.System.States.{with_state-IsTable, wake-IsSound}
use mks.Messaging.Rep.{same_name}
use mks.System.Calm.{procs, Blocked, Rested, Blocked-with}

module _ (owner : Ptr → ℕ) where
  -- The process that waits with `p` runs again, and `p` is in no list any more.
  pub wake-Rested :
      (m : Store Kernel) (l : Waiting) (r : Ready) (q : Name) (p : Ptr) (rest : List Ptr)
      → Rested owner m l r
      → has p (l q) ≡ true
      → ((x : Ptr) → has x rest ≡ true → (has x (l q) ≡ true) × (x ≢ p))
      → ((t : Name) → same t q ≡ false → has p (l t) ≡ false)
      → Rested owner (set_state kernel_services (owner p) running m) (set_list l q rest) r
  unfolding set_state set_list
  wake-Rested m l r q p rest h i others alone = record {
    table = with_state-IsTable (procs m) ((procs m).proc (owner p)) running h.table;
    sound = wake-IsSound (procs m) r ((procs m).proc (owner p)) h.sound;
    blocked = λ t x k.
        let (old, ne) = left t x k in
        let b = h.blocked t x old in
        Blocked-with owner m (set_state kernel_services (owner p) running m) t x b refl refl (
          rw
            (update_ne (procs m).state ((procs m).proc (owner p)) ((procs m).proc (owner x)) running
              λ e. ne (h.once t q x p old i (same_owner x (h.blocked t x old) (h.blocked q p i) e)))
            b.sleeps);
    once = λ t t' x x' k k' e. h.once t t' x x' (left t x k).0 (left t' x' k').0 e;
    slots = h.slots;
    slots_there = h.slots_there;
  }
    where
      same_owner :
          (x : Ptr) {t : Name}
          → Blocked owner m t x
          → Blocked owner m q p
          → (procs m).proc (owner x) ≡ (procs m).proc (owner p)
          → owner x ≡ owner p
      same_owner x b c e =
          sym (h.table.numbered (owner x) b.below b.there)
          ∙ ap (procs m).pid e
          ∙ h.table.numbered (owner p) c.below c.there

      left :
          (t : Name) (x : Ptr) → has x (set_list l q rest t) ≡ true → (has x (l t) ≡ true) × (x ≢ p)
      left t x k = elim (Bool-cases (same t q)) [
        | inl e ↦ rw (same_name t q e) (others x (rw e at k))
        | inr e ↦ (
          rw e at k,
          λ same_x. false≢true (sym (alone t e) ∙ ap (λ y. has y (l t)) (sym same_x) ∙ (rw e at k)),
        )
      ]
