-- ===== src/Proc/Switch.antt =====
-- Taking the next process, giving up the processor and starting a process, in `schedule` of
use mathlib.Core.Bool.{false≢true}
use mks.Base.{
  ℕ, ◌≡◌, refl, sym, ◌∙◌, ◌≢◌, inl, inr, Bool, true, false, List, ◌∷◌, arith, Bool-cases, has,
  update_ne,
}
use mks.Linked.{Ptr, null, ends}
use mks.Linked.Chain.{IsQueue}
use mks.Linked.Family.{Rep, Rep-set, IsQueue-frame}
use mks.Linked.Turn.{tail_behind, drop_head-IsQueue}
use mks.Proc.Table.{Class, same, Procs, set_queue}
use mks.Proc.Schedule.{drop_head, switch_to, start}
use mks.Proc.Sound.{
  Ready, set_list, IsOrdered, IsSound, same_meet, same_eq, other_class, Waits-with,
}

pub has_tail : (a x : Ptr) (xs : List Ptr) → has a xs ≡ true → has a (x ∷ xs) ≡ true
has_tail a x xs h = ground arith

pub not_true : (b : Bool) → (b ≡ true → ⊥) → b ≡ false
not_true true h = absurd (h refl)
not_true false h = refl

module _ (s : Procs) (l : Ready) (c : Class) (x : Ptr) (xs : List Ptr) (h : IsOrdered s l)
    (is : l c ≡ x ∷ xs) where
  -- The lists without the head hold nothing new.
  pub has-rest : (d : Class) (a : Ptr) → has a (set_list l c xs d) ≡ true → has a (l d) ≡ true
  unfolding set_list
  has-rest d a i = elim (Bool-cases (same d c)) [
    | inl e ↦ rw (same_eq d c e, is) (has_tail a x xs (rw e at i))
    | inr e ↦ rw e at i
  ]

  pub absent-rest : (d : Class) → has x (set_list l c xs d) ≡ false
  unfolding set_list
  absent-rest d = elim (Bool-cases (same d c)) [
    | inl e ↦ rw e (rw is at ((h.rep.at c).distinct)).0
    | inr e ↦ rw e (other_class s l c d x h ((h.waits c x here).class) e)
  ]
    where
      here : has x (l c) ≡ true
      here = rw is (ground arith)

  pub drop_head-IsOrdered : IsOrdered (drop_head c s) (set_list l c xs)
  unfolding drop_head set_queue set_list
  drop_head-IsOrdered = record {
    rep = rep;
    waits = λ d a i. Waits-with s _ _ d a (h.waits d a (has-rest d a i));
  }
    where
      rest :
          IsQueue s.next_ready
            (ends
              (s.next_ready (s.queue c).head)
              (tail_behind (s.next_ready (s.queue c).head) (s.queue c).tail))
            xs
      rest = drop_head-IsQueue s.next_ready (s.queue c) x xs (rw is at (h.rep.at c))

      not_in : (r : Class) (a : Ptr) → same r c ≡ false → has a (l r) ≡ true → has a xs ≡ false
      not_in r a ne i =
          not_true (has a xs)
            λ j. false≢true (sym (h.rep.apart r c a ne i) ∙ rw is (has_tail a x xs j))

      rep : Rep same s.next_ready (drop_head c s).queue (set_list l c xs)
      rep =
          Rep-set same same_meet s.next_ready s.next_ready s.queue l c _ xs h.rep rest
            (λ r a ne i. refl) not_in

-- `start` runs a process that waits in no queue.
pub start-IsSound :
    (s : Procs) (l : Ready) (n k : ℕ)
    → IsOrdered s l
    → ((d : Class) → has (s.proc n) (l d) ≡ false)
    → IsSound (start n k s) l
unfolding start switch_to
start-IsSound s l n k h out = record {
  ordered = record {
    rep = record {
      at = λ q.
          IsQueue-frame s.next_ready _ (s.queue q) (l q)
            (λ a i. update_ne s.next_ready (s.proc n) a null (apart q a i)) (h.rep.at q);
      apart = h.rep.apart;
    };
    waits = λ c a i.
        let w = h.waits c a i in
        record {
          at = w.at;
          not_idle = w.not_idle;
          below = w.below;
          class = w.class;
          runs = w.runs;
        };
  };
  not_current = apart;
}
  where
    apart : (q : Class) (a : Ptr) → has a (l q) ≡ true → a ≢ s.proc n
    apart q a i e = false≢true (sym (out q) ∙ rw e at i)
