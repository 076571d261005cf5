-- ===== src/System/States.antt =====
-- The assignments `proc[i]->state = …` of kernel/messaging.c between two calls of the scheduler.
use mks.Base.{
  ℕ, ◌≡◌, ◌∙◌, arith, inl, inr, Bool-cases, ◌==◌, ==_true, true, has, update, update_self,
  update_ne,
}
use mks.Linked.{Ptr}
use mks.Messaging.Store.{running, sleeping}
use mks.Proc.Table.{Class, Procs}
use mks.Proc.Sound.{Ready, IsTable, IsSound}

-- The processes with other states.
abbrev pub with_state : Procs → Ptr → ℕ → Procs
with_state s p v = record s { state = update s.state p v }

pub with_state-IsTable : (s : Procs) (p : Ptr) (v : ℕ) → IsTable s → IsTable (with_state s p v)
with_state-IsTable s p v t = record {
  numbered = t.numbered;
  typed = t.typed;
  idle = t.idle;
  current = t.current;
  current_below = t.current_below;
  current_at = t.current_at;
}

-- A state that leaves those who wait ready to run.
pub with_state-IsSound :
    (s : Procs) (l : Ready) (p : Ptr) (v : ℕ)
    → IsSound s l
    → ((c : Class) (a : Ptr) → has a (l c) ≡ true → update s.state p v a ≡ running)
    → IsSound (with_state s p v) l
with_state-IsSound s l p v h ready = record {
  ordered = record {
    rep = h.rep;
    waits = λ c a i.
        let w = h.waits c a i in
        record {
          at = w.at;
          not_idle = w.not_idle;
          below = w.below;
          class = w.class;
          runs = ready c a i;
        };
  };
  not_current = h.not_current;
}

-- The running process is in no queue, so that it may go to sleep.
pub sleep-IsSound :
    (s : Procs) (l : Ready) → IsSound s l → IsSound (with_state s s.proc_current sleeping) l
sleep-IsSound s l h = with_state-IsSound s l s.proc_current sleeping h (λ c a i.
    update_ne s.state s.proc_current a sleeping (h.not_current c a i) ∙ (h.waits c a i).runs)

pub wake-IsSound :
    (s : Procs) (l : Ready) (p : Ptr) → IsSound s l → IsSound (with_state s p running) l
wake-IsSound s l p h = with_state-IsSound s l p running h (λ c a i. elim (Bool-cases (a == p)) [
  | inl e ↦ rw (==_true a p e) (update_self s.state p running)
  | inr ne ↦ update_ne s.state p a running (ground arith) ∙ (h.waits c a i).runs
])
