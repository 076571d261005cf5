-- ===== src/Interrupt/Gates.antt =====
-- Where each of the 256 interrupt gates leads after `intr_init` of kernel/interrupt.c.
use mks.Base.{
  ℕ, zero, suc, ◌+◌, ◌-◌, ◌<◌, ◌^◌, ◌≡◌, arith, Bool, ◌&&◌, ◌||◌, ltb, leb, ◌==◌, ==_true, inl, inr,
  Bool-cases, if◌then◌else◌, update, update_at,
}
use mks.Descriptors.{Desc, set_gate}
use mks.Descriptors.Fields.{Gate, gate_of, gate_of-set_gate}
use mks.Interrupt.{
  Entry, intr, hwintr, intr_reserved, intr_msg, intr_kercall, Idt, set_gates, fill_idt, Interrupts,
  intr_init,
}

set_gates-at :
    (gate : ℕ → Desc) (k i j : ℕ) (idt : Idt)
    → set_gates gate k i idt j ≡ (if leb i j && ltb j (k + i) then gate j else idt j)
unfolding set_gates
set_gates-at gate zero i j idt = ground arith
set_gates-at gate (suc k) i j idt =
    rw (set_gates-at gate k (i + 1) j (update idt i (gate i)), update_at idt i j (gate i))
      (elim (Bool-cases (j == i)) [
        | inl e ↦ rw (e, ==_true j i e) (ground arith)
        | inr e ↦ rw e (ground arith)
      ])

-- Which entry belongs to a vector, and who may raise it by an instruction.
unfoldable pub entry_of : ℕ → Entry
entry_of i =
    if ltb i 20
    then intr i
    else if leb 32 i && ltb i 48
    then hwintr (i - 32)
    else if i == 0x80
    then intr_msg
    else if i == 0x88
    then intr_kercall
    else intr_reserved

abbrev pub is_for_users : ℕ → Bool
is_for_users i = (leb 3 i && leb i 5) || i == 0x80 || i == 0x88

abbrev pub expected : (Entry → ℕ) → ℕ → Gate
expected address i = record {
  selector = 8;
  offset = address (entry_of i);
  type = if i == 14 then 14 else 15;
  dpl = if is_for_users i then 3 else 0;
  present = 1;
}

fill_idt-at :
    (address : Entry → ℕ) (idt : Idt) (i : ℕ)
    → i < 256
    → fill_idt address idt i
      ≡ set_gate
          (if i == 14 then 14 else 15)
          (if is_for_users i then 3 else 0)
          (address (entry_of i))
unfolding fill_idt entry_of
fill_idt-at address idt i h = simp (update_at, set_gates-at) (ground arith)

-- After `intr_init`, where the entries lie below 4 GB, each of the 256 gates leads, in the code segment of
-- the kernel, to the entry of its vector: gate 14 is an interrupt gate and all others are trap gates, and
-- programs may raise 3, 4, 5, the messages and the kernel call.
pub intr_init-expected :
    (address : Entry → ℕ) (mask : ℕ) (s : Interrupts) (i : ℕ)
    → ((e : Entry) → address e < 2 ^ 32)
    → i < 256
    → gate_of ((intr_init address mask s).idt i) ≡ expected address i
unfolding intr_init
intr_init-expected address mask s i small h =
    rw (fill_idt-at address s.idt i h) (
      gate_of-set_gate _ _ (address (entry_of i)) (ground arith) (ground arith)
        (small (entry_of i)))
