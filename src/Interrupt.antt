-- ===== src/Interrupt.antt =====
-- The interrupt tables: kernel/interrupt.c, and the entries of kernel/asm.s.
pub mod Gates
pub mod Dispatch
pub mod Handlers
pub mod Kept
pub mod Reach
pub mod Examples
use mks.Base.{
  ℕ, zero, suc, ◌+◌, ◌-◌, ◌*◌, ◌^◌, Bool, true, false, Option, none, some, List, [], ◌∷◌, ◌++◌,
  bit_and, update, ltb, if◌then◌else◌,
}
use mks.Descriptors.{Desc, set_intr_gate, set_trap_gate, set_system_gate}

-- The entries of kernel/asm.s, where an interrupt gate can lead.
pub data Entry : Type 0 where
  intr hwintr : ℕ → Entry
  intr_reserved intr_msg intr_kercall : Entry

-- The number that an entry pushes, by which the handler is found. `intr_msg` calls `do_intr_msg`.
unfoldable pub pushes : Entry → Option ℕ
pushes (intr n) = some n
pushes (hwintr n) = some (32 + n)
pushes intr_reserved = some 255
pushes intr_msg = none
pushes intr_kercall = some 0x88

-- The handlers; `numbered n` is `do_intr_n`.
pub data Handler : Type 0 where
  reserved debug2 page clock keyboard parallel kercall : Handler
  numbered : ℕ → Handler

-- `intr_table` has `INTR_NUM` places, the numbers from 0 to 254.
abbrev pub intr_num : ℕ
intr_num = 255

abbrev pub Table : Type 0
Table = ℕ → Handler

-- `intr_table[i] = &do_intr_i;` for `k` numbers from `i` on.
unfoldable pub assign : ℕ → ℕ → Table → Table
assign zero i t = t
assign (suc k) i t = assign k (i + 1) (update t i (numbered i))

-- The assignments in the order of the code. The first loop fills all places.
unfoldable pub fill_table : Table
fill_table =
    let t : Table = λ i. reserved in
    let t = update t 13 debug2 in
    let t = update t 14 page in
    let t = update t 32 clock in
    let t = update t 33 keyboard in
    let t = update t 39 parallel in
    let t = update t 0x88 kercall in
    let t = assign 3 10 t in let t = assign 17 15 t in let t = assign 5 34 t in assign 20 40 t

-- `intr_table[i]`, with `none` past its end.
unfoldable pub handler_at : Table → ℕ → Option Handler
handler_at t i = if ltb i intr_num then some (t i) else none

abbrev pub Idt : Type 0
Idt = ℕ → Desc

-- `for (i = …) set_…_gate(i, entry(i))` for `k` numbers from `i` on.
unfoldable pub set_gates : (ℕ → Desc) → ℕ → ℕ → Idt → Idt
set_gates gate zero i idt = idt
set_gates gate (suc k) i idt = set_gates gate k (i + 1) (update idt i (gate i))

-- The code that fills the descriptor table; `address` is where the linker has put the entries.
unfoldable pub fill_idt : (Entry → ℕ) → Idt → Idt
fill_idt address idt =
    let idt = set_gates (λ i. set_trap_gate (address (intr i))) 3 0 idt in
    let idt = set_gates (λ i. set_system_gate (address (intr i))) 3 3 idt in
    let idt = set_gates (λ i. set_trap_gate (address (intr i))) 14 6 idt in
    let idt = set_gates (λ i. set_trap_gate (address intr_reserved)) 12 20 idt in
    let idt = set_gates (λ i. set_trap_gate (address (hwintr (i - 32)))) 16 32 idt in
    let idt = set_gates (λ i. set_trap_gate (address intr_reserved)) 208 48 idt in
    let idt = update idt 14 (set_intr_gate (address (intr 14))) in
    let idt = update idt 0x80 (set_system_gate (address intr_msg)) in
    update idt 0x88 (set_system_gate (address intr_kercall))

pub record Interrupts : Type 0 where
  pub table : Table
  pub idt : Idt
  pub ports : List (ℕ × ℕ)

-- `mask` is what port 0x21 reads.
unfoldable pub intr_init : (Entry → ℕ) → ℕ → Interrupts → Interrupts
intr_init address mask s = record {
  table = fill_table;
  idt = fill_idt address s.idt;
  ports = s.ports ++ (bit_and mask 0xf9, 0x21) ∷ [];
}
