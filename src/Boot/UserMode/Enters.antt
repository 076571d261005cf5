-- ===== src/Boot/UserMode/Enters.antt =====
-- The change to user mode at the end of `main` of kernel/main.c.
use mks.Base.{
  ℕ, ◌+◌, ◌-◌, ◌/◌, ◌%◌, ◌^◌, ◌≤◌, ◌<◌, ◌≡◌, refl, ◌∙◌, ap, arith, ltb, ◌==◌, if◌then◌else◌, add32,
  update, update_self, update_ne, true, Bool-cases, ==_true, inl, inr,
}
use mks.Linked.{Ptr}
use mks.Descriptors.{Desc}
use mks.Descriptors.Fields.{segment_of}
use mks.Proc.Start.{Frames, Labels, Start}
use mks.Proc.Start.Ready.{tables, struct_of}
use mks.Proc.Start.Segments.{user_segment, tables_segments}
use mks.Boot.UserMode.{Cpu, sti, push, iret, move_to_user_mode}

-- Entry 1 of the local table of a process is its code, and entry 2 its data.
abbrev pub local_entry : Frames → Ptr → ℕ → Desc
local_entry s p selector = if selector / 8 == 1 then s.code_desc p else s.data_desc p

-- The processor goes on at `label`, as a program with interrupts, with the same stack.
pub record InUserMode (label : ℕ) (c u : Cpu) : Type 0 where
  pub goes_on : u.eip ≡ label
  pub same_stack : u.esp ≡ c.esp
  pub words : (a : ℕ) → c.esp ≤ a → u.stack a ≡ c.stack a
  pub interrupts : u.eflags / 0x200 % 2 ≡ 1
  pub code : u.cs ≡ 0x0f
  pub segments : (u.ss ≡ 0x17) × (u.ds ≡ 0x17) × (u.es ≡ 0x17) × (u.fs ≡ 0x17) × (u.gs ≡ 0x17)

abbrev down : ℕ → Cpu → Cpu
down v c = record c { esp = c.esp - 4; stack = update c.stack (c.esp - 4) v }

push-down : (v : ℕ) (c : Cpu) → 4 ≤ c.esp → c.esp < 2 ^ 32 → push v c ≡ down v c
unfolding push
push-down v c room fits = let e : add32 c.esp 0xffff_fffc ≡ c.esp - 4 = omega arith in rw e refl

-- What `iret` finds on the stack, for a program.
iret_outer :
    (c : Cpu) (eip cs eflags esp ss : ℕ)
    → c.stack c.esp ≡ eip
    → c.stack (c.esp + 4) ≡ cs
    → c.stack (c.esp + 8) ≡ eflags
    → c.stack (c.esp + 12) ≡ esp
    → c.stack (c.esp + 16) ≡ ss
    → c.cs % 4 < cs % 4
    → iret c ≡ record c { eip = eip; cs = cs; eflags = eflags; esp = esp; ss = ss }
unfolding iret
iret_outer c eip cs eflags esp ss e₀ e₁ e₂ e₃ e₄ outer =
    let out : ltb (c.cs % 4) (cs % 4) ≡ true = ground arith in rw (e₀, e₁, e₂, e₃, e₄, out) refl

module _ (label : ℕ) (c : Cpu) (kernel : c.cs ≡ 8) (room : 20 ≤ c.esp) (fits : c.esp < 2 ^ 32) where
  -- After each of the five words.
  abbrev first : Cpu
  first = down 0x17 (record c { eax = c.esp })

  abbrev second : Cpu
  second = down c.esp first

  abbrev third : Cpu
  third = down c.eflags second

  abbrev fourth : Cpu
  fourth = down 0x0f third

  abbrev fifth : Cpu
  fifth = down label fourth

  abbrev moved : Cpu
  moved = record {
    eax = 0x17;
    esp = c.esp;
    eip = label;
    eflags = c.eflags;
    cs = 0x0f;
    ss = 0x17;
    ds = 0x17;
    es = 0x17;
    fs = 0x17;
    gs = 0x17;
    stack = fifth.stack;
  }

  returns :
      iret fifth
      ≡ record fifth { eip = label; cs = 0x0f; eflags = c.eflags; esp = c.esp; ss = 0x17 }
  returns =
      iret_outer fifth label 0x0f c.eflags c.esp 0x17 (update_self fourth.stack fifth.esp label)
        (update_ne fourth.stack fifth.esp (fifth.esp + 4) label (omega arith)
          ∙ ap fourth.stack (omega arith)
          ∙ update_self third.stack fourth.esp 0x0f)
        (update_ne fourth.stack fifth.esp (fifth.esp + 8) label (omega arith)
          ∙ update_ne third.stack fourth.esp (fifth.esp + 8) 0x0f (omega arith)
          ∙ ap third.stack (omega arith)
          ∙ update_self second.stack third.esp c.eflags)
        (update_ne fourth.stack fifth.esp (fifth.esp + 12) label (omega arith)
          ∙ update_ne third.stack fourth.esp (fifth.esp + 12) 0x0f (omega arith)
          ∙ update_ne second.stack third.esp (fifth.esp + 12) c.eflags (omega arith)
          ∙ ap second.stack (omega arith)
          ∙ update_self first.stack second.esp c.esp)
        (update_ne fourth.stack fifth.esp (fifth.esp + 16) label (omega arith)
          ∙ update_ne third.stack fourth.esp (fifth.esp + 16) 0x0f (omega arith)
          ∙ update_ne second.stack third.esp (fifth.esp + 16) c.eflags (omega arith)
          ∙ update_ne first.stack second.esp (fifth.esp + 16) c.esp (omega arith)
          ∙ ap first.stack (omega arith)
          ∙ update_self c.stack first.esp 0x17)
        (rw kernel (omega arith))

  move_to_user_mode-moved : move_to_user_mode label c ≡ moved
  unfolding move_to_user_mode
  move_to_user_mode-moved =
      rw
        (
          push-down 0x17 (record c { eax = c.esp }) (omega arith) fits,
          push-down c.esp first (omega arith) (omega arith),
          push-down c.eflags second (omega arith) (omega arith),
          push-down 0x0f third (omega arith) (omega arith),
          push-down label fourth (omega arith) (omega arith),
          returns,
        )
        refl

  moved-stack : (a : ℕ) → c.esp ≤ a → moved.stack a ≡ c.stack a
  moved-stack a above =
      update_ne fourth.stack fifth.esp a label (omega arith)
      ∙ update_ne third.stack fourth.esp a 0x0f (omega arith)
      ∙ update_ne second.stack third.esp a c.eflags (omega arith)
      ∙ update_ne first.stack second.esp a c.esp (omega arith)
      ∙ update_ne c.stack first.esp a 0x17 (omega arith)

  moved-InUserMode : c.eflags / 0x200 % 2 ≡ 1 → InUserMode label c moved
  moved-InUserMode on = record {
    goes_on = refl;
    same_stack = refl;
    words = moved-stack;
    interrupts = on;
    code = refl;
    segments = (refl, refl, refl, refl, refl);
  }

sti-interrupts : (c : Cpu) → (sti c).eflags / 0x200 % 2 ≡ 1
unfolding sti
sti-interrupts c = elim (Bool-cases (c.eflags / 0x200 % 2 == 1)) [
  | inl e ↦ rw e (==_true _ _ e)
  | inr e ↦ let zero : c.eflags / 0x200 % 2 ≡ 0 = ground arith in rw e (omega arith)
]

sti-InUserMode : (label : ℕ) (c u : Cpu) → InUserMode label (sti c) u → InUserMode label c u
unfolding sti
sti-InUserMode label c u h = record {
  goes_on = h.goes_on;
  same_stack = h.same_stack;
  words = h.words;
  interrupts = h.interrupts;
  code = h.code;
  segments = h.segments;
}

-- Where the code segment is that of the kernel and the stack has room for five words: after `sti` and
-- `move_to_user_mode` the processor goes on behind the macro, in privilege 3, with interrupts and with the
-- stack as it was. The selectors of its code and its data name entries of the local table, and as `proc_init`
-- has filled the table of process 0, where the structs of the processes lie below 4 GB, both segments begin
-- at address 0, so that the code and the stack stay where they are.
pub move_to_user_mode-InUserMode :
    (label : ℕ) (c : Cpu) (at : Labels) (s : Start)
    → c.cs ≡ 8
    → 20 ≤ c.esp
    → c.esp < 2 ^ 32
    → s.init_procs + 0x3000 < 2 ^ 32
    → (let u = move_to_user_mode label (sti c) in
        let frames = (tables at s).frames in
        InUserMode label c u
        × (u.cs % 8 ≡ 7)
        × (u.ss % 8 ≡ 7)
        × (segment_of (local_entry frames (struct_of s 0) u.cs) ≡ user_segment 0xfa 0)
        × (segment_of (local_entry frames (struct_of s 0) u.ss) ≡ user_segment 0xf2 0))
unfolding sti
move_to_user_mode-InUserMode label c at s kernel room fits below =
    let (tss, ldt, code, words) = tables_segments at s 0 (omega arith) below in
    rw (move_to_user_mode-moved label (sti c) kernel room fits) (
      sti-InUserMode label c (moved label (sti c) kernel room fits)
          (moved-InUserMode label (sti c) kernel room fits (sti-interrupts c)),
      refl,
      refl,
      code,
      words,
    )
