-- ===== src/Boot/UserMode.antt =====
-- The end of `main` of kernel/main.c: `sti` and `move_to_user_mode` of include/asm/system.h, on the registers
-- of the processor and the words of the stack.
pub mod Enters
use mks.Base.{
  ℕ, ◌+◌, ◌-◌, ◌*◌, ◌/◌, ◌%◌, ◌^◌, ◌≤◌, ◌<◌, ◌≡◌, ◌≢◌, refl, sym, ◌∙◌, ap, arith, ltb, ◌==◌,
  if◌then◌else◌, add32, update, update_self, update_ne, true, false, Bool-cases, ==_true, inl, inr,
}
use mks.Linked.{Ptr}
use mks.Descriptors.{Desc}
use mks.Descriptors.Fields.{segment_of}
use mks.Proc.Start.{Frames, Labels, Start}
use mks.Proc.Start.Ready.{tables, struct_of}
use mks.Proc.Start.Segments.{user_segment, tables_segments}

pub record Cpu : Type 0 where
  pub eax : ℕ
  pub esp : ℕ
  pub eip : ℕ
  pub eflags : ℕ
  pub cs : ℕ
  pub ss : ℕ
  pub ds : ℕ
  pub es : ℕ
  pub fs : ℕ
  pub gs : ℕ
  pub stack : Ptr → ℕ

-- `sti` sets the flag IF.
unfoldable pub sti : Cpu → Cpu
sti c = record c { eflags = if c.eflags / 0x200 % 2 == 1 then c.eflags else c.eflags + 0x200 }

unfoldable pub push : ℕ → Cpu → Cpu
push v c = let a = add32 c.esp 0xffff_fffc in record c { esp = a; stack = update c.stack a v }

-- `iret` to another privilege takes the stack pointer from the stack, too.
unfoldable pub iret : Cpu → Cpu
iret c =
    let back : Cpu = record c {
      eip = c.stack c.esp;
      cs = c.stack (c.esp + 4);
      eflags = c.stack (c.esp + 8);
    } in
    if ltb (c.cs % 4) (back.cs % 4)
    then record back { esp = c.stack (c.esp + 12); ss = c.stack (c.esp + 16) }
    else record back { esp = c.esp + 12 }

-- `label` is the address behind the `iret`.
unfoldable pub move_to_user_mode : ℕ → Cpu → Cpu
move_to_user_mode label c =
    let c : Cpu = record c { eax = c.esp } in
    let c = push c.eax (push 0x17 c) in
    let c = push label (push 0x0f (push c.eflags c)) in
    let c : Cpu = record (iret c) { eax = 0x17 } in
    record c { ds = c.eax; es = c.eax; fs = c.eax; gs = c.eax }
