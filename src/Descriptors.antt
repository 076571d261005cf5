-- ===== src/Descriptors.antt =====
-- Descriptors of the processor: `desc_struct` of include/kernel/head.h and the macros of
-- include/asm/system.h that fill them.
pub mod Fields
use mks.Base.{ℕ, ◌+◌, ◌*◌, ◌/◌, ◌%◌, ◌^◌, bit_and, bit_or}

pub record Desc : Type 0 where
  pub a : ℕ
  pub b : ℕ

-- `_set_gate`: `movw %dx, %ax` takes the low half of the address into eax, which starts as
-- 0x00080000, and `movw $flags, %dx` puts the flags below the high half.
unfoldable pub set_gate : ℕ → ℕ → ℕ → Desc
set_gate type dpl addr = record {
  a = 0x80000 + addr % 2 ^ 16;
  b = addr / 2 ^ 16 * 2 ^ 16 + (0x8000 + dpl * 2 ^ 13 + type * 2 ^ 8) % 2 ^ 16;
}

abbrev pub set_intr_gate : ℕ → Desc
set_intr_gate addr = set_gate 14 0 addr

abbrev pub set_trap_gate : ℕ → Desc
set_trap_gate addr = set_gate 15 0 addr

abbrev pub set_system_gate : ℕ → Desc
set_system_gate addr = set_gate 15 3 addr

-- `_set_ldt_seg_desc`
unfoldable pub set_ldt_seg_desc : ℕ → ℕ → ℕ → Desc
set_ldt_seg_desc type base limit = record {
  a = bit_or (bit_and base 0xffff * 2 ^ 16) (bit_and limit 0xffff);
  b =
      bit_or
        (bit_or
          (bit_or (bit_or (bit_and base 0xff00_0000) (bit_and base 0xff_0000 / 2 ^ 16))
            (bit_and limit 0xf_0000))
          0xc0_f000)
        (type * 2 ^ 8);
}

abbrev pub set_ldt_cs_desc : ℕ → ℕ → Desc
set_ldt_cs_desc base limit = set_ldt_seg_desc 0xa base limit

abbrev pub set_ldt_ds_desc : ℕ → ℕ → Desc
set_ldt_ds_desc base limit = set_ldt_seg_desc 2 base limit

-- `_set_tssldt_desc`, byte by byte: the limit 104, the address in three parts, the type.
unfoldable pub set_tssldt_desc : ℕ → ℕ → Desc
set_tssldt_desc type addr = record {
  a = 104 + addr % 2 ^ 16 * 2 ^ 16;
  b = addr / 2 ^ 16 % 2 ^ 8 + type * 2 ^ 8 + addr / 2 ^ 24 % 2 ^ 8 * 2 ^ 24;
}

abbrev pub set_tss_desc : ℕ → Desc
set_tss_desc addr = set_tssldt_desc 0x89 addr

abbrev pub set_ldt_desc : ℕ → Desc
set_ldt_desc addr = set_tssldt_desc 0x82 addr
