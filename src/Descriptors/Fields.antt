-- ===== src/Descriptors/Fields.antt =====
-- How the processor reads the two words of a descriptor, as its manual lays the fields out.
use mks.Base.{ℕ, ◌+◌, ◌*◌, ◌/◌, ◌%◌, ◌^◌, ◌<◌, ◌≡◌, arith}
use mks.Descriptors.{Desc, set_gate, set_tssldt_desc}

-- A gate: where it leads, and who may call it.
pub record Gate : Type 0 where
  pub selector : ℕ
  pub offset : ℕ
  pub type : ℕ
  pub dpl : ℕ
  pub present : ℕ

abbrev pub gate_of : Desc → Gate
gate_of d = record {
  selector = d.a / 2 ^ 16;
  offset = d.b / 2 ^ 16 * 2 ^ 16 + d.a % 2 ^ 16;
  type = d.b / 2 ^ 8 % 2 ^ 5;
  dpl = d.b / 2 ^ 13 % 2 ^ 2;
  present = d.b / 2 ^ 15 % 2;
}

pub gate_of-set_gate :
    (type dpl addr : ℕ)
    → type < 32
    → dpl < 4
    → addr < 2 ^ 32
    → gate_of (set_gate type dpl addr)
      ≡ record { selector = 8; offset = addr; type = type; dpl = dpl; present = 1 }
unfolding set_gate
gate_of-set_gate type dpl addr ht hd ha = ground arith

-- A segment: its first address, the highest number of a page or byte in it, and its access byte.
pub record Segment : Type 0 where
  pub base : ℕ
  pub limit : ℕ
  pub in_pages : ℕ
  pub access : ℕ

abbrev pub segment_of : Desc → Segment
segment_of d = record {
  base = d.a / 2 ^ 16 + d.b % 2 ^ 8 * 2 ^ 16 + d.b / 2 ^ 24 * 2 ^ 24;
  limit = d.a % 2 ^ 16 + d.b / 2 ^ 16 % 2 ^ 4 * 2 ^ 16;
  in_pages = d.b / 2 ^ 23 % 2;
  access = d.b / 2 ^ 8 % 2 ^ 8;
}

pub segment_of-set_tssldt_desc :
    (type addr : ℕ)
    → type < 256
    → addr < 2 ^ 32
    → segment_of (set_tssldt_desc type addr)
      ≡ record { base = addr; limit = 104; in_pages = 0; access = type }
unfolding set_tssldt_desc
segment_of-set_tssldt_desc type addr ht ha = ground arith
