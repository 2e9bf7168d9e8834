-- ===== src/Segments.antt =====
-- VM/Registers.py, `SegmentDescriptor` and `Sreg`: the 8-byte descriptors of the GDT, and the
-- segment registers with their hidden part.
use py_vm.Prelude.{ℕ, ◌+◌, ◌*◌, ◌/◌, ◌%◌, leb, ◌==◌, if◌then◌else◌}
use py_vm.Outcome.{assertion_error, Result, ok, err}

-- The fields of a descriptor, as the packed structure lays them out: limit_1 in bytes 0 and 1,
-- base_1 in 2 and 3, base_2 in 4, type, S, DPL and P in 5, limit_2, AVL, L, DB and G in 6, base_3
-- in 7.
pub record SegmentDescriptor : Type 0 where
  pub limit_1 : ℕ
  pub base_1 : ℕ
  pub base_2 : ℕ
  pub type : ℕ
  pub system : ℕ
  pub dpl : ℕ
  pub present : ℕ
  pub limit_2 : ℕ
  pub avl : ℕ
  pub long : ℕ
  pub db : ℕ
  pub granularity : ℕ
  pub base_3 : ℕ

-- The eight bytes of an entry of the GDT, the lowest first.
pub record Entry : Type 0 where
  pub b0 : ℕ
  pub b1 : ℕ
  pub b2 : ℕ
  pub b3 : ℕ
  pub b4 : ℕ
  pub b5 : ℕ
  pub b6 : ℕ
  pub b7 : ℕ

abbrev pub zero_entry : Entry
zero_entry = record { b0 = 0; b1 = 0; b2 = 0; b3 = 0; b4 = 0; b5 = 0; b6 = 0; b7 = 0 }

-- `SegmentDescriptor.from_buffer_copy(entry)`
unfoldable pub decode : Entry → SegmentDescriptor
decode e = record {
  limit_1 = e.b0 + 256 * e.b1;
  base_1 = e.b2 + 256 * e.b3;
  base_2 = e.b4;
  type = e.b5 % 16;
  system = e.b5 / 16 % 2;
  dpl = e.b5 / 32 % 4;
  present = e.b5 / 128 % 2;
  limit_2 = e.b6 % 16;
  avl = e.b6 / 16 % 2;
  long = e.b6 / 32 % 2;
  db = e.b6 / 64 % 2;
  granularity = e.b6 / 128 % 2;
  base_3 = e.b7;
}

-- `bytes(descriptor)`; an assignment to a field keeps the low bits of the value.
unfoldable pub encode : SegmentDescriptor → Entry
encode d = record {
  b0 = d.limit_1 % 256;
  b1 = d.limit_1 / 256 % 256;
  b2 = d.base_1 % 256;
  b3 = d.base_1 / 256 % 256;
  b4 = d.base_2 % 256;
  b5 = d.type % 16 + 16 * (d.system % 2) + 32 * (d.dpl % 4) + 128 * (d.present % 2);
  b6 =
      d.limit_2 % 16
      + 16 * (d.avl % 2)
      + 32 * (d.long % 2)
      + 64 * (d.db % 2)
      + 128 * (d.granularity % 2);
  b7 = d.base_3 % 256;
}

-- `_one_sreg` with its `_sreg_hidden`.
pub record SegmentRegister : Type 0 where
  pub visible : ℕ
  pub base : ℕ
  pub limit : ℕ
  pub access : ℕ

-- `(descriptor.base_3 << 24) | (descriptor.base_2 << 16) | descriptor.base_1`, of fields that do not
-- overlap.
abbrev pub descriptor_base : SegmentDescriptor → ℕ
descriptor_base d = d.base_3 * 16777216 + d.base_2 * 65536 + d.base_1

abbrev pub descriptor_limit : SegmentDescriptor → ℕ
descriptor_limit d = d.limit_2 * 65536 + d.limit_1

-- The six registers ES, CS, SS, DS, FS and GS.
abbrev pub Sreg : Type 0
Sreg = ℕ → SegmentRegister

-- `Sreg.set`
unfoldable pub set_sreg : Sreg → ℕ → ℕ → Entry → Sreg
unfolding decode
set_sreg sreg offset selector entry i =
    let d = decode entry in
    if i == offset
    then record {
      visible = selector;
      base = descriptor_base d;
      limit = descriptor_limit d;
      access = (sreg offset).access;
    }
    else sreg i

-- `Sreg.get`
unfoldable pub get_sreg : Sreg → ℕ → Result SegmentRegister
get_sreg sreg offset = if leb offset 5 then ok (sreg offset) else err assertion_error
