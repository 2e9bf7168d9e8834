-- ===== src/Kernel/ThreadArea/Descriptor.antt =====
-- VM/kernel/kernel_memory.py, the descriptor that `sys_set_thread_area` writes, and VM/Registers.py,
-- `SegmentDescriptor` and `Sreg`.
use py_vm.Prelude.{ℕ, ◌<◌, ◌≡◌, true, arith}
use py_vm.Segments.{Entry, decode, encode, Sreg, set_sreg}
use py_vm.Kernel.ThreadArea.{UserDesc, fill_descriptor, allocate_entry, is_present}

-- The fields of an entry are bytes.
abbrev pub AreBytes : Entry → Type 0
AreBytes e =
    (e.b0 < 256)
    × (e.b1 < 256)
    × (e.b2 < 256)
    × (e.b3 < 256)
    × (e.b4 < 256)
    × (e.b5 < 256)
    × (e.b6 < 256)
    × (e.b7 < 256)

-- Decoding an entry of bytes and encoding it again gives the entry.
pub encode-decode : (e : Entry) → AreBytes e → encode (decode e) ≡ e
unfolding encode decode
encode-decode e h = ground arith

-- A segment register that is loaded with the entry which the call allocates has the base and the
-- limit that the program asked for, if they have 32 and 20 bits, and its selector. The entry is
-- present, and no field of it but base, limit and the present bit has changed: the type, the system
-- bit, the privilege level, AVL, L, DB and the granularity are as they were.
pub set_sreg-allocate_entry :
    (u : UserDesc) (e : Entry) (sreg : Sreg) (r selector : ℕ)
    → u.base_addr < 4294967296
    → u.limit < 1048576
    → ((set_sreg sreg r selector (allocate_entry u e) r).base ≡ u.base_addr)
      × ((set_sreg sreg r selector (allocate_entry u e) r).limit ≡ u.limit)
      × ((set_sreg sreg r selector (allocate_entry u e) r).visible ≡ selector)
      × (is_present (allocate_entry u e) ≡ true)
      × ((decode (allocate_entry u e)).type ≡ (decode e).type)
      × ((decode (allocate_entry u e)).dpl ≡ (decode e).dpl)
      × ((decode (allocate_entry u e)).granularity ≡ (decode e).granularity)
      × ((decode (allocate_entry u e)).system ≡ (decode e).system)
      × ((decode (allocate_entry u e)).avl ≡ (decode e).avl)
      × ((decode (allocate_entry u e)).long ≡ (decode e).long)
      × ((decode (allocate_entry u e)).db ≡ (decode e).db)
unfolding set_sreg allocate_entry fill_descriptor encode decode
set_sreg-allocate_entry u e sreg r selector p q = (
  ground arith,
  ground arith,
  ground arith,
  ground arith,
  ground arith,
  ground arith,
  ground arith,
  ground arith,
  ground arith,
  ground arith,
  ground arith,
)
