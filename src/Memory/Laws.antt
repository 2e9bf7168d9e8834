-- ===== src/Memory/Laws.antt =====
-- VM/Memory.py: which accesses succeed, reads after writes, and what a write leaves alone.
use py_vm.Prelude.{
  ℕ, ◌+◌, ◌≤◌, ◌<◌, ◌≡◌, ◌⊎◌, Bool, false, arith, leb, ◌==◌, if◌then◌else◌, ℤ, pos, negsuc, ◌%ℤ◌,
}
use py_vm.Bytes.{read16, read32, write8, write16, write32}
use py_vm.Bytes.Laws.{
  write8_self, read16-write16, read32-write32, write8_outside, write16_outside, write32_outside,
}
use py_vm.Outcome.{ok, returned}
use py_vm.Misc.{modulus}
use py_vm.Misc.Laws.{IsSize, by_size, mod_range}
use py_vm.Memory
use py_vm.Memory.{Memory}

-- The `n` bytes at `offset` from `base` lie in a memory of `limit` bytes.
abbrev pub in_bounds : ℕ → ℕ → ℤ → ℕ → Bool
in_bounds limit base (pos o) n = leb (base + o + n) limit
in_bounds limit base (negsuc o) n = false

asan-returned :
    (limit base : ℕ) (offset : ℤ) (n : ℕ)
    → returned (Memory.asan_at limit base offset n) ≡ in_bounds limit base offset n
asan-returned limit base (pos o) n = ground arith
asan-returned limit base (negsuc o) n = ground arith

get-returned :
    (m : Memory) (offset : ℤ) (sz : ℕ)
    → IsSize sz
    → returned (Memory.get m offset sz) ≡ in_bounds m.size m.segment_base offset sz
unfolding Memory.get
get-returned m (pos o) sz h = ground arith
get-returned m (negsuc o) sz h = ground arith

set-returned :
    (m : Memory) (offset : ℤ) (sz : ℕ) (v : ℤ)
    → IsSize sz
    → returned (Memory.set m offset sz v) ≡ in_bounds m.size m.segment_base offset sz
unfolding Memory.set
set-returned m (pos o) sz v h = ground arith
set-returned m (negsuc o) sz v h = ground arith

get_eip-returned :
    (m : Memory) (offset : ℤ) (sz : ℕ)
    → IsSize sz
    → returned (Memory.get_eip m offset sz) ≡ in_bounds m.size 0 offset sz
unfolding Memory.get_eip
get_eip-returned m (pos o) sz h = ground arith
get_eip-returned m (negsuc o) sz h = ground arith

get_bytes-returned :
    (m : Memory) (offset : ℤ) (n : ℕ)
    → returned (Memory.get_bytes m offset n) ≡ in_bounds m.size m.segment_base offset n
unfolding Memory.get_bytes
get_bytes-returned m (pos o) n = ground arith
get_bytes-returned m (negsuc o) n = ground arith

memset-returned :
    (m : Memory) (offset : ℤ) (v n : ℕ)
    → returned (Memory.memset m offset v n) ≡ in_bounds m.size 0 offset n
unfolding Memory.memset
memset-returned m (pos o) v n = ground arith
memset-returned m (negsuc o) v n = ground arith

-- The accesses succeed exactly when they lie in the memory: the reads and writes of data from the
-- segment base, `get_eip` and `memset` from address 0. A negative offset always raises.
pub access_checked :
    (m : Memory) (offset : ℤ) (sz n : ℕ) (v : ℤ) (byte : ℕ)
    → IsSize sz
    → (returned (Memory.get m offset sz) ≡ in_bounds m.size m.segment_base offset sz)
      × (returned (Memory.set m offset sz v) ≡ in_bounds m.size m.segment_base offset sz)
      × (returned (Memory.get_eip m offset sz) ≡ in_bounds m.size 0 offset sz)
      × (returned (Memory.get_bytes m offset n) ≡ in_bounds m.size m.segment_base offset n)
      × (returned (Memory.memset m offset byte n) ≡ in_bounds m.size 0 offset n)
access_checked m offset sz n v byte h = (
  get-returned m offset sz h,
  set-returned m offset sz v h,
  get_eip-returned m offset sz h,
  get_bytes-returned m offset n,
  memset-returned m offset byte n,
)

-- The memory after a write of the word `w` at the address `a`.
unfoldable pub mem_stored : Memory → ℕ → ℕ → ℕ → Memory
mem_stored m a sz w = record m {
  cells =
      (if sz == 4
        then write32 m.cells a w
        else if sz == 2
        then write16 m.cells a w
        else write8 m.cells a w);
}

pub mem_get_lem :
    (m : Memory) (o sz : ℕ)
    → IsSize sz
    → m.segment_base + o + sz ≤ m.size
    → Memory.get m (pos o) sz
      ≡ ok (
          if sz == 4
          then read32 m.cells (m.segment_base + o)
          else if sz == 2
          then read16 m.cells (m.segment_base + o)
          else m.cells (m.segment_base + o))
unfolding Memory.get
mem_get_lem m o sz h b = ground arith

pub mem_set_lem :
    (m : Memory) (o sz : ℕ) (v : ℤ)
    → IsSize sz
    → m.segment_base + o + sz ≤ m.size
    → Memory.set m (pos o) sz v ≡ ok (mem_stored m (m.segment_base + o) sz (v %ℤ modulus sz))
unfolding Memory.set mem_stored
mem_set_lem m o sz v h b = ground arith

pub get-mem_stored :
    (m : Memory) (o sz w : ℕ)
    → IsSize sz
    → w < modulus sz
    → m.segment_base + o + sz ≤ m.size
    → Memory.get (mem_stored m (m.segment_base + o) sz w) (pos o) sz ≡ ok w
unfolding Memory.get mem_stored
get-mem_stored m o sz w h lt b =
    by_size
      (λ s.
        w < modulus s
        → m.segment_base + o + s ≤ m.size
        → Memory.get (mem_stored m (m.segment_base + o) s w) (pos o) s ≡ ok w)
      (λ p q. ground (arith, write8_self m.cells (m.segment_base + o) w))
      (λ p q. ground (arith, read16-write16 m.cells (m.segment_base + o) w))
      (λ p q. ground (arith, read32-write32 m.cells (m.segment_base + o) w)) h lt b

pub mem_stored_outside :
    (m : Memory) (a sz w j : ℕ)
    → IsSize sz
    → (j < a) ⊎ (a + sz ≤ j)
    → (mem_stored m a sz w).cells j ≡ m.cells j
unfolding mem_stored
mem_stored_outside m a sz w j h =
    by_size (λ s. (j < a) ⊎ (a + s ≤ j) → (mem_stored m a s w).cells j ≡ m.cells j)
      (write8_outside m.cells a w j) (write16_outside m.cells a w j) (write32_outside m.cells a w j)
      h

-- A write that fits the memory succeeds, a read of the same place gives the value back, cut to the
-- size, and no byte outside the written range changes.
pub get-set :
    (m : Memory) (o sz : ℕ) (v : ℤ)
    → IsSize sz
    → m.segment_base + o + sz ≤ m.size
    → (m' : Memory) × (Memory.set m (pos o) sz v ≡ ok m')
      × (Memory.get m' (pos o) sz ≡ ok (v %ℤ modulus sz))
      × ((j : ℕ)
          → (j < m.segment_base + o) ⊎ (m.segment_base + o + sz ≤ j)
          → m'.cells j ≡ m.cells j)
get-set m o sz v h b = (
  mem_stored m (m.segment_base + o) sz (v %ℤ modulus sz),
  mem_set_lem m o sz v h b,
  get-mem_stored m o sz (v %ℤ modulus sz) h (mod_range v sz h) b,
  λ j out. mem_stored_outside m (m.segment_base + o) sz (v %ℤ modulus sz) j h out,
)
