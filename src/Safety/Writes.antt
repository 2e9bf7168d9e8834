-- ===== src/Safety/Writes.antt =====
-- VM/Memory.py and the accesses of Machine: every write is checked before it is made.
use py_vm.Prelude.{
  length, ℕ, ◌+◌, ◌/◌, ◌%◌, ◌≤◌, ◌≡◌, refl, subst, ◌∙◌, inr, List, arith, ℤ, pos, negsuc, ◌%ℤ◌,
}
use py_vm.Bytes.{Buffer, write32, fill}
use py_vm.Bytes.Laws.{
  write8_outside, write16_outside, write32_outside, write_bytes_outside, fill_outside,
}
use py_vm.Outcome.{Result, ok, err}
use py_vm.Machine.{Machine, Outcome, done, raised, lift_reg, lift_mem, set_mem, set_eip, set_flags}
use py_vm.Binary80.{Binary80, to_double, Floats}
use py_vm.Safety.{
  Confined, machine_of, IsConfined, Confined-refl, IsConfined-pure, IsConfined-raise,
  IsConfined-gets, IsConfined-lift, IsConfined->>=, IsConfined-if, IsConfined-modify,
}
use py_vm.Memory
use py_vm.Registers.{Flags}
use py_vm.Memory.{Memory, with_address, write_at}
use py_vm.Memory.Floats.{write64, float_into, set_float}

-- No byte behind the end of the RAM has changed, and the end is where it was.
abbrev pub Within : Memory → Memory → Type 0
Within m m' = (m'.size ≡ m.size) × ((j : ℕ) → m.size ≤ j → m'.cells j ≡ m.cells j)

asan-within : (m : Memory) (offset : ℤ) (n a : ℕ) → Memory.asan m offset n ≡ ok a → a + n ≤ m.size
unfolding Memory.asan
asan-within m (pos o) n a h = ground arith
asan-within m (negsuc o) n a h = ground arith

asan_raw-within :
    (m : Memory) (offset : ℤ) (n a : ℕ) → Memory.asan_raw m offset n ≡ ok a → a + n ≤ m.size
unfolding Memory.asan_raw
asan_raw-within m (pos o) n a h = ground arith
asan_raw-within m (negsuc o) n a h = ground arith

-- An access that returned had an address.
accessed :
    {A : Type 0} (r : Result ℕ) (access : ℕ → Result A) (b : A)
    → with_address r access ≡ ok b
    → (a : ℕ) × (r ≡ ok a) × (access a ≡ ok b)
accessed (ok a) access b h = (a, refl, h)
accessed (err e) access b h = cc

replaced :
    (m m' : Memory) (c : Buffer)
    → Path (Result Memory) (ok (record m { cells = c })) (ok m')
    → ((j : ℕ) → m.size ≤ j → c j ≡ m.cells j)
    → Within m m'
replaced m m' c h outside =
    let same : record m { cells = c } ≡ m' = cc in subst (Within m) same (refl, outside)

write_at-Within :
    (m m' : Memory) (sz a : ℕ) (v : ℤ) → a + sz ≤ m.size → write_at m sz v a ≡ ok m' → Within m m'
write_at-Within m m' sz a v room h = (
  ground arith,
  λ j le. ground (
    arith,
    write32_outside m.cells a (v %ℤ 4294967296) j,
    write16_outside m.cells a (v %ℤ 65536) j,
    write8_outside m.cells a (v %ℤ 256) j,
  ),
)

set-Within : (m m' : Memory) (o v : ℤ) (sz : ℕ) → Memory.set m o sz v ≡ ok m' → Within m m'
unfolding Memory.set
set-Within m m' o v sz h =
    let (a, found, written) = accessed (Memory.asan m o sz) (write_at m sz v) m' h in
    write_at-Within m m' sz a v (asan-within m o sz a found) written

set_bytes-Within :
    (m m' : Memory) (o : ℤ) (xs : List ℕ) → Memory.set_bytes m o xs ≡ ok m' → Within m m'
unfolding Memory.set_bytes
set_bytes-Within m m' o xs h =
    let (a, found, written) = accessed (Memory.asan m o (length xs)) _ m' h in
    let room = asan-within m o (length xs) a found in
    replaced m m' _ written (λ j le. write_bytes_outside m.cells a xs j (inr (omega arith)))

memset-Within :
    (m m' : Memory) (o b : ℤ) (v n : ℕ) → Memory.memset m o v n ≡ ok (m', b) → Within m m'
unfolding Memory.memset
memset-Within m m' o b v n h =
    let (a, found, written) = accessed (Memory.asan_raw m o n) _ (m', b) h in
    let room = asan_raw-within m o n a found in
    replaced m m' (fill m.cells a v n) (cc)
      (λ j le. fill_outside m.cells a v n j (inr (omega arith)))

write64_outside : (b : Buffer) (i v j : ℕ) → i + 8 ≤ j → write64 b i v j ≡ b j
write64_outside b i v j h =
    write32_outside (write32 b i (v % 4294967296)) (i + 4) (v / 4294967296 % 4294967296) j
      (inr (omega arith))
    ∙ write32_outside b i (v % 4294967296) j (inr (omega arith))

float_into-Within :
    (floats : Floats) (m m' : Memory) (sz a : ℕ) (v : Binary80)
    → a + sz ≤ m.size
    → float_into floats m sz v a ≡ ok m'
    → Within m m'
float_into-Within floats m m' sz a v room h = (
  ground arith,
  λ j le. ground (
    arith,
    write32_outside m.cells a (floats.narrow (to_double v)) j,
    write64_outside m.cells a (to_double v) j,
  ),
)

set_float-Within :
    (floats : Floats) (m m' : Memory) (o : ℤ) (sz : ℕ) (v : Binary80)
    → set_float floats m o sz v ≡ ok m'
    → Within m m'
unfolding set_float
set_float-Within floats m m' o sz v h =
    let (a, found, written) = accessed (Memory.asan m o sz) (float_into floats m sz v) m' h in
    float_into-Within floats m m' sz a v (asan-within m o sz a found) written

-- The actions of Machine that change the RAM.
rewritten :
    (vm : Machine) (r : Result Memory)
    → ((m' : Memory) → r ≡ ok m' → Within vm.mem m')
    → Confined vm (
        machine_of (elim r as (λ x. Outcome (Unit {0})) [
          | ok m ↦ done tt (record vm { mem = m })
          | err e ↦ raised e vm
        ]))
rewritten vm (ok m) h = record { same_size = (h m refl).0; untouched = (h m refl).1 }
rewritten vm (err e) h = Confined-refl vm

pub IsConfined-lift_mem :
    (f : Memory → Result Memory)
    → ((m m' : Memory) → f m ≡ ok m' → Within m m')
    → IsConfined (lift_mem f)
IsConfined-lift_mem f h = record { at = λ vm. rewritten vm (f vm.mem) (h vm.mem) }

pub IsConfined-set_mem : (o : ℤ) (sz : ℕ) (v : ℤ) → IsConfined (set_mem o sz v)
IsConfined-set_mem o sz v =
    IsConfined-lift_mem (λ m. Memory.set m o sz v) (λ m m' h. set-Within m m' o v sz h)

pub IsConfined-set_bytes :
    (o : ℤ) (xs : List ℕ) → IsConfined (lift_mem (λ m. Memory.set_bytes m o xs))
IsConfined-set_bytes o xs = IsConfined-lift_mem _ (λ m m' h. set_bytes-Within m m' o xs h)

pub IsConfined-set_float :
    (floats : Floats) (o : ℤ) (sz : ℕ) (v : Binary80)
    → IsConfined (lift_mem (λ m. set_float floats m o sz v))
IsConfined-set_float floats o sz v =
    IsConfined-lift_mem _ (λ m m' h. set_float-Within floats m m' o sz v h)

filled :
    (vm : Machine) (r : Result (Memory × ℤ))
    → ((m' : Memory) (a : ℤ) → r ≡ ok (m', a) → Within vm.mem m')
    → Confined vm (
        machine_of (elim r as (λ x. Outcome ℤ) [
          | ok (m, a) ↦ done a (record vm { mem = m })
          | err e ↦ raised e vm
        ]))
filled vm (ok (m, a)) h = record { same_size = (h m a refl).0; untouched = (h m a refl).1 }
filled vm (err e) h = Confined-refl vm

pub IsConfined-memset :
    (o : ℤ) (v n : ℕ)
    → IsConfined (λ vm. elim (Memory.memset vm.mem o v n) as (λ x. Outcome ℤ) [
      | ok (m, a) ↦ done a (record vm { mem = m })
      | err e ↦ raised e vm
    ])
IsConfined-memset o v n = record {
  at = λ vm. filled vm (Memory.memset vm.mem o v n) (λ m' a h. memset-Within vm.mem m' o a v n h);
}

-- Those that change the registers, the flags or the instruction pointer.
moved :
    (vm : Machine) (r : Result Buffer)
    → Confined vm (
        machine_of (elim r as (λ x. Outcome (Unit {0})) [
          | ok b ↦ done tt (record vm { reg = b })
          | err e ↦ raised e vm
        ]))
moved vm (ok b) = record { same_size = refl; untouched = λ j h. refl }
moved vm (err e) = Confined-refl vm

pub IsConfined-lift_reg : (f : Buffer → Result Buffer) → IsConfined (lift_reg f)
IsConfined-lift_reg f = record { at = λ vm. moved vm (f vm.reg) }

pub IsConfined-set_eip : (e : ℤ) → IsConfined (set_eip e)
IsConfined-set_eip e = IsConfined-modify _ (λ vm. refl)

pub IsConfined-set_flags : (f : Flags → Flags) → IsConfined (set_flags f)
IsConfined-set_flags f = IsConfined-modify _ (λ vm. refl)

pub ruleset confined_rules = (
  IsConfined-pure, IsConfined-raise, IsConfined-gets, IsConfined-lift, IsConfined->>=,
  IsConfined-if, IsConfined-lift_reg, IsConfined-set_eip, IsConfined-set_flags, IsConfined-set_mem,
)
