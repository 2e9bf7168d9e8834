-- ===== src/ModRm/Decoding.antt =====
-- VM/misc.py, `process_ModRM`: how many bytes it takes and what else it changes.
use py_vm.Prelude.{
  ℕ, ◌+◌, ◌*◌, ◌<◌, ◌≡◌, refl, ap, ◌∙◌, inl, inr, ◌&&◌, arith, ◌==◌, if◌then◌else◌, Bool-cases, ℤ,
  pos, negsuc, ◌+ℤ◌, ◌<<ℤ◌,
}
use py_vm.Bytes.{Buffer, read32}
use py_vm.Outcome.{ok}
use py_vm.Misc.{as_signed}
use py_vm.Machine.{Machine, done, Exec, pure, ◌>>=◌, >>=-eq-done, fetch, fetch_signed}
use py_vm.ModRm.{
  Place, in_reg, in_mem, mod_field, reg_field, rm_field, displacement, scaled_index, add_base,
  process_sib, process_plain, operands, process_modrm,
}
use py_vm.Memory
use py_vm.Memory.{Memory}
use py_vm.Registers

-- The bytes of a displacement behind the ModRM byte, or behind the SIB byte with its base.
abbrev displacement_length : ℕ → ℕ → ℕ
displacement_length md base =
    if md == 1 then 1 else if md == 2 then 4 else if base == 5 then 4 else 0

-- The length of the operand bytes: the ModRM byte `b`, the SIB byte `s` if there is one, and the
-- displacement.
unfoldable pub modrm_length : ℕ → ℕ → ℕ
modrm_length b s =
    if mod_field b == 3
    then 1
    else if rm_field b == 4
    then 2 + displacement_length (mod_field b) (rm_field s)
    else 1 + displacement_length (mod_field b) (rm_field b)

-- The address that the operand bytes at `o` name: a base register, an index register times a power of
-- two, and a displacement, each of which may be absent. Registers and displacements are signed.
unfoldable pub signed_register : Buffer → ℕ → ℤ
signed_register reg r = as_signed 4 (read32 reg (4 * r))

unfoldable pub short_displacement : Memory → ℕ → ℤ
short_displacement m at = as_signed 1 (m.cells at)

unfoldable pub long_displacement : Memory → ℕ → ℤ
long_displacement m at = as_signed 4 (read32 m.cells at)

abbrev pub displacement_at : Machine → ℕ → ℕ → ℕ → ℤ
displacement_at vm at md base =
    if md == 1
    then short_displacement vm.mem at
    else if md == 2
    then long_displacement vm.mem at
    else if base == 5
    then long_displacement vm.mem at
    else pos 0

abbrev base_value : Machine → ℕ → ℕ → ℤ
base_value vm md base = if md == 0 && base == 5 then pos 0 else signed_register vm.reg base

abbrev index_value : Machine → ℕ → ℤ
index_value vm s =
    if reg_field s == 4 then pos 0 else signed_register vm.reg (reg_field s) <<ℤ mod_field s

unfoldable pub effective_address : Machine → ℕ → ℕ → ℕ → ℤ
effective_address vm o b s =
    if rm_field b == 4
    then displacement_at vm (o + 2) (mod_field b) (rm_field s)
      +ℤ index_value vm s
      +ℤ base_value vm (mod_field b) (rm_field s)
    else base_value vm (mod_field b) (rm_field b)
      +ℤ displacement_at vm (o + 1) (mod_field b) (rm_field b)

add_zero : (a : ℤ) → a +ℤ pos 0 ≡ a
add_zero (pos n) = ground arith
add_zero (negsuc n) = ground arith

zero_add : (a : ℤ) → pos 0 +ℤ a ≡ a
zero_add (pos n) = ground arith
zero_add (negsuc n) = ground arith

add_swap : (a b c : ℤ) → a +ℤ b +ℤ c ≡ a +ℤ (b +ℤ c)
add_swap (pos a) (pos b) (pos c) = ground arith
add_swap (pos a) (pos b) (negsuc c) = ground arith
add_swap (pos a) (negsuc b) (pos c) = ground arith
add_swap (pos a) (negsuc b) (negsuc c) = ground arith
add_swap (negsuc a) (pos b) (pos c) = ground arith
add_swap (negsuc a) (pos b) (negsuc c) = ground arith
add_swap (negsuc a) (negsuc b) (pos c) = ground arith
add_swap (negsuc a) (negsuc b) (negsuc c) = ground arith

add_comm : (a b : ℤ) → a +ℤ b ≡ b +ℤ a
add_comm (pos a) (pos b) = ground arith
add_comm (pos a) (negsuc b) = ground arith
add_comm (negsuc a) (pos b) = ground arith
add_comm (negsuc a) (negsuc b) = ground arith

read_register :
    (vm : Machine) (r : ℕ) → Registers.get_signed vm.reg r 4 ≡ ok (signed_register vm.reg r)
unfolding Registers.get_signed signed_register
read_register vm r = refl

read_short :
    (vm : Machine) (at : ℕ) (v : ℤ)
    → Memory.get_eip_signed vm.mem (pos at) 1 ≡ ok v
    → v ≡ short_displacement vm.mem at
unfolding Memory.get_eip_signed short_displacement
read_short vm at v h = ground arith

read_long :
    (vm : Machine) (at : ℕ) (v : ℤ)
    → Memory.get_eip_signed vm.mem (pos at) 4 ≡ ok v
    → v ≡ long_displacement vm.mem at
unfolding Memory.get_eip_signed long_displacement
read_long vm at v h = ground arith

read_byte : (m : Memory) (at v : ℕ) → Memory.get_eip m (pos at) 1 ≡ ok v → v ≡ m.cells at
unfolding Memory.get_eip
read_byte m at v h = ground arith

process_plain_lem :
    (vm vm' : Machine) (o md rm : ℕ) (a : ℤ)
    → vm.eip ≡ pos o
    → md < 3
    → process_plain md rm vm ≡ done a vm'
    → (vm' ≡ record vm { eip = pos (o + displacement_length md rm) })
      × (a ≡ base_value vm md rm +ℤ displacement_at vm o md rm)
unfolding process_plain fetch_signed
process_plain_lem vm vm' o md rm a e h p =
    (ground arith, grind (arith, read_register, read_short, read_long, add_zero, zero_add))

-- Each part of the code for a SIB byte.
displacement_lem :
    (vm vm' : Machine) (o md base : ℕ) (a : ℤ)
    → vm.eip ≡ pos o
    → displacement md vm ≡ done a vm'
    → md < 3
    → (vm' ≡ record vm { eip = pos (o + (if md == 1 then 1 else if md == 2 then 4 else 0)) })
      × (a ≡ (
          if md == 1
          then short_displacement vm.mem o
          else if md == 2
          then long_displacement vm.mem o
          else pos 0))
unfolding displacement fetch_signed
displacement_lem vm vm' o md base a e p h = (ground arith, grind (arith, read_short, read_long))

scaled_index_lem :
    (vm vm' : Machine) (s : ℕ) (addr a : ℤ)
    → scaled_index (reg_field s) (mod_field s) addr vm ≡ done a vm'
    → (vm' ≡ vm) × (a ≡ addr +ℤ index_value vm s)
unfolding scaled_index
scaled_index_lem vm vm' s addr a p = ground (arith, read_register vm (reg_field s), add_zero addr)

add_base_lem :
    (vm vm' : Machine) (o base md : ℕ) (addr a : ℤ)
    → vm.eip ≡ pos o
    → add_base base md addr vm ≡ done a vm'
    → (vm' ≡ record vm { eip = pos (o + (if base == 5 && md == 0 then 4 else 0)) })
      × (a
          ≡ addr
            +ℤ (if base == 5 && md == 0
                then long_displacement vm.mem o
                else signed_register vm.reg base))
unfolding add_base fetch_signed
add_base_lem vm vm' o base md addr a e p = (ground arith, grind (arith, read_register, read_long))

fetch_lem :
    (vm vm' : Machine) (o n v : ℕ)
    → vm.eip ≡ pos o
    → fetch n vm ≡ done v vm'
    → (vm' ≡ record vm { eip = pos (o + n) }) × (Memory.get_eip vm.mem (pos o) n ≡ ok v)
unfolding fetch
fetch_lem vm vm' o n v e p = (ground arith, ground arith)

sib_sum : (d i : ℤ) → pos 0 +ℤ i +ℤ d ≡ d +ℤ i +ℤ pos 0
sib_sum d i = rw (zero_add i, add_zero (d +ℤ i)) (add_comm i d)

-- The four steps in a row.
sib_steps :
    (vm vm₁ vm₂ vm₃ vm' : Machine) (o md s s' : ℕ) (d x a : ℤ)
    → vm.eip ≡ pos o
    → md < 3
    → vm.mem.cells o ≡ s
    → fetch 1 vm ≡ done s' vm₁
    → displacement md vm₁ ≡ done d vm₂
    → scaled_index (reg_field s') (mod_field s') d vm₂ ≡ done x vm₃
    → add_base (rm_field s') md x vm₃ ≡ done a vm'
    → (vm' ≡ record vm { eip = pos (o + 1 + displacement_length md (rm_field s)) })
      × (a
          ≡ displacement_at vm (o + 1) md (rm_field s)
            +ℤ index_value vm s
            +ℤ base_value vm md (rm_field s))
sib_steps vm vm₁ vm₂ vm₃ vm' o md s s' d x a e h q p₁ p₂ p₃ p₄ =
    let f₁ = fetch_lem vm vm₁ o 1 s' e p₁ in
    let e₁ : vm₁.eip ≡ pos (o + 1) = ap (λ (v : Machine). v.eip) f₁.0 in
    let byte = read_byte vm.mem o s' f₁.1 in
    let f₂ = displacement_lem vm₁ vm₂ (o + 1) md 0 d e₁ p₂ h in
    let f₃ = scaled_index_lem vm₂ vm₃ s' d x p₃ in
    let at = o + 1 + (if md == 1 then 1 else if md == 2 then 4 else 0) in
    let e₂ : vm₂.eip ≡ pos at = ap (λ (v : Machine). v.eip) f₂.0 in
    let p₄' : add_base (rm_field s') md x vm₂ ≡ done a vm' = rw f₃.0 at p₄ in
    let f₄ = add_base_lem vm₂ vm' at (rm_field s') md x a e₂ p₄' in
    let i = index_value vm s' in
    let l = long_displacement vm.mem (o + 1) in
    (ground arith, ground (arith, sib_sum l i, add_zero (pos 0 +ℤ i +ℤ l)))

process_sib_lem :
    (vm vm' : Machine) (o md s : ℕ) (a : ℤ)
    → vm.eip ≡ pos o
    → md < 3
    → vm.mem.cells o ≡ s
    → process_sib md vm ≡ done a vm'
    → (vm' ≡ record vm { eip = pos (o + 1 + displacement_length md (rm_field s)) })
      × (a
          ≡ displacement_at vm (o + 1) md (rm_field s)
            +ℤ index_value vm s
            +ℤ base_value vm md (rm_field s))
unfolding process_sib
process_sib_lem vm vm' o md s a e h q p =
    let (s', vm₁, p₁, r₁) = >>=-eq-done (fetch 1) _ vm p in
    let (d, vm₂, p₂, r₂) = >>=-eq-done (displacement md) _ vm₁ r₁ in
    let (x, vm₃, p₃, p₄) = >>=-eq-done (scaled_index (reg_field s') (mod_field s') d) _ vm₂ r₂ in
    sib_steps vm vm₁ vm₂ vm₃ vm' o md s s' d x a e h q p₁ p₂ p₃ p₄

abbrev memory_operand : ℕ → ℤ → Exec (Place × ℕ)
memory_operand r addr = pure (in_mem addr, r)

-- With a place in memory at `addr`.
in_memory :
    (vm vm₁ vm' : Machine) (part : Exec ℤ) (b r : ℕ) (place : Place)
    → (part >>= memory_operand (reg_field b)) vm₁ ≡ done (place, r) vm'
    → (addr : ℤ) × (part vm₁ ≡ done addr vm') × (place ≡ in_mem addr) × (r ≡ reg_field b)
in_memory vm vm₁ vm' part b r place p =
    let (addr, vm₂, p₂, p₃) = (>>=-eq-done part (memory_operand (reg_field b)) vm₁ p) in
    let same : vm₂ ≡ vm' = cc p₃ in (addr, rw same at p₂, cc p₃, cc p₃)

operands_lem :
    (vm vm₁ vm' : Machine) (o b s r : ℕ) (place : Place)
    → vm.eip ≡ pos o
    → fetch 1 vm ≡ done b vm₁
    → vm.mem.cells (o + 1) ≡ s
    → operands b vm₁ ≡ done (place, r) vm'
    → (vm' ≡ record vm { eip = pos (o + modrm_length b s) })
      × (r ≡ reg_field b)
      × (place
          ≡ (if mod_field b == 3 then in_reg (rm_field b) else in_mem (effective_address vm o b s)))
unfolding operands modrm_length effective_address
operands_lem vm vm₁ vm' o b s r place e p₁ c p =
    let f₁ = fetch_lem vm vm₁ o 1 b e p₁ in
    let e₁ : vm₁.eip ≡ pos (o + 1) = ap (λ (v : Machine). v.eip) f₁.0 in
    let c₁ : vm₁.mem.cells (o + 1) ≡ s = ap (λ (v : Machine). v.mem.cells (o + 1)) f₁.0 ∙ c in
    elim (Bool-cases (mod_field b == 3)) [
      | inl direct ↦ (ground arith, ground arith, ground arith)
      | inr memory ↦
          let small : mod_field b < 3 = ground arith in
          elim (Bool-cases (rm_field b == 4)) [
            | inl sib ↦
                let (addr, p₂, i, j) =
                  in_memory vm vm₁ vm' (process_sib (mod_field b)) b r place
                    (rw (memory, sib) at p) in
                let f₂ = process_sib_lem vm₁ vm' (o + 1) (mod_field b) s addr e₁ small c₁ p₂ in
                (ground arith, j, ground arith)
            | inr plain ↦
                let (addr, p₂, i, j) =
                  in_memory vm vm₁ vm' (process_plain (mod_field b) (rm_field b)) b r place
                    (rw (memory, plain) at p) in
                let f₂ =
                  process_plain_lem vm₁ vm' (o + 1) (mod_field b) (rm_field b) addr e₁ small p₂ in
                (ground arith, j, ground arith)
          ]
    ]

-- `process_ModRM` at the address `o`, where `b` is the ModRM byte and `s` the byte behind it, moves
-- the instruction pointer by the length of the operand bytes and changes nothing else. The register
-- is the middle field of `b`; the place is the register of the low field, or the effective address.
pub process_modrm_lem :
    (vm vm' : Machine) (o b s r : ℕ) (place : Place)
    → vm.eip ≡ pos o
    → Memory.get_eip vm.mem (pos o) 1 ≡ ok b
    → vm.mem.cells (o + 1) ≡ s
    → process_modrm vm ≡ done (place, r) vm'
    → (vm' ≡ record vm { eip = pos (o + modrm_length b s) })
      × (r ≡ reg_field b)
      × (place
          ≡ (if mod_field b == 3 then in_reg (rm_field b) else in_mem (effective_address vm o b s)))
unfolding process_modrm
process_modrm_lem vm vm' o b s r place e q c p =
    let (b', vm₁, p₁, p₂) = >>=-eq-done (fetch 1) operands vm p in
    let read = fetch_lem vm vm₁ o 1 b' e p₁ in
    let same : b' ≡ b = cc read.1 in
    operands_lem vm vm₁ vm' o b s r place e (rw same at p₁) c (rw same at p₂)
