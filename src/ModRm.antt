-- ===== src/ModRm.antt =====
-- VM/misc.py, `process_ModRM`: the operands that a ModRM byte, with its SIB byte and displacement,
-- names. The operand that may be in memory is a place; the other is the number of a register.
pub mod Decoding
use py_vm.Prelude.{ℕ, ◌/◌, ◌%◌, ◌&&◌, ◌==◌, if◌then◌else◌, ℤ, pos, ◌+ℤ◌, ◌<<ℤ◌}
use py_vm.Machine.{
  Exec, pure, ◌>>=◌, get_reg, get_reg_signed, set_reg, get_mem, get_mem_signed, set_mem, fetch,
  fetch_signed,
}

pub data Place : Type 0 where
  in_reg : ℕ → Place
  in_mem : ℤ → Place

-- `(type).get(loc, sz)` and `(type).set(loc, sz, value)`.
abbrev pub get_place : Place → ℕ → Exec ℕ
get_place (in_reg n) sz = get_reg n sz
get_place (in_mem a) sz = get_mem a sz

abbrev pub get_place_signed : Place → ℕ → Exec ℤ
get_place_signed (in_reg n) sz = get_reg_signed n sz
get_place_signed (in_mem a) sz = get_mem_signed a sz

abbrev pub set_place : Place → ℕ → ℤ → Exec (Unit {0})
set_place (in_reg n) sz value = set_reg n sz value
set_place (in_mem a) sz value = set_mem a sz value

-- The fields `(b & 0b11000000) >> 6`, `(b & 0b00111000) >> 3` and `b & 0b00000111` of a byte, which
-- for a SIB byte are the scale, the index and the base.
abbrev pub mod_field : ℕ → ℕ
mod_field b = b / 64 % 4

abbrev pub reg_field : ℕ → ℕ
reg_field b = b / 8 % 8

abbrev pub rm_field : ℕ → ℕ
rm_field b = b % 8

-- `addr = 0`, or the displacement of one or four bytes.
unfoldable pub displacement : ℕ → Exec ℤ
displacement md =
    if md == 0 then pure (pos 0) else if md == 1 then fetch_signed 1 else fetch_signed 4

-- `addr += reg.get(index, 4, True) << scale`, unless there is no index.
unfoldable pub scaled_index : ℕ → ℕ → ℤ → Exec ℤ
scaled_index index scale addr =
    if index == 4 then pure addr else do x ← get_reg_signed index 4; pure (addr +ℤ (x <<ℤ scale))

unfoldable pub add_base : ℕ → ℕ → ℤ → Exec ℤ
add_base base md addr =
    if base == 5 && md == 0
    then (do d ← fetch_signed 4; pure (addr +ℤ d))
    else (do x ← get_reg_signed base 4; pure (addr +ℤ x))

-- The part behind `RM == 0b100`.
unfoldable pub process_sib : ℕ → Exec ℤ
process_sib md = do
  sib ← fetch 1
  addr ← displacement md
  addr' ← scaled_index (reg_field sib) (mod_field sib) addr
  add_base (rm_field sib) md addr'

-- The part without a SIB byte.
unfoldable pub process_plain : ℕ → ℕ → Exec ℤ
process_plain md rm =
    if md == 1
    then (do x ← get_reg_signed rm 4; d ← fetch_signed 1; pure (x +ℤ d))
    else if md == 2
    then (do x ← get_reg_signed rm 4; d ← fetch_signed 4; pure (x +ℤ d))
    else if rm == 5
    then fetch_signed 4
    else get_reg_signed rm 4

-- The part behind the ModRM byte.
unfoldable pub operands : ℕ → Exec (Place × ℕ)
operands modrm = do
  let md = mod_field modrm
  let rg = reg_field modrm
  let rm = rm_field modrm
  if md == 3 then pure (in_reg rm, rg) else do
    addr ← (if rm == 4 then process_sib md else process_plain md rm)
    pure (in_mem addr, rg)

unfoldable pub process_modrm : Exec (Place × ℕ)
process_modrm = do modrm ← fetch 1; operands modrm
