-- ===== src/Instructions/MulDiv.antt =====
-- VM/instructions/math.py, `MUL`, `DIV` and `IMUL`.
pub mod Arithmetic
pub mod Division
pub mod Handler
use py_vm.Prelude.{
  ℕ, ◌+◌, ◌*◌, ◌/◌, Bool, true, false, not, ◌==◌, if◌then◌else◌, bit, ℤ, pos, ◌*ℤ◌, ◌%ℤ◌, ◌/ℤ◌,
  floor_div, floor_mod, ltb_ℤ, eqb_ℤ,
}
use py_vm.Outcome.{runtime_error, zero_division_error}
use py_vm.Misc.{maxval, modulus, sign_extend}
use py_vm.Machine.{
  Exec, pure, raise, ◌>>=◌, ◌>>◌, gets, lift, get_reg, get_reg_signed, set_reg, set_eip, set_flags,
  fetch_signed, operand_width,
}
use py_vm.ModRm.{Place, get_place, get_place_signed, reg_field, process_modrm}
use py_vm.Memory
use py_vm.Registers.{Flags}

-- `_sz = 2 if sz == 1 else sz`
abbrev pub pair_size : ℕ → ℕ
pair_size sz = if sz == 1 then 2 else sz

-- `vm.reg.eflags.OF = vm.reg.eflags.CF = b`
abbrev pub set_of_cf : Bool → Flags → Flags
set_of_cf b f = record f { of = bit b; cf = bit b }

-- `res & MAXVALS[_sz]` and `(res >> (sz * 8)) & MAXVALS[_sz]`
abbrev pub low_half : ℕ → ℤ → ℕ
low_half sz res = res %ℤ modulus (pair_size sz)

abbrev pub high_half : ℕ → ℤ → ℕ
high_half sz res = (res /ℤ modulus sz) %ℤ modulus (pair_size sz)

-- `lo` into (E)AX and, unless the operands are bytes, `hi` into (E)DX.
abbrev set_pair : ℕ → ℤ → Exec (Unit {0})
set_pair sz res = do
  set_reg 0 (pair_size sz) (pos (low_half sz res))
  if sz == 1 then pure tt else set_reg 2 (pair_size sz) (pos (high_half sz res))

unfoldable pub mul : Bool → Exec Bool
mul bits8 = do
  sz ← operand_width bits8
  old_eip ← gets (λ vm. vm.eip)
  (rm, r) ← process_modrm
  if not (r == 4) then (do set_eip old_eip; pure false) else do
    a ← get_place rm sz
    b ← get_reg 0 sz
    set_flags (set_of_cf (not (high_half sz (pos (a * b)) == 0)))
    set_pair sz (pos (a * b))
    pure true

-- AX, DX:AX or EDX:EAX.
abbrev pub dividend_of : ℕ → Exec ℕ
dividend_of sz =
    if sz == 1
    then get_reg 0 2
    else do high ← get_reg 2 sz; low ← get_reg 0 sz; pure (high * modulus sz + low)

abbrev pub divisor_of : Bool → Place → ℕ → Exec ℤ
divisor_of idiv rm sz =
    if idiv then get_place_signed rm sz else (do d ← get_place rm sz; pure (pos d))

-- The quotient into AL, AX or EAX and the remainder into AH, DX or EDX.
unfoldable pub divide : ℕ → ℤ → ℤ → Exec Bool
divide sz dividend divisor =
    let quot = floor_div dividend divisor in
    let rem = floor_mod dividend divisor in
    if ltb_ℤ (pos (maxval sz)) quot
    then raise runtime_error
    else do set_reg 0 sz quot; (if sz == 1 then set_reg 4 sz rem else set_reg 2 sz rem); pure true

unfoldable pub div : Bool → ℕ → Exec Bool
unfolding divide sign_extend
div bits8 wanted = do
  e ← gets (λ vm. vm.eip)
  modrm ← lift (λ vm. Memory.get_eip vm.mem e 1)
  if not (reg_field modrm == wanted) then pure false else do
    let idiv = wanted == 7
    sz ← operand_width bits8
    (rm, r) ← process_modrm
    divisor ← divisor_of idiv rm sz
    if eqb_ℤ divisor (pos 0) then raise zero_division_error else do
      dividend ← dividend_of sz
      divide sz (if idiv then sign_extend (pos dividend) (sz * 2) else pos dividend) divisor

-- `set_flags` of the one-operand form: the product shifted down by its width, read as signed.
unfoldable pub imul_overflow : ℕ → ℤ → Bool
unfolding sign_extend
imul_overflow sz product = not (eqb_ℤ (sign_extend (product /ℤ modulus sz) sz) product)

unfoldable pub imul_rm : Bool → Exec Bool
unfolding imul_overflow
imul_rm bits8 = do
  sz ← operand_width bits8
  old_eip ← gets (λ vm. vm.eip)
  (rm, r) ← process_modrm
  if not (r == 5) then (do set_eip old_eip; pure false) else do
    src ← get_place_signed rm sz
    dst ← get_reg_signed 0 sz
    set_pair sz (src *ℤ dst)
    set_flags (set_of_cf (imul_overflow sz (src *ℤ dst)))
    pure true

unfoldable pub imul_r_rm : Exec Bool
unfolding sign_extend
imul_r_rm = do
  sz ← gets (λ vm. vm.operand_size)
  (rm, r) ← process_modrm
  src ← get_place_signed rm sz
  dst ← get_reg_signed r sz
  let product = src *ℤ dst
  let dest = product %ℤ modulus sz
  set_reg r sz (pos dest)
  set_flags (set_of_cf (not (eqb_ℤ (sign_extend (pos (dest / modulus sz)) sz) product)))
  pure true

-- `set_flags` of the three-operand form.
unfoldable pub imul_truncates : ℕ → ℤ → Bool
unfolding sign_extend
imul_truncates sz product = not (eqb_ℤ (sign_extend (pos (product %ℤ modulus sz)) sz) product)

unfoldable pub imul_r_rm_imm : Bool → Exec Bool
unfolding imul_truncates
imul_r_rm_imm bits8_imm = do
  sz ← gets (λ vm. vm.operand_size)
  imm_sz ← operand_width bits8_imm
  (rm, r) ← process_modrm
  src1 ← fetch_signed imm_sz
  src2 ← get_place_signed rm sz
  let product = src1 *ℤ src2
  set_flags (set_of_cf (imul_truncates sz product))
  set_reg r sz (pos (product %ℤ modulus sz))
  pure true
