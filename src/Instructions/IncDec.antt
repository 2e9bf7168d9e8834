-- ===== src/Instructions/IncDec.antt =====
-- VM/instructions/math.py, `INCDEC`.
pub mod Arithmetic
use py_vm.Prelude.{
  ℕ, ◌+◌, ◌-◌, ◌%◌, Bool, true, false, not, ◌&&◌, ltb, ◌==◌, if◌then◌else◌, bit, pos,
}
use py_vm.Misc.{maxval, modulus, sign_bit, parity}
use py_vm.Machine.{Exec, pure, ◌>>=◌, ◌>>◌, gets, lift, get_reg, set_reg, set_flags, operand_width}
use py_vm.ModRm.{get_place, set_place, reg_field, process_modrm}
use py_vm.Memory
use py_vm.Registers.{Flags}

-- `c = a + (b if not dec else MAXVALS[sz] - 1 + b)` with `b = 1`
abbrev pub raw_step : Bool → ℕ → ℕ → ℕ
raw_step dec sz a = a + (if dec then maxval sz - 1 + 1 else 1)

-- The assignments to the flags; CF keeps its value.
unfoldable pub incdec_flags : Bool → ℕ → ℕ → Flags → Flags
incdec_flags dec sz a f =
    let c = raw_step dec sz a in
    let sign_a = sign_bit sz a in
    let sign_b = sign_bit sz 1 in
    let sign_c = sign_bit sz c in
    record f {
      of =
          (if dec
            then bit (not (sign_a == sign_b) && not (sign_a == sign_c))
            else bit ((sign_a == sign_b) && not (sign_a == sign_c)));
      af = (if dec then bit (ltb (a % 256) 1) else bit (ltb (maxval 1) (a % 256 + 1)));
      sf = sign_c;
      zf = bit (c % modulus sz == 0);
      pf = parity (c % modulus sz);
    }

unfoldable pub incdec_result : Bool → ℕ → ℕ → ℕ
incdec_result dec sz a = raw_step dec sz a % modulus sz

unfoldable pub incdec_rm : Bool → ℕ → Exec Bool
unfolding incdec_flags incdec_result
incdec_rm bits8 wanted = do
  e ← gets (λ vm. vm.eip)
  modrm ← lift (λ vm. Memory.get_eip vm.mem e 1)
  if not (reg_field modrm == wanted) then pure false else do
    let dec = not (wanted == 0)
    sz ← operand_width bits8
    (rm, r) ← process_modrm
    a ← get_place rm sz
    set_flags (incdec_flags dec sz a)
    set_place rm sz (pos (incdec_result dec sz a))
    pure true

unfoldable pub incdec_r : Bool → Bool → Exec Bool
unfolding incdec_flags incdec_result
incdec_r bits8 dec = do
  sz ← operand_width bits8
  loc ← gets (λ vm. vm.opcode % 8)
  a ← get_reg loc sz
  set_flags (incdec_flags dec sz a)
  set_reg loc sz (pos (incdec_result dec sz a))
  pure true
