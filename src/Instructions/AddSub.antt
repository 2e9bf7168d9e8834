-- ===== src/Instructions/AddSub.antt =====
-- VM/instructions/math.py, `ADDSUB`: ADD, ADC, SUB, SBB and CMP in their four encodings.
pub mod Arithmetic
pub mod Chain
pub mod Execution
use py_vm.Prelude.{
  ℕ, ◌+◌, ◌-◌, ◌%◌, Bool, true, false, not, ◌&&◌, ◌||◌, ltb, ◌==◌, if◌then◌else◌, bit, pos, ◌%ℤ◌,
}
use py_vm.Misc.{maxval, modulus, sign_bit, parity}
use py_vm.Machine.{
  done, Exec, pure, ◌>>=◌, ◌>>◌, gets, lift, get_reg, set_reg, set_flags, fetch_data,
  fetch_data_signed, operand_width,
}
use py_vm.ModRm.{get_place, set_place, reg_field, process_modrm}
use py_vm.Memory
use py_vm.Registers.{Flags}

-- `c = a + (b if not sub else MAXVALS[sz] + 1 - b)`; `b` is at most MAXVALS[sz] + 1, a word and the
-- carry.
abbrev pub raw_result : Bool → ℕ → ℕ → ℕ → ℕ
raw_result sub sz a b = a + (if sub then maxval sz + 1 - b else b)

-- The assignments to the flags; the four handlers have the same.
unfoldable pub addsub_flags : Bool → ℕ → ℕ → ℕ → Flags → Flags
addsub_flags sub sz a b f =
    let c = raw_result sub sz a b in
    let sign_a = sign_bit sz a in
    let sign_b = sign_bit sz b in
    let sign_c = sign_bit sz c in
    record f {
      of =
          (if sub
            then bit (not (sign_a == sign_b) && not (sign_a == sign_c))
            else bit ((sign_a == sign_b) && not (sign_a == sign_c)));
      cf = (if sub then bit (ltb a b) else bit (ltb (maxval sz) c));
      af =
          (if sub then bit (ltb (a % 256) (b % 256)) else bit (ltb (maxval 1) (a % 256 + b % 256)));
      sf = sign_c;
      zf = bit (c % modulus sz == 0);
      pf = parity (c % modulus sz);
    }

-- `c &= MAXVALS[sz]`
unfoldable pub addsub_result : Bool → ℕ → ℕ → ℕ → ℕ
addsub_result sub sz a b = raw_result sub sz a b % modulus sz

-- `if carry: b += vm.reg.eflags.CF`
abbrev pub with_carry : Bool → ℕ → Exec ℕ
with_carry carry b vm = done (if carry then b + vm.flags.cf else b) vm

-- The operations of `ADDSUB_operation`, by the REG field that selects them.
abbrev pub is_sub : ℕ → Bool
is_sub rg = not (rg == 0 || rg == 2)

abbrev pub takes_carry : ℕ → Bool
takes_carry rg = rg == 2 || rg == 3

unfoldable pub addsub_r_imm : Bool → Bool → Bool → Bool → Exec Bool
unfolding addsub_flags addsub_result
addsub_r_imm bits8 sub cmp carry = do
  sz ← operand_width bits8
  imm ← fetch_data sz
  b ← with_carry carry imm
  a ← get_reg 0 sz
  set_flags (addsub_flags sub sz a b)
  if cmp then pure true else do set_reg 0 sz (pos (addsub_result sub sz a b)); pure true

unfoldable pub addsub_rm_imm : Bool → Bool → ℕ → Exec Bool
unfolding addsub_flags addsub_result
addsub_rm_imm bits8_op bits8_imm wanted = do
  e ← gets (λ vm. vm.eip)
  modrm ← lift (λ vm. Memory.get_eip vm.mem e 1)
  if not (reg_field modrm == wanted) then pure false else do
    sz ← operand_width bits8_op
    imm_sz ← operand_width bits8_imm
    (rm, r) ← process_modrm
    imm ← fetch_data_signed imm_sz
    b ← with_carry (takes_carry wanted) (imm %ℤ modulus sz)
    a ← get_place rm sz
    set_flags (addsub_flags (is_sub wanted) sz a b)
    if wanted == 7
        then pure true
        else do set_place rm sz (pos (addsub_result (is_sub wanted) sz a b)); pure true

unfoldable pub addsub_rm_r : Bool → Bool → Bool → Bool → Exec Bool
unfolding addsub_flags addsub_result
addsub_rm_r bits8 sub cmp carry = do
  sz ← operand_width bits8
  (rm, r) ← process_modrm
  a ← get_place rm sz
  reg_b ← get_reg r sz
  b ← with_carry carry reg_b
  set_flags (addsub_flags sub sz a b)
  if cmp then pure true else do set_place rm sz (pos (addsub_result sub sz a b)); pure true

unfoldable pub addsub_r_rm : Bool → Bool → Bool → Bool → Exec Bool
unfolding addsub_flags addsub_result
addsub_r_rm bits8 sub cmp carry = do
  sz ← operand_width bits8
  (rm, r) ← process_modrm
  place_b ← get_place rm sz
  a ← get_reg r sz
  b ← with_carry carry place_b
  set_flags (addsub_flags sub sz a b)
  if cmp then pure true else do set_reg r sz (pos (addsub_result sub sz a b)); pure true
