-- ===== src/Instructions/Bitwise.antt =====
-- VM/instructions/bitwise.py, `BITWISE`, `NEGNOT` and `BSWAP`.
pub mod Swap
use py_vm.Prelude.{
  ℕ, ◌+◌, ◌-◌, ◌*◌, ◌/◌, ◌%◌, Bool, true, false, not, ◌==◌, if◌then◌else◌, bit, ℤ, pos, ◌%ℤ◌, ◌/ℤ◌,
  and_ℤ, or_ℤ, xor_ℤ,
}
use py_vm.Misc.{maxval, modulus, half, sign_bit, is_signed_out_of_range, parity}
use py_vm.Machine.{
  Exec, pure, ◌>>=◌, ◌>>◌, gets, lift, get_reg, set_reg, set_flags, fetch_data, fetch_data_signed,
  operand_width,
}
use py_vm.ModRm.{get_place, set_place, reg_field, process_modrm}
use py_vm.Memory
use py_vm.Registers.{Flags}

-- `operator.and_`, `operator.or_` and `operator.xor`.
pub data BitOp : Type 0 where
  op_and op_or op_xor : BitOp

unfoldable pub apply_op : BitOp → ℤ → ℤ → ℤ
apply_op op_and a b = and_ℤ a b
apply_op op_or a b = or_ℤ a b
apply_op op_xor a b = xor_ℤ a b

-- `vm.reg.eflags.OF = vm.reg.eflags.CF = 0`
abbrev pub clear_of_cf : Flags → Flags
clear_of_cf f = record f { of = 0; cf = 0 }

-- SF, ZF and PF of a result before it is masked.
unfoldable pub logic_flags : ℕ → ℤ → Flags → Flags
logic_flags sz c f = record f {
  sf = (c /ℤ half sz) %ℤ 2;
  zf = bit (c %ℤ modulus sz == 0);
  pf = parity (c %ℤ modulus sz);
}

unfoldable pub logic_r_imm : Bool → BitOp → Bool → Exec Bool
unfolding logic_flags apply_op
logic_r_imm bits8 op test = do
  sz ← operand_width bits8
  b ← fetch_data sz
  a ← get_reg 0 sz
  set_flags clear_of_cf
  let c = apply_op op (pos a) (pos b)
  set_flags (logic_flags sz c)
  if test then pure true else do set_reg 0 sz (pos (c %ℤ modulus sz)); pure true

unfoldable pub logic_rm_imm : Bool → Bool → BitOp → Bool → ℕ → Exec Bool
unfolding logic_flags apply_op
logic_rm_imm bits8 bits8_imm op test wanted = do
  e ← gets (λ vm. vm.eip)
  modrm ← lift (λ vm. Memory.get_eip vm.mem e 1)
  if not (reg_field modrm == wanted) then pure false else do
    sz ← operand_width bits8
    imm_sz ← operand_width bits8_imm
    (rm, r) ← process_modrm
    b ← fetch_data_signed imm_sz
    set_flags clear_of_cf
    a ← get_place rm sz
    let c = apply_op op (pos a) b
    set_flags (logic_flags sz c)
    if test then pure true else do set_place rm sz (pos (c %ℤ modulus sz)); pure true

unfoldable pub logic_rm_r : Bool → BitOp → Bool → Exec Bool
unfolding logic_flags apply_op
logic_rm_r bits8 op test = do
  sz ← operand_width bits8
  (rm, r) ← process_modrm
  set_flags clear_of_cf
  a ← get_place rm sz
  b ← get_reg r sz
  let c = apply_op op (pos a) (pos b)
  set_flags (logic_flags sz c)
  if test then pure true else do set_place rm sz (pos (c %ℤ modulus sz)); pure true

unfoldable pub logic_r_rm : Bool → BitOp → Bool → Exec Bool
unfolding logic_flags apply_op
logic_r_rm bits8 op test = do
  sz ← operand_width bits8
  (rm, r) ← process_modrm
  set_flags clear_of_cf
  a ← get_place rm sz
  b ← get_reg r sz
  let c = apply_op op (pos a) (pos b)
  set_flags (logic_flags sz c)
  if test then pure true else do set_reg r sz (pos (c %ℤ modulus sz)); pure true

unfoldable pub operation_not : ℕ → ℕ → ℕ
operation_not a off = maxval off - a

unfoldable pub operation_neg : ℕ → ℕ → ℕ
unfolding operation_not
operation_neg a off = operation_not a off + 1

-- The flags that NEG sets, from the result before it is masked.
unfoldable pub neg_flags : ℕ → ℕ → ℕ → Bool → Flags → Flags
neg_flags sz a b in_range f = record f {
  cf = bit (not (a == 0));
  sf = sign_bit sz b;
  zf = bit (b == 0);
  pf = parity b;
  of = bit in_range;
}

unfoldable pub neg_not_rm : Bool → ℕ → Exec Bool
unfolding neg_flags operation_neg operation_not is_signed_out_of_range
neg_not_rm bits8 wanted = do
  e ← gets (λ vm. vm.eip)
  modrm ← lift (λ vm. Memory.get_eip vm.mem e 1)
  if not (reg_field modrm == wanted) then pure false else do
    sz ← operand_width bits8
    (rm, r) ← process_modrm
    a ← get_place rm sz
    if wanted == 3
        then (do
          in_range ← lift (λ _. is_signed_out_of_range (pos (operation_neg a sz)) sz)
          set_flags (neg_flags sz a (operation_neg a sz) in_range)
          set_place rm sz (pos (operation_neg a sz % modulus sz))
          pure true)
        else (do set_place rm sz (pos (operation_not a sz % modulus sz)); pure true)

-- `int.from_bytes(src.to_bytes(4, 'big'), 'little')`
unfoldable pub reverse_bytes : ℕ → ℕ
reverse_bytes src =
    src / 16777216 % 256
    + 256 * (src / 65536 % 256)
    + 65536 * (src / 256 % 256)
    + 16777216 * (src % 256)

unfoldable pub bswap : Exec Bool
unfolding reverse_bytes
bswap = do
  r ← gets (λ vm. vm.opcode % 8)
  src ← get_reg r 4
  set_reg r 4 (pos (reverse_bytes src))
  pure true
