-- ===== src/Dispatch/Declines.antt =====
-- The implementations of VM/instructions that share an opcode tell by the REG field of the ModRM byte
-- whether an instruction is theirs. Those that read it first leave everything as it was; those that
-- decode the operands put the instruction pointer back.
use py_vm.Prelude.{ℕ, ◌≡◌, Bool, true, false, ◌||◌, arith, ◌==◌}
use py_vm.Outcome.{ok}
use py_vm.Machine.{Machine, done}
use py_vm.ModRm.{Place, reg_field, process_modrm}
use py_vm.Instructions.AddSub.{addsub_rm_imm}
use py_vm.Instructions.IncDec.{incdec_rm}
use py_vm.Instructions.MulDiv.{mul, div, imul_rm}
use py_vm.Instructions.Jump.{jump_rm}
use py_vm.Instructions.Call.{call_rm}
use py_vm.Instructions.Transfer.{push_rm}
use py_vm.Instructions.Bitwise.{BitOp, logic_rm_imm, neg_not_rm}
use py_vm.Instructions.Shift.{Count, ShiftOp, shift_reg, shift}
use py_vm.Dispatch.Exclusive.{took}
use py_vm.Memory

module _ (vm : Machine) (b wanted : ℕ) (read : Memory.get_eip vm.mem vm.eip 1 ≡ ok b) where
  pub addsub_declines :
      (p q : Bool) → (reg_field b == wanted) ≡ false → addsub_rm_imm p q wanted vm ≡ done false vm
  unfolding addsub_rm_imm
  addsub_declines p q h = ground arith

  pub logic_declines :
      (p q t : Bool) (op : BitOp)
      → (reg_field b == wanted) ≡ false
      → logic_rm_imm p q op t wanted vm ≡ done false vm
  unfolding logic_rm_imm
  logic_declines p q t op h = ground arith

  pub neg_declines :
      (p : Bool) → (reg_field b == wanted) ≡ false → neg_not_rm p wanted vm ≡ done false vm
  unfolding neg_not_rm
  neg_declines p h = ground arith

  pub div_declines : (p : Bool) → (reg_field b == wanted) ≡ false → div p wanted vm ≡ done false vm
  unfolding div
  div_declines p h = ground arith

  pub incdec_declines :
      (p : Bool) → (reg_field b == wanted) ≡ false → incdec_rm p wanted vm ≡ done false vm
  unfolding incdec_rm
  incdec_declines p h = ground arith

  pub addsub_takes :
      (p q : Bool) → (reg_field b == wanted) ≡ true → took (addsub_rm_imm p q wanted vm) ≡ true
  unfolding addsub_rm_imm
  addsub_takes p q h = ground arith

  pub logic_takes :
      (p q t : Bool) (op : BitOp)
      → (reg_field b == wanted) ≡ true
      → took (logic_rm_imm p q op t wanted vm) ≡ true
  unfolding logic_rm_imm
  logic_takes p q t op h = ground arith

  pub neg_takes : (p : Bool) → (reg_field b == wanted) ≡ true → took (neg_not_rm p wanted vm) ≡ true
  unfolding neg_not_rm
  neg_takes p h = ground arith

  pub div_takes : (p : Bool) → (reg_field b == wanted) ≡ true → took (div p wanted vm) ≡ true
  unfolding div
  div_takes p h = ground arith

  pub incdec_takes :
      (p : Bool) → (reg_field b == wanted) ≡ true → took (incdec_rm p wanted vm) ≡ true
  unfolding incdec_rm
  incdec_takes p h = ground arith

-- Those that decode the operands first, and put the instruction pointer back.
module _ (vm vm' : Machine) (r : ℕ) (place : Place)
    (decoded : process_modrm vm ≡ done (place, r) vm')
    (restored : record vm' { eip = vm.eip } ≡ vm) where
  pub mul_declines : (p : Bool) → (r == 4) ≡ false → mul p vm ≡ done false vm
  unfolding mul
  mul_declines p h = ground (arith)

  pub imul_declines : (p : Bool) → (r == 5) ≡ false → imul_rm p vm ≡ done false vm
  unfolding imul_rm
  imul_declines p h = ground (arith)

  pub push_declines : (r == 6) ≡ false → push_rm vm ≡ done false vm
  unfolding push_rm
  push_declines h = ground (arith)

  pub call_declines : (r == 2) ≡ false → call_rm vm ≡ done false vm
  unfolding call_rm
  call_declines h = ground (arith)

  pub jump_declines : (r == 4) ≡ false → (r == 5) ≡ false → jump_rm vm ≡ done false vm
  unfolding jump_rm
  jump_declines h k = ground (arith)

  pub shift_declines :
      (op : ShiftOp) (c : Count) (p : Bool)
      → (r == shift_reg op) ≡ false
      → shift op c p vm ≡ done false vm
  unfolding shift
  shift_declines op c p h = ground (arith)

  pub mul_takes : (p : Bool) → (r == 4) ≡ true → took (mul p vm) ≡ true
  unfolding mul
  mul_takes p h = ground arith

  pub imul_takes : (p : Bool) → (r == 5) ≡ true → took (imul_rm p vm) ≡ true
  unfolding imul_rm
  imul_takes p h = ground arith

  pub push_takes : (r == 6) ≡ true → took (push_rm vm) ≡ true
  unfolding push_rm
  push_takes h = ground arith

  pub call_takes : (r == 2) ≡ true → took (call_rm vm) ≡ true
  unfolding call_rm
  call_takes h = ground arith

  pub jump_takes : (r == 4) || (r == 5) ≡ true → took (jump_rm vm) ≡ true
  unfolding jump_rm
  jump_takes h = ground arith

  pub shift_takes :
      (op : ShiftOp) (c : Count) (p : Bool)
      → (r == shift_reg op) ≡ true
      → took (shift op c p vm) ≡ true
  unfolding shift
  shift_takes op c p h = ground arith
