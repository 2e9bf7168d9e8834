-- ===== src/Safety/Arithmetic.antt =====
-- VM/instructions/math.py and bitwise.py: every handler changes the RAM only by checked writes.
use py_vm.Prelude.{ℕ, Bool, ℤ}
use py_vm.ModRm.{Place}
use py_vm.Instructions.AddSub.{with_carry, addsub_r_imm, addsub_rm_imm, addsub_rm_r, addsub_r_rm}
use py_vm.Instructions.IncDec.{incdec_rm, incdec_r}
use py_vm.Instructions.MulDiv.{mul, divide, div, imul_rm, imul_r_rm, imul_r_rm_imm}
use py_vm.Instructions.Bitwise.{
  BitOp, logic_r_imm, logic_rm_imm, logic_rm_r, logic_r_rm, neg_not_rm, bswap,
}
use py_vm.Instructions.Shift.{
  Count, c_one, c_cl, c_imm8, ShiftOp, shl, shr, sar, shift_count, shift_operand, shift, shiftd,
}
use py_vm.Safety.{IsConfined, IsConfined-gets}
use py_vm.Safety.Operands.{handler_rules}

with_carry-IsConfined : (c : Bool) (b : ℕ) → IsConfined (with_carry c b)
with_carry-IsConfined c b = IsConfined-gets _

shift_count-IsConfined : (c : Count) → IsConfined (shift_count c)
shift_count-IsConfined c_one = search handler_rules
shift_count-IsConfined c_cl = search handler_rules
shift_count-IsConfined c_imm8 = search handler_rules

shift_operand-IsConfined : (op : ShiftOp) (p : Place) (sz : ℕ) → IsConfined (shift_operand op p sz)
shift_operand-IsConfined sar p sz = search handler_rules
shift_operand-IsConfined shl p sz = search handler_rules
shift_operand-IsConfined shr p sz = search handler_rules

ruleset math_rules =
    (handler_rules, with_carry-IsConfined, shift_count-IsConfined, shift_operand-IsConfined)

pub addsub_r_imm-IsConfined : (w s c a : Bool) → IsConfined (addsub_r_imm w s c a)
unfolding addsub_r_imm
addsub_r_imm-IsConfined w s c a = search math_rules depth 60 fits 6000

pub addsub_rm_imm-IsConfined : (w i : Bool) (k : ℕ) → IsConfined (addsub_rm_imm w i k)
unfolding addsub_rm_imm
addsub_rm_imm-IsConfined w i k = search math_rules depth 60 fits 6000

pub addsub_rm_r-IsConfined : (w s c a : Bool) → IsConfined (addsub_rm_r w s c a)
unfolding addsub_rm_r
addsub_rm_r-IsConfined w s c a = search math_rules depth 60 fits 6000

pub addsub_r_rm-IsConfined : (w s c a : Bool) → IsConfined (addsub_r_rm w s c a)
unfolding addsub_r_rm
addsub_r_rm-IsConfined w s c a = search math_rules depth 60 fits 6000

pub incdec_rm-IsConfined : (w : Bool) (k : ℕ) → IsConfined (incdec_rm w k)
unfolding incdec_rm
incdec_rm-IsConfined w k = search math_rules depth 60 fits 6000

pub incdec_r-IsConfined : (w d : Bool) → IsConfined (incdec_r w d)
unfolding incdec_r
incdec_r-IsConfined w d = search math_rules depth 60 fits 6000

pub mul-IsConfined : (w : Bool) → IsConfined (mul w)
unfolding mul
mul-IsConfined w = search math_rules depth 60 fits 6000

pub divide-IsConfined : (sz : ℕ) (n d : ℤ) → IsConfined (divide sz n d)
unfolding divide
divide-IsConfined sz n d = search math_rules depth 60 fits 6000

pub div-IsConfined : (w : Bool) (k : ℕ) → IsConfined (div w k)
unfolding div
div-IsConfined w k = search (math_rules, divide-IsConfined) depth 60 fits 6000

pub imul_rm-IsConfined : (w : Bool) → IsConfined (imul_rm w)
unfolding imul_rm
imul_rm-IsConfined w = search math_rules depth 60 fits 6000

pub imul_r_rm-IsConfined : IsConfined imul_r_rm
unfolding imul_r_rm
imul_r_rm-IsConfined = search math_rules depth 60 fits 6000

pub imul_r_rm_imm-IsConfined : (i : Bool) → IsConfined (imul_r_rm_imm i)
unfolding imul_r_rm_imm
imul_r_rm_imm-IsConfined i = search math_rules depth 60 fits 6000

pub logic_r_imm-IsConfined : (w : Bool) (op : BitOp) (t : Bool) → IsConfined (logic_r_imm w op t)
unfolding logic_r_imm
logic_r_imm-IsConfined w op t = search math_rules depth 60 fits 6000

pub logic_rm_imm-IsConfined :
    (w i : Bool) (op : BitOp) (t : Bool) (k : ℕ) → IsConfined (logic_rm_imm w i op t k)
unfolding logic_rm_imm
logic_rm_imm-IsConfined w i op t k = search math_rules depth 60 fits 6000

pub logic_rm_r-IsConfined : (w : Bool) (op : BitOp) (t : Bool) → IsConfined (logic_rm_r w op t)
unfolding logic_rm_r
logic_rm_r-IsConfined w op t = search math_rules depth 60 fits 6000

pub logic_r_rm-IsConfined : (w : Bool) (op : BitOp) (t : Bool) → IsConfined (logic_r_rm w op t)
unfolding logic_r_rm
logic_r_rm-IsConfined w op t = search math_rules depth 60 fits 6000

pub neg_not_rm-IsConfined : (w : Bool) (k : ℕ) → IsConfined (neg_not_rm w k)
unfolding neg_not_rm
neg_not_rm-IsConfined w k = search math_rules depth 60 fits 6000

pub bswap-IsConfined : IsConfined bswap
unfolding bswap
bswap-IsConfined = search math_rules depth 60 fits 6000

pub shift-IsConfined : (op : ShiftOp) (c : Count) (w : Bool) → IsConfined (shift op c w)
unfolding shift
shift-IsConfined op c w = search math_rules depth 60 fits 6000

pub shiftd-IsConfined : (l i : Bool) → IsConfined (shiftd l i)
unfolding shiftd
shiftd-IsConfined l i = search math_rules depth 60 fits 6000

pub ruleset math_set = (
  addsub_r_imm-IsConfined, addsub_rm_imm-IsConfined, addsub_rm_r-IsConfined, addsub_r_rm-IsConfined,
  incdec_rm-IsConfined, incdec_r-IsConfined, mul-IsConfined, div-IsConfined, imul_rm-IsConfined,
  imul_r_rm-IsConfined, imul_r_rm_imm-IsConfined, logic_r_imm-IsConfined, logic_rm_imm-IsConfined,
  logic_rm_r-IsConfined, logic_r_rm-IsConfined, neg_not_rm-IsConfined, bswap-IsConfined,
  shift-IsConfined, shiftd-IsConfined,
)
