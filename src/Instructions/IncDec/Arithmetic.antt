-- ===== src/Instructions/IncDec/Arithmetic.antt =====
-- VM/instructions/math.py, `INCDEC`: the result and the flags; CF is kept.
use py_vm.Prelude.{
  ℕ, ◌+◌, ◌-◌, ◌<◌, ◌≡◌, refl, Bool, not, arith, leb, ◌==◌, if◌then◌else◌, bit, ℤ, pos, negsuc,
  ◌+ℤ◌, eqb_ℤ,
}
use py_vm.Misc.{maxval, modulus, half, as_signed}
use py_vm.Misc.Laws.{IsSize, parity-eq-ones}
use py_vm.Instructions.IncDec.{incdec_flags, incdec_result}
use py_vm.Instructions.AddSub.Arithmetic.{IsArithmetic}
use py_vm.Registers.{Flags}

-- The exact signed value.
abbrev exact_step : Bool → ℕ → ℕ → ℤ
exact_step dec sz a = as_signed sz a +ℤ (if dec then negsuc 0 else pos 1)

module _ (dec : Bool) (sz a : ℕ) (f : Flags) (h : IsSize sz) (ha : a < modulus sz) where
  step_value : incdec_result dec sz a ≡ (
      if dec then (if a == 0 then maxval sz else a - 1) else (if a == maxval sz then 0 else a + 1))
  unfolding incdec_result
  step_value = ground arith

  step_overflow :
      (incdec_flags dec sz a f).of
      ≡ bit (not (eqb_ℤ (as_signed sz (incdec_result dec sz a)) (exact_step dec sz a)))
  unfolding incdec_flags incdec_result
  step_overflow = ground arith

  step_sign : (incdec_flags dec sz a f).sf ≡ bit (leb (half sz) (incdec_result dec sz a))
  unfolding incdec_flags incdec_result
  step_sign = ground arith

  step_range : incdec_result dec sz a < modulus sz
  unfolding incdec_result
  step_range = ground arith

-- INC and DEC of a word of any operand size: the result is the neighbour, with a wrap at the end,
-- CF keeps its value, OF is set exactly when the signed value leaves the range, and SF, ZF and PF
-- describe the result.
pub incdec-IsArithmetic :
    (dec : Bool) (sz a : ℕ) (f : Flags)
    → IsSize sz
    → a < modulus sz
    → IsArithmetic sz
        (incdec_result dec sz a)
        f.cf
        (as_signed sz a +ℤ (if dec then negsuc 0 else pos 1))
        (incdec_flags dec sz a f)
      × (incdec_result dec sz a ≡ (
          if dec
          then (if a == 0 then maxval sz else a - 1)
          else (if a == maxval sz then 0 else a + 1)))
unfolding incdec_flags
incdec-IsArithmetic dec sz a f h ha = (
  record {
    in_range = step_range dec sz a f h ha;
    carry_flag = refl;
    overflow_flag = step_overflow dec sz a f h ha;
    sign_flag = step_sign dec sz a f h ha;
    zero_flag = unfold incdec_result in refl;
    parity_flag = unfold incdec_result in parity-eq-ones _;
  },
  step_value dec sz a f h ha,
)
