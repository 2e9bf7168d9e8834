-- ===== src/Instructions/AddSub/Arithmetic.antt =====
-- VM/instructions/math.py, `ADDSUB`: the result and the flags against unbounded arithmetic.
use py_vm.Prelude.{
  ℕ, ◌+◌, ◌*◌, ◌%◌, ◌≤◌, ◌<◌, ◌≡◌, refl, sym, Bool, true, false, not, arith, ltb, leb, ◌==◌, bit, ℤ,
  ◌+ℤ◌, neg_ℤ, eqb_ℤ,
}
use py_vm.Misc.{modulus, half, as_signed}
use py_vm.Misc.Laws.{IsSize, ones, parity-eq-ones}
use py_vm.Instructions.AddSub.{addsub_flags, addsub_result}
use py_vm.Registers.{Flags}

-- A word `r` and the flags of an operation with the exact signed value `exact` and the carry or
-- borrow `carry`.
pub record IsArithmetic (sz r carry : ℕ) (exact : ℤ) (f : Flags) : Type 0 where
  pub in_range : r < modulus sz
  pub carry_flag : f.cf ≡ carry
  pub overflow_flag : f.of ≡ bit (not (eqb_ℤ (as_signed sz r) exact))
  pub sign_flag : f.sf ≡ bit (leb (half sz) r)
  pub zero_flag : f.zf ≡ bit (r == 0)
  pub parity_flag : f.pf ≡ ones 8 (r % 256) % 2

module _ (sz a b : ℕ) (f : Flags) (h : IsSize sz) (ha : a < modulus sz) (hb : b < modulus sz) where
  add_carry : bit (leb (modulus sz) (a + b)) ≡ (addsub_flags false sz a b f).cf
  unfolding addsub_flags
  add_carry = ground arith

  add_overflow :
      (addsub_flags false sz a b f).of
      ≡ bit (
          not
            (eqb_ℤ (as_signed sz (addsub_result false sz a b)) (as_signed sz a +ℤ as_signed sz b)))
  unfolding addsub_flags addsub_result
  add_overflow = ground arith

  add_sign : (addsub_flags false sz a b f).sf ≡ bit (leb (half sz) (addsub_result false sz a b))
  unfolding addsub_flags addsub_result
  add_sign = ground arith

  sub_overflow :
      (addsub_flags true sz a b f).of
      ≡ bit (
          not (
            eqb_ℤ
              (as_signed sz (addsub_result true sz a b))
              (as_signed sz a +ℤ neg_ℤ (as_signed sz b))))
  unfolding addsub_flags addsub_result
  sub_overflow = ground arith

  sub_sign : (addsub_flags true sz a b f).sf ≡ bit (leb (half sz) (addsub_result true sz a b))
  unfolding addsub_flags addsub_result
  sub_sign = ground arith

  result_range : (sub : Bool) → addsub_result sub sz a b < modulus sz
  unfolding addsub_result
  result_range sub = ground arith

pub add_sum :
    (sz a b : ℕ) (f : Flags)
    → IsSize sz
    → a < modulus sz
    → b ≤ modulus sz
    → addsub_result false sz a b + modulus sz * (addsub_flags false sz a b f).cf ≡ a + b
unfolding addsub_flags addsub_result
add_sum sz a b f h ha hb = ground arith

pub sub_difference :
    (sz a b : ℕ) (f : Flags)
    → IsSize sz
    → a < modulus sz
    → b ≤ modulus sz
    → addsub_result true sz a b + b ≡ a + modulus sz * (addsub_flags true sz a b f).cf
unfolding addsub_flags addsub_result
sub_difference sz a b f h ha hb = ground arith

flags_zero :
    (sub : Bool) (sz a b : ℕ) (f : Flags)
    → (addsub_flags sub sz a b f).zf ≡ bit (addsub_result sub sz a b == 0)
unfolding addsub_flags addsub_result
flags_zero sub sz a b f = refl

flags_parity :
    (sub : Bool) (sz a b : ℕ) (f : Flags)
    → (addsub_flags sub sz a b f).pf ≡ ones 8 (addsub_result sub sz a b % 256) % 2
unfolding addsub_flags addsub_result
flags_parity sub sz a b f = parity-eq-ones _

-- ADD of two words of any operand size: the result and the carry make up the sum, the overflow flag
-- is set exactly when the signed sum does not fit, and SF, ZF and PF describe the result (PF is 1 for
-- an odd number of ones in the low byte).
pub add-IsArithmetic :
    (sz a b : ℕ) (f : Flags)
    → IsSize sz
    → a < modulus sz
    → b < modulus sz
    → IsArithmetic sz
        (addsub_result false sz a b)
        (bit (leb (modulus sz) (a + b)))
        (as_signed sz a +ℤ as_signed sz b)
        (addsub_flags false sz a b f)
      × (addsub_result false sz a b + modulus sz * (addsub_flags false sz a b f).cf ≡ a + b)
add-IsArithmetic sz a b f h ha hb = (
  record {
    in_range = result_range sz a b f h ha hb false;
    carry_flag = sym (add_carry sz a b f h ha hb);
    overflow_flag = add_overflow sz a b f h ha hb;
    sign_flag = add_sign sz a b f h ha hb;
    zero_flag = flags_zero false sz a b f;
    parity_flag = flags_parity false sz a b f;
  },
  add_sum sz a b f h ha (omega arith),
)

-- SUB and CMP of two words of any operand size: the result is the difference plus the borrow, CF is
-- the borrow `a < b`, the overflow flag is set exactly when the signed difference does not fit, and
-- SF, ZF and PF describe the result.
pub sub-IsArithmetic :
    (sz a b : ℕ) (f : Flags)
    → IsSize sz
    → a < modulus sz
    → b < modulus sz
    → IsArithmetic sz
        (addsub_result true sz a b)
        (bit (ltb a b))
        (as_signed sz a +ℤ neg_ℤ (as_signed sz b))
        (addsub_flags true sz a b f)
      × (addsub_result true sz a b + b ≡ a + modulus sz * (addsub_flags true sz a b f).cf)
unfolding addsub_flags
sub-IsArithmetic sz a b f h ha hb = (
  record {
    in_range = result_range sz a b f h ha hb true;
    carry_flag = refl;
    overflow_flag = sub_overflow sz a b f h ha hb;
    sign_flag = sub_sign sz a b f h ha hb;
    zero_flag = flags_zero true sz a b f;
    parity_flag = flags_parity true sz a b f;
  },
  sub_difference sz a b f h ha (omega arith),
)
