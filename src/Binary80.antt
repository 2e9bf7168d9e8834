-- ===== src/Binary80.antt =====
-- VM/FPU.py, `binary80`: the double extended numbers, whose arithmetic is on the integers of their
-- fields. Python's floats, which the class converts from and to, are the patterns of their 64 bits.
pub mod Laws
pub mod Arithmetic
pub mod Ordering
use py_vm.Prelude.{
  ℕ, zero, suc, ◌+◌, ◌-◌, ◌*◌, ◌/◌, ◌%◌, ◌^◌, Bool, true, false, not, ◌&&◌, ◌||◌, ltb, leb, ◌==◌,
  if◌then◌else◌, bit, ℤ, pos, negsuc, ◌+ℤ◌, neg_ℕ, ◌%ℤ◌,
}
use py_vm.Outcome.{zero_division_error, fp_invalid_arithmetic_operand, Result, ok, err}

-- The exponent has 15 bits and the significand 64.
pub record Binary80 : Type 0 where
  pub significand : ℕ
  pub exponent : ℕ
  pub sign : Bool

-- `binary80(significand, exponent, sign)`: the fields keep the low bits.
unfoldable pub make : ℕ → ℤ → Bool → Binary80
make s e sign = record { significand = s % 2 ^ 64; exponent = e %ℤ 32768; sign = sign }

abbrev pub bias : ℕ
bias = 16383

-- `ZERO`, `SNaN`, `Inf`
unfoldable pub zero_number : Bool → Binary80
unfolding make
zero_number sign = make 0 (pos 0) sign

unfoldable pub signaling_nan : Binary80
unfolding make
signaling_nan = make (2 ^ 63 + 1) (pos 32767) false

unfoldable pub infinity : Bool → Binary80
unfolding make
infinity sign = make (2 ^ 63) (pos 32767) sign

-- The exponent and the two significands, the one of the smaller number shifted down.
unfoldable pub align_exponents : Binary80 → Binary80 → ℕ × ℕ × ℕ
align_exponents a b =
    if leb b.exponent a.exponent
    then (a.exponent, a.significand, b.significand / 2 ^ (a.exponent - b.exponent))
    else (b.exponent, a.significand / 2 ^ (b.exponent - a.exponent), b.significand)

-- `while significand != 0 and (significand >> bits) == 0`
unfoldable pub shift_up : ℕ → ℕ → ℤ → ℕ → ℤ × ℕ
shift_up zero bits e s = (e, s)
shift_up (suc f) bits e s = elim (not (s == 0) && (s / 2 ^ bits == 0)) [
  | true ↦ shift_up f bits (e +ℤ negsuc 0) (s * 2)
  | false ↦ (e, s)
]

-- `bits` rounds are enough for the loop.
unfoldable pub normalize : ℕ → ℤ → ℕ → ℤ × ℕ
unfolding shift_up
normalize bits e s =
    if ltb 1 (s / 2 ^ bits) then shift_up bits bits (e +ℤ pos 1) (s / 2) else shift_up bits bits e s

unfoldable pub is_zero : Binary80 → Bool
is_zero a = a.exponent == 0 && a.significand == 0

-- `significand & ((1 << 62) - 1)` and `significand >> 62`
abbrev pub fraction_part : Binary80 → ℕ
fraction_part a = a.significand % 2 ^ 62

abbrev pub leading_part : Binary80 → ℕ
leading_part a = a.significand / 2 ^ 62

unfoldable pub is_nan : Binary80 → Bool
is_nan a =
    (a.exponent == 32767 && not (fraction_part a == 0) && leading_part a == 2)
    || (a.exponent == 32767 && leading_part a == 3)

-- With `sign` left out.
unfoldable pub is_inf : Binary80 → Bool
is_inf a = a.exponent == 32767 && leading_part a == 2 && fraction_part a == 0

-- `__is_Inf(0)` and `__is_Inf(1)`
unfoldable pub is_inf_signed : Bool → Binary80 → Bool
unfolding is_inf
is_inf_signed true a = is_inf a && a.sign
is_inf_signed false a = is_inf a && not a.sign

unfoldable pub neg : Binary80 → Binary80
unfolding make
neg a = make a.significand (pos a.exponent) (not a.sign)

-- The part of `__add__` behind the tests of the signs.
unfoldable pub add_magnitudes : Binary80 → Binary80 → Binary80
unfolding make align_exponents normalize
add_magnitudes a b =
    let (e, s, t) = align_exponents a b in
    let r = normalize 63 (pos e) (s + t) in make r.1 r.0 a.sign

-- The part of `__sub__` behind the tests of the signs.
unfoldable pub sub_magnitudes : Binary80 → Binary80 → Binary80
unfolding make align_exponents normalize zero_number
sub_magnitudes a b =
    let (e, s, t) = align_exponents a b in
    let above = normalize 63 (pos e) (s - t) in
    let below = normalize 63 (pos e) (t - s) in
    if ltb t s
    then make above.1 above.0 false
    else if ltb s t
    then make below.1 below.0 true
    else zero_number false

-- `__add__` and `__sub__` call each other once at most, since the negated operands have equal signs.
unfoldable pub add : Binary80 → Binary80 → Binary80
unfolding add_magnitudes sub_magnitudes neg
add a b =
    if a.sign && not b.sign
    then sub_magnitudes b (neg a)
    else if not a.sign && b.sign
    then sub_magnitudes a (neg b)
    else add_magnitudes a b

unfoldable pub sub : Binary80 → Binary80 → Binary80
unfolding add_magnitudes sub_magnitudes neg
sub a b =
    if a.sign
    then (if b.sign then sub_magnitudes (neg b) (neg a) else neg (add_magnitudes (neg a) b))
    else if b.sign
    then add_magnitudes a (neg b)
    else sub_magnitudes a b

abbrev pub xor : Bool → Bool → Bool
xor a b = if a then not b else b

unfoldable pub mul : Binary80 → Binary80 → Binary80
unfolding make normalize is_zero zero_number
mul a b =
    let r =
      normalize 126 (pos (a.exponent + b.exponent) +ℤ neg_ℕ bias) (a.significand * b.significand) in
    if is_zero a || is_zero b
    then zero_number false
    else make (r.1 / 2 ^ 63) r.0 (xor a.sign b.sign)

-- The part of `__truediv__` behind the special cases.
unfoldable pub div_magnitudes : Binary80 → Binary80 → Result Binary80
unfolding make normalize
div_magnitudes a b =
    let r =
      normalize 63 (pos (a.exponent + bias) +ℤ neg_ℕ b.exponent)
        (a.significand / b.significand * 2 ^ 63) in
    if b.significand == 0 then err zero_division_error else ok (make r.1 r.0 (xor a.sign b.sign))

unfoldable pub div : Binary80 → Binary80 → Result Binary80
unfolding is_nan is_inf is_zero signaling_nan infinity zero_number div_magnitudes
div a b =
    if is_nan a || is_nan b
    then ok signaling_nan
    else if is_inf a
    then (if is_inf b then err fp_invalid_arithmetic_operand else ok (infinity (xor a.sign b.sign)))
    else if is_zero a
    then (if is_zero b
        then err fp_invalid_arithmetic_operand
        else ok (zero_number (xor a.sign b.sign)))
    else if is_zero b
    then err fp_invalid_arithmetic_operand
    else div_magnitudes a b

abbrev pub same_sign : Bool → Bool → Bool
same_sign a b = if a then b else not b

unfoldable pub eq : Binary80 → Binary80 → Bool
unfolding is_nan is_zero
eq a b =
    if is_nan a || is_nan b
    then false
    else if is_zero a && is_zero b
    then true
    else same_sign a.sign b.sign && a.exponent == b.exponent && a.significand == b.significand

unfoldable pub gt : Binary80 → Binary80 → Bool
unfolding is_nan is_inf_signed
gt a b =
    if is_nan a || is_nan b
    then false
    else if is_inf_signed false a
    then true
    else if is_inf_signed true a
    then false
    else if not a.sign
    then (if b.sign
        then true
        else if ltb b.exponent a.exponent
        then true
        else ltb b.significand a.significand)
    else if not b.sign
    then false
    else if ltb a.exponent b.exponent
    then true
    else ltb a.significand b.significand

unfoldable pub lt : Binary80 → Binary80 → Bool
unfolding is_nan is_inf_signed
lt a b =
    if is_nan a || is_nan b
    then false
    else if is_inf_signed false a
    then false
    else if is_inf_signed true a
    then true
    else if not a.sign
    then (if b.sign
        then false
        else if ltb a.exponent b.exponent
        then true
        else ltb a.significand b.significand)
    else if not b.sign
    then true
    else if ltb a.exponent b.exponent
    then false
    else ltb b.significand a.significand

-- `from_double`: the fields of the pattern `d`, and the leading bit that it leaves out.
unfoldable pub from_double : ℕ → Binary80
unfolding make
from_double d =
    make (d % 2 ^ 52 * 2 ^ 11 + 2 ^ 63) (pos (d / 2 ^ 52 % 2048 + 15360)) (d / 2 ^ 63 % 2 == 1)

-- `from_float` of a pattern of 32 bits.
unfoldable pub from_float : ℕ → Binary80
unfolding make
from_float d =
    make (d % 2 ^ 23 * 2 ^ 40 + 2 ^ 63) (pos (d / 2 ^ 23 % 256 + 16256)) (d / 2 ^ 31 % 2 == 1)

-- `__float__`: the pattern of the fields, each of which keeps its low bits.
unfoldable pub to_double : Binary80 → ℕ
to_double a =
    if a.exponent == 0 && a.significand == 0
    then 0
    else bit a.sign * 2 ^ 63
      + (pos a.exponent +ℤ neg_ℕ 15360) %ℤ 2048 * 2 ^ 52
      + a.significand / 2 ^ 11 % 2 ^ 52

-- Python's own conversions between floats: `narrow` is the assignment of a double to a c_float,
-- `widen` reads a c_float as a double, and `of_int` and `truncate` are `float(n)` and `int(x)`.
pub record Floats : Type 0 where
  pub narrow : ℕ → ℕ
  pub widen : ℕ → ℕ
  pub of_int : ℕ → ℕ
  pub truncate : ℕ → Result ℤ

-- `from_int`, and `__int__`.
unfoldable pub from_int : Floats → ℕ → Binary80
unfolding from_double
from_int floats n = from_double (floats.of_int n)

unfoldable pub to_int : Floats → Binary80 → Result ℤ
unfolding to_double
to_int floats a = floats.truncate (to_double a)
