-- ===== src/Binary80/Arithmetic.antt =====
-- VM/FPU.py, the sums, products and quotients of numbers whose leading bit is set.
use py_vm.Prelude.{
  ℕ, zero, suc, ◌+◌, ◌-◌, ◌*◌, ◌/◌, ◌^◌, ◌≤◌, ◌<◌, ◌≡◌, refl, sym, subst, ap, ◌∙◌, ◌⊎◌, inl, inr,
  Bool, true, false, not, ◌||◌, arith, ltb, leb, ◌==◌, if◌then◌else◌, ltb→lt, Bool-cases, ℤ, pos,
  negsuc, ◌+ℤ◌, neg_ℕ,
}
use py_vm.Outcome.{zero_division_error, ok, err}
use py_vm.Binary80.{
  Binary80, make, bias, zero_number, shift_up, normalize, is_zero, is_nan, is_inf, xor,
  div_magnitudes, div, gt,
}
use py_vm.Binary80.Laws.{IsLeading, power_pos, shift_once, shift_up_lem}
use py_vm.Binary80
use native.Mathlib.Nat.{
  div-div-eq-div-mul, mul-le-mul, le-div_iff_mul-le, div-eq_of_lt, div-lt_iff_lt-mul,
}

not_below : (s p : ℕ) → p ≤ s → ltb s p ≡ false
not_below s p h = ground arith

already : (f bits : ℕ) (e : ℤ) (s : ℕ) → IsLeading bits s → shift_up f bits e s ≡ (e, s)
unfolding shift_up
already zero bits e s lead = refl
already (suc f) bits e s lead =
    let p = power_pos bits in
    shift_once f bits e s (omega arith)
    ∙ ap (λ (b : Bool). if b then shift_up f bits (e +ℤ negsuc 0) (s * 2) else (e, s))
        (not_below s (2 ^ bits) lead.0)

-- `(significand >> bits) > 1`
over_test : (s p : ℕ) → 0 < p → ltb 1 (s / p) ≡ not (ltb s (2 * p))
over_test s p h = elim (Bool-cases (ltb s (2 * p))) [
  | inl below ↦
      let z : s / p < 2 = (div-lt_iff_lt-mul {x = s} {y = 2} h).1 (ltb→lt s (2 * p) below) in
      grind (arith, z)
  | inr above ↦
      let o : 2 ≤ s / p = (le-div_iff_mul-le {x = 2} {y = s} h).1 (ground arith) in grind (arith, o)
]

normalize_cases :
    (bits : ℕ) (e : ℤ) (s : ℕ)
    → normalize bits e s ≡ (
        if ltb s (2 * 2 ^ bits)
        then shift_up bits bits e s
        else shift_up bits bits (e +ℤ pos 1) (s / 2))
unfolding normalize
normalize_cases bits e s = let t = over_test s (2 ^ bits) (power_pos bits) in grind (arith, t)

-- One shift down where the sum or the product has a bit more, and none otherwise.
pub normalize_leading :
    (bits : ℕ) (e : ℤ) (s : ℕ)
    → 2 ^ bits ≤ s
    → s < 4 * 2 ^ bits
    → normalize bits e s ≡ (if ltb s (2 * 2 ^ bits) then (e, s) else (e +ℤ pos 1, s / 2))
normalize_leading bits e s low high = elim (Bool-cases (ltb s (2 * 2 ^ bits))) [
  | inl below ↦
      let h = ltb→lt s (2 * 2 ^ bits) below in
      let x = already bits bits e s (low, h) in
      let n = normalize_cases bits e s in grind (arith, x, n)
  | inr above ↦
      let x = already bits bits (e +ℤ pos 1) (s / 2) (ground arith, omega arith) in
      let n = normalize_cases bits e s in grind (arith, x, n)
]

enough : (s p : ℕ) → 0 < s → p ≤ s * p
enough s p h =
    subst (λ (x : ℕ). x ≤ s * p) (grind arith)
      (mul-le-mul {n₁ = 1} {m₁ = p} {n₂ = s} {m₂ = p} h (omega arith))

-- What the normalization leaves of a significand `s` of at most `bits + 2` bits that is not 0, with
-- its exponent `e`: either `s` had `bits + 2` bits and is halved, or it is multiplied by the power
-- of 2 that the exponent falls by. The leading bit is then in its place, and the fuel was enough.
pub normalize_lem :
    (bits : ℕ) (e : ℤ) (s : ℕ)
    → 0 < s
    → s < 4 * 2 ^ bits
    → IsLeading bits (normalize bits e s).1
      × ((normalize bits e s ≡ (e +ℤ pos 1, s / 2))
          ⊎ ((k : ℕ) × (normalize bits e s ≡ (e +ℤ neg_ℕ k, s * 2 ^ k))))
normalize_lem bits e s h high = elim (Bool-cases (ltb s (2 * 2 ^ bits))) [
  | inl below ↦
      let p = power_pos bits in
      let less = ltb→lt s (2 * 2 ^ bits) below in
      let r = shift_up_lem bits bits e s h less (enough s (2 ^ bits) h) in
      let n : normalize bits e s ≡ (e +ℤ neg_ℕ r.0, s * 2 ^ r.0) =
        normalize_cases bits e s
        ∙ ap
            (λ (b : Bool).
              if b then shift_up bits bits e s else shift_up bits bits (e +ℤ pos 1) (s / 2))
            below
        ∙ r.1 in
      (subst (λ (x : ℤ × ℕ). IsLeading bits x.1) (sym n) r.2, inr (r.0, n))
  | inr above ↦
      let n : normalize bits e s ≡ (e +ℤ pos 1, s / 2) =
        normalize_leading bits e s (ground arith) high
        ∙ ap (λ (b : Bool). if b then (e, s) else (e +ℤ pos 1, s / 2)) above in
      (subst (λ (x : ℤ × ℕ). IsLeading bits x.1) (sym n) (ground arith, omega arith), inl n)
]

-- The sign, and whether both signs are equal, do not matter to the magnitude of a product.
product_bounds :
    (s t : ℕ) → IsLeading 63 s → IsLeading 63 t → (2 ^ 126 ≤ s * t) × (s * t < 4 * 2 ^ 126)
product_bounds s t a b =
    let low : 2 ^ 63 * 2 ^ 63 ≤ s * t = mul-le-mul a.0 b.0 in
    let high : s * t ≤ (2 ^ 64 - 1) * (2 ^ 64 - 1) =
      mul-le-mul {n₂ = 2 ^ 64 - 1} {m₂ = 2 ^ 64 - 1} (omega arith) (omega arith) in
    (omega arith, omega arith)

leading_positive : (a : Binary80) → IsLeading 63 a.significand → is_zero a ≡ false
unfolding is_zero
leading_positive a h = ground arith

abbrev product_exponent : Binary80 → Binary80 → ℤ
product_exponent a b = pos (a.exponent + b.exponent) +ℤ neg_ℕ bias

-- A product whose factors are not zero, from its normal form.
mul_normalized :
    (a b : Binary80) (e : ℤ) (s : ℕ)
    → is_zero a ≡ false
    → is_zero b ≡ false
    → normalize 126 (product_exponent a b) (a.significand * b.significand) ≡ (e, s)
    → Binary80.mul a b ≡ make (s / 2 ^ 63) e (xor a.sign b.sign)
unfolding Binary80.mul
mul_normalized a b e s za zb n =
    ap (λ (t : Bool). if t then zero_number false else make (r.1 / 2 ^ 63) r.0 (xor a.sign b.sign))
      both
    ∙ ap (λ (x : ℤ × ℕ). make (x.1 / 2 ^ 63) x.0 (xor a.sign b.sign)) n
  where
    r : ℤ × ℕ
    r = normalize 126 (product_exponent a b) (a.significand * b.significand)

    both : is_zero a || is_zero b ≡ false
    both = ground arith

make-IsLeading : (s : ℕ) (e : ℤ) (t : Bool) → IsLeading 63 s → IsLeading 63 (make s e t).significand
unfolding make
make-IsLeading s e t h = (ground arith, ground arith)

-- The product of two numbers whose leading bits are set: the exact product of the significands, of
-- 127 or 128 bits, cut down to its upper 64, with the sum of the exponents less the bias, or one
-- more, which is stored in 15 bits. The leading bit of the product is set.
pub mul_lem :
    (a b : Binary80)
    → IsLeading 63 a.significand
    → IsLeading 63 b.significand
    → (Binary80.mul a b ≡ (
        let p = a.significand * b.significand in
        if ltb p (2 ^ 127)
        then make (p / 2 ^ 63) (product_exponent a b) (xor a.sign b.sign)
        else make (p / 2 ^ 64) (product_exponent a b +ℤ pos 1) (xor a.sign b.sign)))
      × IsLeading 63 (Binary80.mul a b).significand
mul_lem a b ha hb = elim (Bool-cases (ltb (a.significand * b.significand) (2 ^ 127))) [
  | inl short ↦
      let eq =
        mul_normalized a b _ _ za zb
          (n ∙ ap (λ (t : Bool). if t then (e, p) else (e +ℤ pos 1, p / 2)) short) in
      (
        eq
            ∙ ap
                (λ (t : Bool).
                  if t then make (p / 2 ^ 63) e x else make (p / 2 ^ 64) (e +ℤ pos 1) x)
                (sym short),
        subst (λ (m : Binary80). IsLeading 63 m.significand) (sym eq)
            (make-IsLeading (p / 2 ^ 63) e x
              (omega (arith, bounds.0), omega (arith, ltb→lt p (2 ^ 127) short))),
      )
  | inr long ↦
      let eq =
        mul_normalized a b _ _ za zb
          (n ∙ ap (λ (t : Bool). if t then (e, p) else (e +ℤ pos 1, p / 2)) long) in
      (
        eq
            ∙ ap (λ (m : ℕ). make m (e +ℤ pos 1) x) (div-div-eq-div-mul p 2 (2 ^ 63))
            ∙ ap
                (λ (t : Bool).
                  if t then make (p / 2 ^ 63) e x else make (p / 2 ^ 64) (e +ℤ pos 1) x)
                (sym long),
        subst (λ (m : Binary80). IsLeading 63 m.significand) (sym eq)
            (make-IsLeading (p / 2 / 2 ^ 63) (e +ℤ pos 1) x
              (ground (arith, bounds.0, long), omega (arith, bounds.1))),
      )
]
  where
    p : ℕ
    p = a.significand * b.significand

    e : ℤ
    e = product_exponent a b

    x : Bool
    x = xor a.sign b.sign

    bounds : (2 ^ 126 ≤ p) × (p < 4 * 2 ^ 126)
    bounds = product_bounds a.significand b.significand ha hb

    n : normalize 126 e p ≡ (if ltb p (2 ^ 127) then (e, p) else (e +ℤ pos 1, p / 2))
    n = normalize_leading 126 e p bounds.0 bounds.1

    za : is_zero a ≡ false
    za = leading_positive a ha

    zb : is_zero b ≡ false
    zb = leading_positive b hb

ordinary_div :
    (a b : Binary80)
    → IsLeading 63 a.significand
    → IsLeading 63 b.significand
    → a.exponent < 32767
    → b.exponent < 32767
    → div a b ≡ div_magnitudes a b
unfolding div is_nan is_inf is_zero
ordinary_div a b ha hb ea eb = ground arith

leading_quotient : (s t : ℕ) → IsLeading 63 s → IsLeading 63 t → s / t ≡ (if leb t s then 1 else 0)
leading_quotient s t ha hb = elim (Bool-cases (leb t s)) [
  | inl le ↦
      let low : 1 ≤ s / t = (le-div_iff_mul-le {x = 1} {y = s} (omega arith)).1 (ground arith) in
      let high : s / t < 2 = (div-lt_iff_lt-mul {x = s} {y = 2} (omega arith)).1 (omega arith) in
      grind (arith, low, high, le)
  | inr gt ↦ let z : s / t ≡ 0 = div-eq_of_lt (ground arith) in grind (arith, z, gt)
]

normalize_quotient :
    (e : ℤ) (b : Bool)
    → normalize 63 e ((if b then 1 else 0) * 2 ^ 63) ≡ (e, if b then 2 ^ 63 else 0)
unfolding normalize shift_up
normalize_quotient e true = refl
normalize_quotient e false = refl

-- The quotient of two positive numbers that are neither zero nor special: `s1 // s2` is 1 or 0 where
-- the leading bits are set, so the fraction is lost. The significand is that of 1, or 0, whatever
-- the operands are.
pub div_lem :
    (a b : Binary80)
    → IsLeading 63 a.significand
    → IsLeading 63 b.significand
    → a.exponent < 32767
    → b.exponent < 32767
    → div a b
      ≡ ok (
          make
            (if leb b.significand a.significand then 2 ^ 63 else 0)
            (pos (a.exponent + bias) +ℤ neg_ℕ b.exponent)
            (xor a.sign b.sign))
unfolding div_magnitudes
div_lem a b ha hb ea eb =
    ordinary_div a b ha hb ea eb
    ∙ ap (λ (t : Bool). if t then err zero_division_error else ok (make r.1 r.0 x)) divisor
    ∙ ap (λ (q : ℕ). let n = normalize 63 e (q * 2 ^ 63) in ok (make n.1 n.0 x))
        (leading_quotient a.significand b.significand ha hb)
    ∙ ap (λ (n : ℤ × ℕ). ok (make n.1 n.0 x))
        (normalize_quotient e (leb b.significand a.significand))
  where
    e : ℤ
    e = pos (a.exponent + bias) +ℤ neg_ℕ b.exponent

    x : Bool
    x = xor a.sign b.sign

    r : ℤ × ℕ
    r = normalize 63 e (a.significand / b.significand * 2 ^ 63)

    divisor : (b.significand == 0) ≡ false
    divisor = ground arith
