-- ===== src/Binary80/Ordering.antt =====
-- VM/FPU.py, the comparisons of double extended numbers.
use py_vm.Prelude.{
  ℕ, suc, ◌*◌, ◌^◌, ◌≤◌, ◌<◌, ◌≡◌, sym, subst, ap, ◌∙◌, ◌↔◌, inl, inr, Bool, true, false, ◌||◌,
  arith, ltb, ltb→lt, lt→ltb, Bool-cases,
}
use py_vm.Binary80.{Binary80, is_nan, is_inf, is_inf_signed, gt, lt}
use py_vm.Binary80.Laws.{twice, IsLeading, power_pos}
use native.Mathlib.Nat.{
  mul-le-mul_left, pow-le-pow_right, mul-lt-mul_of_pos_right, lt_of_mul-lt-mul_right,
}

-- The significand, as an integer, times the power of the exponent: all values on one scale.
abbrev pub scaled : Binary80 → ℕ
scaled a = a.significand * 2 ^ a.exponent

-- Positive, not special, and with the leading bit set.
abbrev pub IsOrdinary : Binary80 → Type 0
IsOrdinary a = (a.sign ≡ false) × (a.exponent < 32767) × IsLeading 63 a.significand

gt_ordinary :
    (a b : Binary80)
    → IsOrdinary a
    → IsOrdinary b
    → gt a b ≡ ltb b.exponent a.exponent || ltb b.significand a.significand
unfolding gt is_nan is_inf_signed is_inf
gt_ordinary a b ha hb = ground arith

lt_ordinary :
    (a b : Binary80)
    → IsOrdinary a
    → IsOrdinary b
    → lt a b ≡ ltb a.exponent b.exponent || ltb a.significand b.significand
unfolding lt is_nan is_inf_signed is_inf
lt_ordinary a b ha hb = ground arith

higher_exponent : (s t e f : ℕ) → IsLeading 63 s → IsLeading 63 t → f < e → t * 2 ^ f < s * 2 ^ e
higher_exponent s t e f hs ht h =
    let more : t * 2 ^ f < s * 2 * 2 ^ f = mul-lt-mul_of_pos_right (omega arith) (power_pos f) in
    let up : s * 2 ^ suc f ≤ s * 2 ^ e = mul-le-mul_left s (pow-le-pow_right (omega arith) h) in
    let same = twice s f in omega (arith, more, up, same)

same_exponent : (s t e : ℕ) → (t < s) ↔ (t * 2 ^ e < s * 2 ^ e)
same_exponent s t e =
    (λ h. mul-lt-mul_of_pos_right h (power_pos e), λ h. lt_of_mul-lt-mul_right (2 ^ e) h)

-- Where the first operand's exponent is not the smaller one, `>` on positive numbers that are not
-- special and whose leading bits are set compares their values.
pub gt-compares :
    (a b : Binary80)
    → IsOrdinary a
    → IsOrdinary b
    → b.exponent ≤ a.exponent
    → (gt a b ≡ true) ↔ (scaled b < scaled a)
gt-compares a b ha hb h = elim (Bool-cases (ltb b.exponent a.exponent)) [
  | inl more ↦ (
    (λ g.
        higher_exponent a.significand b.significand a.exponent b.exponent ha.2 hb.2
          (ltb→lt b.exponent a.exponent more)),
    λ v. gt_ordinary a b ha hb ∙ ap (λ (t : Bool). t || ltb b.significand a.significand) more,
  )
  | inr same ↦
      let eq : a.exponent ≡ b.exponent = ground arith in
      let c = same_exponent a.significand b.significand a.exponent in
      let g₀ : gt a b ≡ ltb b.significand a.significand =
        gt_ordinary a b ha hb ∙ ap (λ (t : Bool). t || ltb b.significand a.significand) same in
      (
        (λ g.
            subst (λ (x : ℕ). b.significand * 2 ^ x < scaled a) eq
              (c.0 (ltb→lt b.significand a.significand (sym g₀ ∙ g)))),
        λ v.
            g₀
            ∙ lt→ltb b.significand a.significand
                (c.1 (subst (λ (x : ℕ). b.significand * 2 ^ x < scaled a) (sym eq) v)),
      )
]

-- Of two such numbers the one with the smaller exponent and the greater significand is the smaller
-- value, but `>` holds of it, and `<` holds as well.
pub gt-wrong :
    (a b : Binary80)
    → IsOrdinary a
    → IsOrdinary b
    → a.exponent < b.exponent
    → b.significand < a.significand
    → (scaled a < scaled b) × (gt a b ≡ true) × (lt a b ≡ true)
gt-wrong a b ha hb e s = (
  higher_exponent b.significand a.significand b.exponent a.exponent hb.2 ha.2 e,
  gt_ordinary a b ha hb ∙ ground arith,
  lt_ordinary a b ha hb ∙ ground arith,
)
