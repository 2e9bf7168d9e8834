-- ===== src/Binary80/Laws.antt =====
-- Laws of the double extended numbers: conversions, normalization, products and quotients.
use py_vm.Prelude.{
  ℕ, zero, suc, ◌+◌, ◌*◌, ◌/◌, ◌%◌, ◌^◌, ◌≤◌, ◌<◌, ◌≡◌, sym, subst, ap, ap₂, ◌∙◌, inl, inr, Bool,
  arith, ltb, ◌==◌, if◌then◌else◌, ltb→lt, Bool-cases, ℤ, pos, negsuc, ◌+ℤ◌, neg_ℕ,
}
use py_vm.Binary80.{shift_up, eq, from_double, from_float, to_double}
use native.Mathlib.Nat.{pow-succ', div-eq_of_lt, le-div_iff_mul-le}

-- The fields of a double pattern survive the way through the extended format.
pub to_double-from_double : (d : ℕ) → d < 2 ^ 64 → to_double (from_double d) ≡ d
unfolding to_double from_double
to_double-from_double d small = ground arith

pub twice : (s k : ℕ) → s * 2 * 2 ^ k ≡ s * 2 ^ suc k
twice s k = grind (arith, pow-succ' 2 k)

down_again : (e : ℤ) (k : ℕ) → e +ℤ negsuc 0 +ℤ neg_ℕ k ≡ e +ℤ neg_ℕ (suc k)
down_again e zero = ground arith
down_again e (suc k) = ground arith

-- A significand with its leading bit in place `bits`.
abbrev pub IsLeading : ℕ → ℕ → Type 0
IsLeading bits s = (2 ^ bits ≤ s) × (s < 2 * 2 ^ bits)

-- `significand >> bits == 0`
pub quotient_test : (s p : ℕ) → 0 < p → (s / p == 0) ≡ ltb s p
quotient_test s p h = elim (Bool-cases (ltb s p)) [
  | inl below ↦ let z : s / p ≡ 0 = div-eq_of_lt (ltb→lt s p below) in grind (arith, z)
  | inr above ↦
      let o : 1 ≤ s / p = (le-div_iff_mul-le {x = 1} {y = s} h).1 (ground arith) in grind (arith, o)
]

pub power_pos : (k : ℕ) → 0 < 2 ^ k
power_pos zero = omega arith
power_pos (suc k) = let e = power_pos k in omega arith

zero_more : (e : ℤ) → e +ℤ pos 0 ≡ e
zero_more (pos n) = ground arith
zero_more (negsuc n) = ground arith

pub shift_once :
    (f bits : ℕ) (e : ℤ) (s : ℕ)
    → 0 < s
    → shift_up (suc f) bits e s
      ≡ (if ltb s (2 ^ bits) then shift_up f bits (e +ℤ negsuc 0) (s * 2) else (e, s))
unfolding shift_up
shift_once f bits e s h = let t = quotient_test s (2 ^ bits) (power_pos bits) in grind (arith, t)

-- The loop shifts a significand below the place of its leading bit until the bit is there.
pub shift_up_lem :
    (f bits : ℕ) (e : ℤ) (s : ℕ)
    → 0 < s
    → s < 2 * 2 ^ bits
    → 2 ^ bits ≤ s * 2 ^ f
    → (k : ℕ) × (shift_up f bits e s ≡ (e +ℤ neg_ℕ k, s * 2 ^ k)) × IsLeading bits (s * 2 ^ k)
unfolding shift_up
shift_up_lem zero bits e s h k l = (
  0,
  ap₂ (λ (x : ℤ) (y : ℕ). (x, y)) (sym (zero_more e)) (omega arith),
  (omega arith, omega arith),
)
shift_up_lem (suc f) bits e s h k l = elim (Bool-cases (ltb s (2 ^ bits))) [
  | inl below ↦
      let less : s < 2 ^ bits = ltb→lt s (2 ^ bits) below in
      let (n, eq, lead) =
        shift_up_lem f bits (e +ℤ negsuc 0) (s * 2) (omega arith) (omega arith)
          (subst (λ (x : ℕ). 2 ^ bits ≤ x) (sym (twice s f)) l) in
      (
        suc n,
        shift_once f bits e s h
            ∙ ap (λ (b : Bool). if b then shift_up f bits (e +ℤ negsuc 0) (s * 2) else (e, s)) below
            ∙ eq
            ∙ ap₂ (λ (x : ℤ) (y : ℕ). (x, y)) (down_again e n) (twice s n),
        subst (IsLeading bits) (twice s n) lead,
      )
  | inr there ↦ (
    0,
    shift_once f bits e s h
        ∙ ap (λ (b : Bool). if b then shift_up f bits (e +ℤ negsuc 0) (s * 2) else (e, s)) there
        ∙ ap₂ (λ (x : ℤ) (y : ℕ). (x, y)) (sym (zero_more e)) (omega arith),
    (ground arith, omega arith),
  )
]

-- The pattern of a single, through the extended format, as a double: the exponent field moves by the
-- difference of the biases and the fraction gets 29 zero bits, whatever the exponent field is. So
-- the pattern 0 gives that of 2 ^ -127, the exponent field 896 with an empty fraction.
pub to_double-from_float :
    (p : ℕ)
    → p < 2 ^ 32
    → to_double (from_float p)
      ≡ p / 2 ^ 31 * 2 ^ 63 + (p / 2 ^ 23 % 256 + 896) * 2 ^ 52 + p % 2 ^ 23 * 2 ^ 29
unfolding to_double from_float
to_double-from_float p small = ground arith
