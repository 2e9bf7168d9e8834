-- ===== src/Instructions/Compare.antt =====
-- The conditions of VM/instructions/control.py after a comparison by VM/instructions/math.py.
use py_vm.Prelude.{
  ℕ, ◌+◌, ◌*◌, ◌/◌, ◌%◌, ◌<◌, ◌≡◌, refl, ap, ◌∙◌, ◌⊎◌, inl, inr, Bool, true, not, arith, ltb, leb,
  ◌==◌, if◌then◌else◌, ltb_ℤ,
}
use py_vm.Misc.{modulus, as_signed}
use py_vm.Misc.Laws.{IsSize}
use py_vm.Instructions.AddSub.{addsub_flags}
use py_vm.Instructions.Condition.{positive_cond, negative_cond, cond_holds}
use py_vm.Registers.{Flags}

-- `a < b`, `a == b` and `a <= b` on words, and `a < b` and `a <= b` on the signed numbers that they
-- stand for, as the even conditions name them.
unfoldable pub compares : ℕ → ℕ → ℕ → ℕ → Bool
compares n sz a b =
    if n == 1
    then ltb a b
    else if n == 2
    then a == b
    else if n == 3
    then leb a b
    else if n == 6
    then ltb_ℤ (as_signed sz a) (as_signed sz b)
    else not (ltb_ℤ (as_signed sz b) (as_signed sz a))

-- The conditions that compare: B, Z, BE, L and LE.
abbrev pub IsComparison : ℕ → Type 0
IsComparison n = (n ≡ 1) ⊎ (n ≡ 2) ⊎ (n ≡ 3) ⊎ (n ≡ 6) ⊎ (n ≡ 7)

module _ (sz a b : ℕ) (f : Flags) (h : IsSize sz) (ha : a < modulus sz) (hb : b < modulus sz) where
  below : positive_cond 1 (addsub_flags true sz a b f) ≡ ltb a b
  unfolding positive_cond addsub_flags
  below = ground arith

  equal : positive_cond 2 (addsub_flags true sz a b f) ≡ (a == b)
  unfolding positive_cond addsub_flags
  equal = ground arith

  below_or_equal : positive_cond 3 (addsub_flags true sz a b f) ≡ leb a b
  unfolding positive_cond addsub_flags
  below_or_equal = ground arith

  less : positive_cond 6 (addsub_flags true sz a b f) ≡ ltb_ℤ (as_signed sz a) (as_signed sz b)
  unfolding positive_cond addsub_flags
  less = ground arith

  less_or_equal :
      positive_cond 7 (addsub_flags true sz a b f) ≡ not (ltb_ℤ (as_signed sz b) (as_signed sz a))
  unfolding positive_cond addsub_flags
  less_or_equal = ground arith

  -- After the flags of `a - b` each of the five conditions holds exactly when its comparison does.
  pub positive_cond-compares :
      {n : ℕ} → IsComparison n → positive_cond n (addsub_flags true sz a b f) ≡ compares n sz a b
  unfolding compares
  positive_cond-compares (inl e) = rw e below
  positive_cond-compares (inr (inl e)) = rw e equal
  positive_cond-compares (inr (inr (inl e))) = rw e below_or_equal
  positive_cond-compares (inr (inr (inr (inl e)))) = rw e less
  positive_cond-compares (inr (inr (inr (inr e)))) = rw e less_or_equal

-- Each odd condition is the negation of the even one before it, whatever the flags.
pub negative_cond_lem : (n : ℕ) (f : Flags) → negative_cond n f ≡ not (positive_cond n f)
unfolding negative_cond positive_cond
negative_cond_lem n f = ground arith

cond_holds-even : (n : ℕ) (f : Flags) → cond_holds (2 * n) f ≡ positive_cond n f
unfolding cond_holds
cond_holds-even n f =
    let p : 2 * n % 2 ≡ 0 = omega arith in let q : 2 * n / 2 ≡ n = omega arith in rw (p, q) refl

cond_holds-odd : (n : ℕ) (f : Flags) → cond_holds (2 * n + 1) f ≡ negative_cond n f
unfolding cond_holds
cond_holds-odd n f =
    let p : (2 * n + 1) % 2 ≡ 1 = omega arith in
    let q : (2 * n + 1) / 2 ≡ n = omega arith in rw (p, q) refl

-- After a comparison of two words of any operand size, the condition codes JB, JZ, JBE, JL and JLE
-- (and SETcc and CMOVcc with the same number) answer `a < b`, `a = b`, `a <= b` unsigned and
-- `a < b`, `a <= b` signed, and the odd code behind each answers the opposite.
pub cond_holds-compares :
    (sz a b n : ℕ) (f : Flags)
    → IsSize sz
    → a < modulus sz
    → b < modulus sz
    → IsComparison n
    → (cond_holds (2 * n) (addsub_flags true sz a b f) ≡ compares n sz a b)
      × (cond_holds (2 * n + 1) (addsub_flags true sz a b f) ≡ not (compares n sz a b))
cond_holds-compares sz a b n f h ha hb k =
    let even : positive_cond n (addsub_flags true sz a b f) ≡ compares n sz a b =
      positive_cond-compares sz a b f h ha hb k in
    (cond_holds-even n _ ∙ even, cond_holds-odd n _ ∙ negative_cond_lem n _ ∙ ap not even)
