-- ===== src/Instructions/AddSub/Chain.antt =====
-- VM/instructions/math.py, `ADDSUB`: ADD with ADC, and SUB with SBB, on numbers of several words.
use py_vm.Prelude.{
  ℕ, ◌+◌, ◌-◌, ◌*◌, ◌<◌, ◌≡◌, ap, Bool, true, false, List, [], ◌∷◌, arith, pos, ◌+ℤ◌, eqb_ℤ,
}
use py_vm.Misc.{modulus, half, as_signed}
use py_vm.Misc.Laws.{IsSize, by_size}
use py_vm.Instructions.AddSub.{addsub_flags, addsub_result}
use py_vm.Instructions.AddSub.Arithmetic.{add_sum, sub_difference}
use py_vm.Registers.{Flags}

-- The number that a list of words stands for, the lowest first.
unfoldable pub value_of : ℕ → List ℕ → ℕ
value_of sz [] = 0
value_of sz (x ∷ xs) = x + modulus sz * value_of sz xs

-- The words of two numbers of the same length, and the carry, through ADC (or SBB): `b += CF`, and
-- the flags and the result of the sum.
unfoldable pub carry_chain : Bool → ℕ → List (ℕ × ℕ) → Flags → List ℕ × Flags
carry_chain sub sz [] f = ([], f)
carry_chain sub sz ((a, b) ∷ ws) f =
    let rest = carry_chain sub sz ws (addsub_flags sub sz a (b + f.cf) f) in
    (addsub_result sub sz a (b + f.cf) ∷ rest.0, rest.1)

abbrev pub AreWords : ℕ → List (ℕ × ℕ) → Type 0
AreWords sz [] = Unit
AreWords sz ((a, b) ∷ ws) = (a < modulus sz) × (b < modulus sz) × AreWords sz ws

-- `modulus sz` to the number of words.
unfoldable pub weight : ℕ → List (ℕ × ℕ) → ℕ
weight sz [] = 1
weight sz (w ∷ ws) = modulus sz * weight sz ws

unfoldable pub lefts : List (ℕ × ℕ) → List ℕ
lefts [] = []
lefts ((a, b) ∷ ws) = a ∷ lefts ws

unfoldable pub rights : List (ℕ × ℕ) → List ℕ
rights [] = []
rights ((a, b) ∷ ws) = b ∷ rights ws

flag_range : (sub : Bool) (sz a b : ℕ) (f : Flags) → (addsub_flags sub sz a b f).cf < 2
unfolding addsub_flags
flag_range sub sz a b f = ground arith

chain_step :
    (m r c a b k v w u l R : ℕ)
    → r + m * c ≡ a + (b + k)
    → v + l * R ≡ w + u + c
    → r + m * v + m * l * R ≡ a + m * w + (b + m * u) + k
chain_step m r c a b k v w u l R p q = omega (arith, ap (λ (t : ℕ). m * t) q)

borrow_step :
    (m r c a b k v w u l R : ℕ)
    → r + (b + k) ≡ a + m * c
    → v + u + c ≡ w + l * R
    → r + m * v + (b + m * u) + k ≡ a + m * w + m * l * R
borrow_step m r c a b k v w u l R p q = omega (arith, ap (λ (t : ℕ). m * t) q)

-- A chain of ADD and ADC adds numbers of any length: the words of the result and the last carry make
-- up the sum of the two numbers and the first carry.
pub carry_chain-add :
    (sz : ℕ) (ws : List (ℕ × ℕ)) (f : Flags)
    → IsSize sz
    → AreWords sz ws
    → f.cf < 2
    → value_of sz (carry_chain false sz ws f).0 + weight sz ws * (carry_chain false sz ws f).1.cf
      ≡ value_of sz (lefts ws) + value_of sz (rights ws) + f.cf
unfolding carry_chain value_of weight lefts rights
carry_chain-add sz [] f h w c = omega arith
carry_chain-add sz ((a, b) ∷ ws) f h w c =
    let f' = addsub_flags false sz a (b + f.cf) f in
    chain_step (modulus sz) (addsub_result false sz a (b + f.cf)) f'.cf a b f.cf
      (value_of sz (carry_chain false sz ws f').0) (value_of sz (lefts ws))
      (value_of sz (rights ws)) (weight sz ws) (carry_chain false sz ws f').1.cf
      (add_sum sz a (b + f.cf) f h w.0 (omega arith))
      (carry_chain-add sz ws f' h w.2 (flag_range false sz a (b + f.cf) f))

-- A chain of SUB and SBB subtracts numbers of any length: the result and what was subtracted make up
-- the first number and the last borrow.
pub carry_chain_sub :
    (sz : ℕ) (ws : List (ℕ × ℕ)) (f : Flags)
    → IsSize sz
    → AreWords sz ws
    → f.cf < 2
    → value_of sz (carry_chain true sz ws f).0 + value_of sz (rights ws) + f.cf
      ≡ value_of sz (lefts ws) + weight sz ws * (carry_chain true sz ws f).1.cf
unfolding carry_chain value_of weight lefts rights
carry_chain_sub sz [] f h w c = omega arith
carry_chain_sub sz ((a, b) ∷ ws) f h w c =
    let f' = addsub_flags true sz a (b + f.cf) f in
    borrow_step (modulus sz) (addsub_result true sz a (b + f.cf)) f'.cf a b f.cf
      (value_of sz (carry_chain true sz ws f').0) (value_of sz (lefts ws)) (value_of sz (rights ws))
      (weight sz ws) (carry_chain true sz ws f').1.cf
      (sub_difference sz a (b + f.cf) f h w.0 (omega arith))
      (carry_chain_sub sz ws f' h w.2 (flag_range true sz a (b + f.cf) f))

-- The overflow flag of ADC is computed from `b` with the carry added, whose sign bit is wrong when
-- the carry crosses the half: a number that is not negative plus the greatest one and a carry
-- overflows, and OF stays 0.
pub adc_overflow-missed :
    (sz a : ℕ) (f : Flags)
    → IsSize sz
    → a < half sz
    → f.cf ≡ 1
    → ((addsub_flags false sz a (half sz - 1 + f.cf) f).of ≡ 0)
      × (eqb_ℤ
            (as_signed sz (addsub_result false sz a (half sz - 1 + f.cf)))
            (as_signed sz a +ℤ as_signed sz (half sz - 1) +ℤ pos 1)
          ≡ false)
unfolding addsub_flags addsub_result
adc_overflow-missed sz a f h ha hc = rw hc (
    by_size
      (λ s.
        a < half s
        → ((addsub_flags false s a (half s - 1 + 1) f).of ≡ 0)
          × (eqb_ℤ (as_signed s (addsub_result false s a (half s - 1 + 1)))
                (as_signed s a +ℤ as_signed s (half s - 1) +ℤ pos 1)
              ≡ false))
      (λ p. ground arith) (λ p. ground arith) (λ p. ground arith) h ha)
