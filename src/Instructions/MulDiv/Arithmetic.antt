-- ===== src/Instructions/MulDiv/Arithmetic.antt =====
-- VM/instructions/math.py, `MUL`, `DIV` and `IMUL` against the exact product and quotient.
use py_vm.Prelude.{
  ℕ, ◌+◌, ◌*◌, ◌<◌, ◌≡◌, ◌⊎◌, inl, inr, Bool, true, not, arith, ltb, ◌==◌, ℤ, pos, negsuc,
}
use py_vm.Misc.{modulus, half}
use py_vm.Misc.Laws.{IsSize, by_size}
use py_vm.Instructions.MulDiv.{low_half, high_half, imul_overflow, imul_truncates}

-- The signed range of a size.
abbrev pub fits : ℕ → ℤ → Bool
fits sz (pos n) = ltb n (half sz)
fits sz (negsuc n) = ltb n (half sz)

-- The three-operand IMUL reports a truncation exactly when the product is not in the signed range.
pub imul_truncates-fits :
    (sz : ℕ) (product : ℤ) → IsSize sz → imul_truncates sz product ≡ not (fits sz product)
unfolding imul_truncates
imul_truncates-fits sz (pos n) h =
    by_size (λ s. imul_truncates s (pos n) ≡ not (fits s (pos n))) (ground arith) (ground arith)
      (ground arith) h
imul_truncates-fits sz (negsuc n) h =
    by_size (λ s. imul_truncates s (negsuc n) ≡ not (fits s (negsuc n))) (ground arith)
      (ground arith) (ground arith) h

-- The one-operand IMUL shifts the product down before it compares, so it reports an overflow for
-- every positive product that fits.
pub imul_overflow-wrong :
    (sz n : ℕ) → IsSize sz → 0 < n → n < half sz → imul_overflow sz (pos n) ≡ true
unfolding imul_overflow
imul_overflow-wrong sz n h =
    by_size (λ s. 0 < n → n < half s → imul_overflow s (pos n) ≡ true) (λ p q. ground arith)
      (λ p q. ground arith) (λ p q. ground arith) h

product_bound : (m a b : ℕ) → a < m → b < m → a * b < m * m
product_bound m a b p q = grind arith

-- The two halves that MUL stores make up the product, and the high half is 0 exactly when the
-- product fits the operand size.
pub mul_halves :
    (sz a b : ℕ)
    → (sz ≡ 2) ⊎ (sz ≡ 4)
    → a < modulus sz
    → b < modulus sz
    → (low_half sz (pos (a * b)) + modulus sz * high_half sz (pos (a * b)) ≡ a * b)
      × ((high_half sz (pos (a * b)) == 0) ≡ ltb (a * b) (modulus sz))
mul_halves sz a b (inl e) = rw e (λ p q.
    (omega (arith, product_bound 65536 a b p q), ground (arith, product_bound 65536 a b p q)))
mul_halves sz a b (inr e) = rw e (λ p q. (
  omega (arith, product_bound 4294967296 a b p q),
  ground (arith, product_bound 4294967296 a b p q),
))
