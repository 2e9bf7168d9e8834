-- ===== src/Misc/Laws.antt =====
-- What the conversions of VM/misc.py and VM/util.py compute.
use py_vm.Prelude.{
  ℕ, zero, suc, ◌+◌, ◌/◌, ◌%◌, ◌<◌, ◌≡◌, refl, ◌⊎◌, inl, inr, true, arith, ltb, ◌==◌, ==_iff,
  passes_from, passes_from-each, ℤ, pos, negsuc, ◌%ℤ◌,
}
use py_vm.Outcome.{ok}
use py_vm.Misc.{
  modulus, half, sign_bit, as_signed, to_signed, is_signed_out_of_range, sign_extend, parity, msb,
}

-- The operand sizes of the machine.
abbrev pub IsSize : ℕ → Type 0
IsSize sz = (sz ≡ 1) ⊎ (sz ≡ 2) ⊎ (sz ≡ 4)

pub by_size {ℓ} : (P : ℕ → Type ℓ) → P 1 → P 2 → P 4 → {sz : ℕ} → IsSize sz → P sz
by_size P p q r (inl e) = rw e p
by_size P p q r (inr (inl e)) = rw e q
by_size P p q r (inr (inr e)) = rw e r

pub mod_range : (v : ℤ) (sz : ℕ) → IsSize sz → v %ℤ modulus sz < modulus sz
mod_range (pos n) sz h = ground arith
mod_range (negsuc n) sz h = ground arith

-- The number of ones among the lowest `n` bits.
unfoldable pub ones : ℕ → ℕ → ℕ
ones zero x = 0
ones (suc n) x = x % 2 + ones n (x / 2)

parity_table : passes_from (λ x. parity x == ones 8 x % 2) 0 256 ≡ true
unfolding passes_from parity ones
parity_table = refl

parity-mod : (n : ℕ) → parity n ≡ parity (n % 256)
unfolding parity
parity-mod n = let e : n % 256 % 256 ≡ n % 256 = omega arith in rw e refl

-- The multiplication trick computes the parity of the low byte: 1 for an odd number of ones.
pub parity-eq-ones : (n : ℕ) → parity n ≡ ones 8 (n % 256) % 2
parity-eq-ones n =
    let low : parity (n % 256) ≡ ones 8 (n % 256) % 2 =
      (==_iff _ _).0
        (passes_from-each _ 0 256 (n % 256) (omega arith) (omega arith) parity_table) in
    rw parity-mod low

-- The two's complement reading of a word: it is congruent to the word, and in the signed range.
pub as_signed_mod : (sz v : ℕ) → IsSize sz → v < modulus sz → as_signed sz v %ℤ modulus sz ≡ v
as_signed_mod sz v h b = ground arith

pub to_signed-eq-as_signed :
    (sz v : ℕ) → IsSize sz → v < modulus sz → to_signed (pos v) sz ≡ as_signed sz v
unfolding to_signed
to_signed-eq-as_signed sz v h b = ground arith

pub sign_extend-eq-as_signed :
    (sz v : ℕ) → IsSize sz → v < modulus sz → sign_extend (pos v) sz ≡ as_signed sz v
unfolding sign_extend
sign_extend-eq-as_signed sz v h =
    by_size (λ s. v < modulus s → sign_extend (pos v) s ≡ as_signed s v) (λ b. ground arith)
      (λ b. ground arith) (λ b. ground arith) h

-- `MSB` is the sign bit of a word.
pub msb-eq-sign_bit : (sz v : ℕ) → IsSize sz → msb (pos v) sz ≡ sign_bit sz v
unfolding msb
msb-eq-sign_bit sz v h = by_size (λ s. msb (pos v) s ≡ sign_bit s v) refl refl refl h

-- The conversions agree with one another on every word of the machine's sizes, and `sign_extend`
-- changes no number that is negative already.
pub conversions_agree :
    (sz v : ℕ)
    → IsSize sz
    → v < modulus sz
    → (sign_extend (pos v) sz ≡ to_signed (pos v) sz)
      × (sign_extend (pos v) sz %ℤ modulus sz ≡ v)
      × (sign_extend (sign_extend (pos v) sz) sz ≡ sign_extend (pos v) sz)
      × (msb (sign_extend (pos v) sz) sz ≡ msb (pos v) sz)
unfolding sign_extend to_signed msb
conversions_agree sz v h =
    by_size
      (λ s.
        v < modulus s
        → (sign_extend (pos v) s ≡ to_signed (pos v) s)
          × (sign_extend (pos v) s %ℤ modulus s ≡ v)
          × (sign_extend (sign_extend (pos v) s) s ≡ sign_extend (pos v) s)
          × (msb (sign_extend (pos v) s) s ≡ msb (pos v) s))
      (λ b. ground arith) (λ b. ground arith) (λ b. ground arith) h

-- Despite its name, the test answers whether the number is in the signed range.
pub is_signed_out_of_range-inverted :
    (sz v : ℕ)
    → IsSize sz
    → (is_signed_out_of_range (pos v) sz ≡ ok (ltb v (half sz)))
      × (is_signed_out_of_range (negsuc v) sz ≡ ok (ltb v (half sz)))
unfolding is_signed_out_of_range
is_signed_out_of_range-inverted sz v h = ground arith
