-- ===== src/Prelude/Int.antt =====
-- Python's integers over the native numbers: sums, products, comparisons, `//`, `%`, `<<`, `>>`
-- and the bit operations, which Python defines on an infinite two's complement.
use Prim.Native.Nat.{ℕ, zero, suc, ◌+◌, ◌-◌, ◌*◌, ◌/◌, ◌%◌, ◌^◌, bit_and, bit_or, bit_xor}
use mathlib.Core.Path.{◌≡◌, refl}
use mathlib.Core.Bool.{Bool, true, false}
use py_vm.Prelude.Tests.{ltb, leb, ◌==◌, if◌then◌else◌}

-- `negsuc n` is -(n + 1).
pub data ℤ : Type 0 where
  pos : ℕ → ℤ
  negsuc : ℕ → ℤ

-- a - b, as an integer.
abbrev pub sub_ℕ : ℕ → ℕ → ℤ
sub_ℕ a b = if leb b a then pos (a - b) else negsuc (b - a - 1)

infixl 65 ◌+ℤ◌
infixl 70 ◌*ℤ◌ ◌%ℤ◌ ◌/ℤ◌
infixl 60 ◌<<ℤ◌ ◌>>ℤ◌
abbrev pub ◌+ℤ◌ : ℤ → ℤ → ℤ
pos a +ℤ pos b = pos (a + b)
pos a +ℤ negsuc b = sub_ℕ a (suc b)
negsuc a +ℤ pos b = sub_ℕ b (suc a)
negsuc a +ℤ negsuc b = negsuc (a + b + 1)

abbrev pub neg_ℕ : ℕ → ℤ
neg_ℕ zero = pos 0
neg_ℕ (suc n) = negsuc n

abbrev pub ◌*ℤ◌ : ℤ → ℤ → ℤ
pos a *ℤ pos b = pos (a * b)
pos a *ℤ negsuc b = neg_ℕ (a * suc b)
negsuc a *ℤ pos b = neg_ℕ (suc a * b)
negsuc a *ℤ negsuc b = pos (suc a * suc b)

-- The remainder by a positive number, which Python takes in the range [0, m).
abbrev pub ◌%ℤ◌ : ℤ → ℕ → ℕ
pos a %ℤ m = a % m
negsuc a %ℤ m = m - 1 - a % m

-- The quotient by a positive number, rounded down.
abbrev pub ◌/ℤ◌ : ℤ → ℕ → ℤ
pos a /ℤ m = pos (a / m)
negsuc a /ℤ m = negsuc (a / m)

abbrev pub ◌<<ℤ◌ : ℤ → ℕ → ℤ
pos a <<ℤ k = pos (a * 2 ^ k)
negsuc a <<ℤ k = negsuc (suc a * 2 ^ k - 1)

abbrev pub ◌>>ℤ◌ : ℤ → ℕ → ℤ
a >>ℤ k = a /ℤ (2 ^ k)

abbrev pub neg_ℤ : ℤ → ℤ
neg_ℤ (pos n) = neg_ℕ n
neg_ℤ (negsuc n) = pos (suc n)

-- Python's `a // b` and `a % b`: the quotient is rounded down, and the remainder has the divisor's
-- sign. The divisor is not 0.
abbrev pub floor_div : ℤ → ℤ → ℤ
floor_div a (pos b) = a /ℤ b
floor_div a (negsuc b) = neg_ℤ a /ℤ suc b

abbrev pub floor_mod : ℤ → ℤ → ℤ
floor_mod a (pos b) = pos (a %ℤ b)
floor_mod a (negsuc b) = neg_ℕ (neg_ℤ a %ℤ suc b)

-- `a < b` and `a == b`
abbrev pub ltb_ℤ : ℤ → ℤ → Bool
ltb_ℤ (pos a) (pos b) = ltb a b
ltb_ℤ (pos a) (negsuc b) = false
ltb_ℤ (negsuc a) (pos b) = true
ltb_ℤ (negsuc a) (negsuc b) = ltb b a

abbrev pub eqb_ℤ : ℤ → ℤ → Bool
eqb_ℤ (pos a) (pos b) = a == b
eqb_ℤ (pos a) (negsuc b) = false
eqb_ℤ (negsuc a) (pos b) = false
eqb_ℤ (negsuc a) (negsuc b) = a == b

-- `negsuc b` is the complement of `b`, so each operation reduces to one on two numbers.
abbrev pub and_not : ℕ → ℕ → ℕ
and_not a b = a - bit_and a b

abbrev pub and_ℤ : ℤ → ℤ → ℤ
and_ℤ (pos a) (pos b) = pos (bit_and a b)
and_ℤ (pos a) (negsuc b) = pos (and_not a b)
and_ℤ (negsuc a) (pos b) = pos (and_not b a)
and_ℤ (negsuc a) (negsuc b) = negsuc (bit_or a b)

abbrev pub or_ℤ : ℤ → ℤ → ℤ
or_ℤ (pos a) (pos b) = pos (bit_or a b)
or_ℤ (pos a) (negsuc b) = negsuc (and_not b a)
or_ℤ (negsuc a) (pos b) = negsuc (and_not a b)
or_ℤ (negsuc a) (negsuc b) = negsuc (bit_and a b)

abbrev pub xor_ℤ : ℤ → ℤ → ℤ
xor_ℤ (pos a) (pos b) = pos (bit_xor a b)
xor_ℤ (pos a) (negsuc b) = negsuc (bit_xor a b)
xor_ℤ (negsuc a) (pos b) = negsuc (bit_xor a b)
xor_ℤ (negsuc a) (negsuc b) = pos (bit_xor a b)

samples :
    (negsuc 6 /ℤ 2 ≡ negsuc 3)
    × (negsuc 6 %ℤ 2 ≡ 1)
    × (and_ℤ (negsuc 0) (pos 255) ≡ pos 255)
    × (negsuc 0 *ℤ pos 7 ≡ negsuc 6)
samples = (refl, refl, refl, refl)
