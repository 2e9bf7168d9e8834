-- ===== src/Instructions/Shift/Loop.antt =====
-- VM/instructions/bitwise.py, the loop of `SHIFT`, against multiplication and division by a power
-- of two.
use py_vm.Prelude.{
  ℕ, zero, suc, ◌-◌, ◌*◌, ◌/◌, ◌%◌, ◌^◌, ◌≡◌, sym, ap, ◌∙◌, arith, ℤ, pos, negsuc, ◌>>ℤ◌,
}
use py_vm.Misc.{msb, lsb}
use py_vm.Instructions.Shift.{shl, shr, sar, shift_loop}
use native.Mathlib.Nat.{div-div-eq-div-mul}

bits_of : (d n : ℕ) → d / 2 / 2 ^ n ≡ d / 2 ^ suc n
bits_of d n =
    let e : 2 ^ suc n ≡ 2 * 2 ^ n = omega arith in
    div-div-eq-div-mul d 2 (2 ^ n) ∙ sym (ap (λ x. d / x) e)

shl_value : (sz n d cf : ℕ) → (shift_loop shl sz n (pos d) cf).0 ≡ pos (d * 2 ^ n)
unfolding shift_loop
shl_value sz zero d cf = ground arith
shl_value sz (suc n) d cf = shl_value sz n (d * 2 ^ 1) (msb (pos d) sz) ∙ ap pos (grind arith)

shr_value : (sz n d cf : ℕ) → (shift_loop shr sz n (pos d) cf).0 ≡ pos (d / 2 ^ n)
unfolding shift_loop
shr_value sz zero d cf = ap pos (omega arith)
shr_value sz (suc n) d cf = shr_value sz n (d / 2) (lsb (pos d)) ∙ ap pos (bits_of d n)

shr_carry : (sz n d cf : ℕ) → (shift_loop shr sz (suc n) (pos d) cf).1 ≡ d / 2 ^ n % 2
unfolding shift_loop lsb
shr_carry sz zero d cf = omega arith
shr_carry sz (suc n) d cf = shr_carry sz n (d / 2) (lsb (pos d)) ∙ ap (λ x. x % 2) (bits_of d n)

-- The arithmetic shift of a negative number.
sar_negative : (sz n d cf : ℕ) → (shift_loop sar sz n (negsuc d) cf).0 ≡ negsuc (d / 2 ^ n)
unfolding shift_loop
sar_negative sz zero d cf = ap negsuc (omega arith)
sar_negative sz (suc n) d cf = sar_negative sz n (d / 2) (lsb (negsuc d)) ∙ ap negsuc (bits_of d n)

sar_positive : (sz n d cf : ℕ) → (shift_loop sar sz n (pos d) cf).0 ≡ pos (d / 2 ^ n)
unfolding shift_loop
sar_positive sz zero d cf = ap pos (omega arith)
sar_positive sz (suc n) d cf = sar_positive sz n (d / 2) (lsb (pos d)) ∙ ap pos (bits_of d n)

sar_value : (sz n : ℕ) (d : ℤ) (cf : ℕ) → (shift_loop sar sz n d cf).0 ≡ d >>ℤ n
sar_value sz n (pos d) cf = sar_positive sz n d cf
sar_value sz n (negsuc d) cf = sar_negative sz n d cf

-- The bit that leaves a word on the left in the last of `suc n` rounds.
shl_carry :
    (sz n d cf : ℕ) → (shift_loop shl sz (suc n) (pos d) cf).1 ≡ d * 2 ^ n / 2 ^ (sz * 8 - 1) % 2
unfolding shift_loop msb
shl_carry sz zero d cf = ap (λ x. x / 2 ^ (sz * 8 - 1) % 2) (omega arith)
shl_carry sz (suc n) d cf =
    shl_carry sz n (d * 2 ^ 1) (msb (pos d) sz) ∙ ap (λ x. x / 2 ^ (sz * 8 - 1) % 2) (grind arith)

-- The loop of a shift by `n` multiplies an operand without sign by `2 ^ n` for SHL, divides it by
-- `2 ^ n` for SHR, and divides a signed operand, rounding down, for SAR. After at least one round the
-- carry flag is the last bit that was shifted out: for SHL the sign bit of the operand times
-- `2 ^ (n - 1)`, for SHR bit `n - 1` of the operand.
pub shift_loop_lem :
    (sz n d cf : ℕ) (s : ℤ)
    → ((shift_loop shl sz n (pos d) cf).0 ≡ pos (d * 2 ^ n))
      × ((shift_loop shr sz n (pos d) cf).0 ≡ pos (d / 2 ^ n))
      × ((shift_loop sar sz n s cf).0 ≡ s >>ℤ n)
      × ((shift_loop shl sz (suc n) (pos d) cf).1 ≡ d * 2 ^ n / 2 ^ (sz * 8 - 1) % 2)
      × ((shift_loop shr sz (suc n) (pos d) cf).1 ≡ d / 2 ^ n % 2)
shift_loop_lem sz n d cf s = (
  shl_value sz n d cf,
  shr_value sz n d cf,
  sar_value sz n s cf,
  shl_carry sz n d cf,
  shr_carry sz n d cf,
)
