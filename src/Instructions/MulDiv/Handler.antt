-- ===== src/Instructions/MulDiv/Handler.antt =====
-- VM/instructions/math.py, `DIV`, the whole instruction.
use py_vm.Prelude.{
  ℕ, ◌+◌, ◌*◌, ◌/◌, ◌%◌, ◌≤◌, ◌<◌, ◌≡◌, refl, ◌∙◌, ◌⊎◌, inl, inr, Bool, true, false, arith, ◌==◌,
  if◌then◌else◌, pos, eqb_ℤ,
}
use py_vm.Bytes.{Buffer}
use py_vm.Outcome.{runtime_error, zero_division_error, ok}
use py_vm.Misc.{maxval, modulus}
use py_vm.Misc.Laws.{IsSize}
use py_vm.Machine.{Machine, done, raised, Exec, pure, raise, ◌>>=◌, >>=-done, lift}
use py_vm.Registers.Laws.{
  reg_stored, get-reg_stored, first_byte, reg_stored_outside, get-reg_stored_ne,
}
use py_vm.ModRm.{Place, get_place, reg_field, process_modrm}
use py_vm.Instructions.MulDiv.{dividend_of, divisor_of, divide, div}
use py_vm.Instructions.MulDiv.Division.{
  high_register, divided, range, rest_range, divides, apart, too_large,
}
use py_vm.Memory
use py_vm.Registers

-- `a` is the number in AX, DX:AX or EDX:EAX.
abbrev pub IsDividend : ℕ → Buffer → ℕ → Type 0
IsDividend sz reg a =
    ((sz ≡ 1) × (Registers.get reg 0 2 ≡ ok a))
    ⊎ (((sz == 1) ≡ false)
        × ((high : ℕ) × (low : ℕ) × (Registers.get reg 2 sz ≡ ok high)
            × (Registers.get reg 0 sz ≡ ok low)
            × (a ≡ high * modulus sz + low)))

dividend_lem : (sz a : ℕ) (vm : Machine) → IsDividend sz vm.reg a → dividend_of sz vm ≡ done a vm
dividend_lem sz a vm (inl (one, r)) = rw one (ground (arith, r))
dividend_lem sz a vm (inr (wide, (h, l, x, y, e))) = ground (arith, wide, x, y, e)

module _ (bits8 : Bool) (vm vm' : Machine) (place : Place) (modrm a b sz : ℕ)
    (read : Memory.get_eip vm.mem vm.eip 1 ≡ ok modrm)
    (decoded : process_modrm vm ≡ done (place, reg_field modrm) vm')
    (width : (if bits8 then 1 else vm.operand_size) ≡ sz)
    (divisor : get_place place sz vm' ≡ done b vm') where
  -- Behind the decoding.
  abbrev rest : Exec Bool
  rest =
      if eqb_ℤ (pos b) (pos 0)
      then raise zero_division_error
      else (dividend_of sz >>= λ dividend. divide sz (pos dividend) (pos b))

  first_read : lift (λ vm. Memory.get_eip vm.mem vm.eip 1) vm ≡ done modrm vm
  first_read = rw (lift, read) refl

  declines : (reg_field modrm == 6) ≡ false → div bits8 6 vm ≡ done false vm
  unfolding div
  declines other =
      >>=-done (lift (λ vm. Memory.get_eip vm.mem vm.eip 1)) _ {vm = vm} first_read ∙ rw other refl

  divisor_read : divisor_of false place sz vm' ≡ done (pos b) vm'
  divisor_read = >>=-done (get_place place sz) (λ d. pure (pos d)) {vm = vm'} divisor

  decoded_div : (reg_field modrm == 6) ≡ true → div bits8 6 vm ≡ rest vm'
  unfolding div
  decoded_div this =
      >>=-done (lift (λ vm. Memory.get_eip vm.mem vm.eip 1)) _ {vm = vm} first_read
      ∙ rw (this, width)
          (>>=-done process_modrm _ {vm = vm} decoded
            ∙ >>=-done (divisor_of false place sz) _ {vm = vm'} divisor_read)

  by_zero : (reg_field modrm == 6) ≡ true → b ≡ 0 → div bits8 6 vm ≡ raised zero_division_error vm'
  by_zero this none_left = decoded_div this ∙ ground arith

  divided_by :
      (reg_field modrm == 6) ≡ true
      → 0 < b
      → IsDividend sz vm'.reg a
      → div bits8 6 vm ≡ divide sz (pos a) (pos b) vm'
  divided_by this positive dividend =
      let proper : eqb_ℤ (pos b) (pos 0) ≡ false = ground arith in
      decoded_div this
      ∙ rw proper (
          >>=-done (dividend_of sz) (λ d. divide sz (pos d) (pos b)) {vm = vm'}
            (dividend_lem sz a vm' dividend))

-- The registers of the quotient and the remainder, and all that is as before.
abbrev pub IsDivided : ℕ → ℕ → ℕ → Machine → Machine → Type 0
IsDivided sz q r vm' vm'' =
    (Registers.get vm''.reg 0 sz ≡ ok q)
    × (Registers.get vm''.reg (high_register sz) sz ≡ ok r)
    × (vm'' ≡ record vm' { reg = vm''.reg })
    × ((j : ℕ)
        → sz ≤ j
        → (j < first_byte (high_register sz) sz) ⊎ (first_byte (high_register sz) sz + sz ≤ j)
        → vm''.reg j ≡ vm'.reg j)

lowest : (sz : ℕ) → first_byte 0 sz ≡ 0
unfolding first_byte
lowest sz = ground arith

divided-IsDivided :
    (sz a b : ℕ) (vm' : Machine)
    → IsSize sz
    → 0 < b
    → b < modulus sz
    → a / b ≤ maxval sz
    → IsDivided sz (a / b) (a % b) vm' (divided sz (a / b) (a % b) vm')
divided-IsDivided sz a b vm' h p q r = (
  get-reg_stored_ne (reg_stored vm'.reg 0 sz (a / b)) (high_register sz) 0 sz sz (a % b) h h
        (inl (apart sz h))
      ∙ get-reg_stored vm'.reg 0 sz (a / b) h (range sz (a / b) r),
  get-reg_stored (reg_stored vm'.reg 0 sz (a / b)) (high_register sz) sz (a % b) h
      (rest_range sz a b p q),
  refl,
  (λ j low out.
      reg_stored_outside (reg_stored vm'.reg 0 sz (a / b)) (high_register sz) sz (a % b) j h out
      ∙ reg_stored_outside vm'.reg 0 sz (a / b) j h
          (inr (let z = lowest sz in omega (arith, z, low)))),
)

-- DIV of every operand size, where `modrm` is the byte at EIP, the operands decode to a place that
-- holds `b`, and AX, DX:AX or EDX:EAX holds `a`: with another REG field than 6 it declines and changes
-- nothing. Otherwise it raises a ZeroDivisionError where `b` is 0, and a RuntimeError where the quotient is
-- too large for the operand size, each with no change behind the decoding. Else it puts the
-- quotient into AL, AX or EAX and the remainder into AH, DX or EDX, where both can be read, and changes
-- nothing else behind the decoding.
pub div_instruction :
    (bits8 : Bool) (vm vm' : Machine) (place : Place) (modrm a b sz : ℕ)
    → Memory.get_eip vm.mem vm.eip 1 ≡ ok modrm
    → process_modrm vm ≡ done (place, reg_field modrm) vm'
    → (if bits8 then 1 else vm.operand_size) ≡ sz
    → IsSize sz
    → get_place place sz vm' ≡ done b vm'
    → b < modulus sz
    → IsDividend sz vm'.reg a
    → ((reg_field modrm == 6) ≡ false → div bits8 6 vm ≡ done false vm)
      × ((reg_field modrm == 6) ≡ true
          → (b ≡ 0 → div bits8 6 vm ≡ raised zero_division_error vm')
            × (0 < b → maxval sz < a / b → div bits8 6 vm ≡ raised runtime_error vm')
            × (0 < b
                → a / b ≤ maxval sz
                → (vm'' : Machine) × (div bits8 6 vm ≡ done true vm'')
                  × IsDivided sz (a / b) (a % b) vm' vm''))
div_instruction bits8 vm vm' place modrm a b sz read decoded width h divisor q dividend = (
  declines bits8 vm vm' place modrm a b sz read decoded width divisor,
  λ this. (
    by_zero bits8 vm vm' place modrm a b sz read decoded width divisor this,
    (λ p big.
        divided_by bits8 vm vm' place modrm a b sz read decoded width divisor this p dividend
        ∙ too_large sz a b vm' big),
    (λ p r. (
      divided sz (a / b) (a % b) vm',
      divided_by bits8 vm vm' place modrm a b sz read decoded width divisor this p dividend
          ∙ divides sz a b vm' h p q r,
      divided-IsDivided sz a b vm' h p q r,
    )),
  ),
)
