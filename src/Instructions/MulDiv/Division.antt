-- ===== src/Instructions/MulDiv/Division.antt =====
-- VM/instructions/math.py, the end of `DIV`: where the quotient and the remainder go.
use py_vm.Prelude.{ℕ, ◌+◌, ◌/◌, ◌%◌, ◌≤◌, ◌<◌, ◌≡◌, true, arith, ◌==◌, if◌then◌else◌, ℤ, pos, ◌%ℤ◌}
use py_vm.Bytes.{Buffer}
use py_vm.Outcome.{runtime_error, ok}
use py_vm.Misc.{maxval, modulus}
use py_vm.Misc.Laws.{IsSize, by_size}
use py_vm.Machine.{Machine, done, raised}
use py_vm.Registers.Laws.{reg_stored, reg_set_lem, first_byte}
use py_vm.Instructions.MulDiv.{divide}
use py_vm.Registers

-- EDX, DX or AH.
abbrev pub high_register : ℕ → ℕ
high_register sz = if sz == 1 then 4 else 2

-- The machine behind a division.
abbrev pub divided : ℕ → ℕ → ℕ → Machine → Machine
divided sz q r vm = record vm {
  reg = reg_stored (reg_stored vm.reg 0 sz q) (high_register sz) sz r;
}

small : (sz n : ℕ) → n < modulus sz → n % modulus sz ≡ n
small sz n h = ground arith

pub range : (sz q : ℕ) → q ≤ maxval sz → q < modulus sz
range sz q h = ground arith

pub rest_range : (sz a b : ℕ) → 0 < b → b < modulus sz → a % b < modulus sz
rest_range sz a b p h = omega arith

high_write :
    (sz : ℕ) (reg : Buffer) (v : ℤ)
    → IsSize sz
    → Registers.set reg (high_register sz) sz v
      ≡ ok (reg_stored reg (high_register sz) sz (v %ℤ modulus sz))
high_write sz reg v h = reg_set_lem reg (high_register sz) sz v h

pub divides :
    (sz a b : ℕ) (vm : Machine)
    → IsSize sz
    → 0 < b
    → b < modulus sz
    → a / b ≤ maxval sz
    → divide sz (pos a) (pos b) vm ≡ done true (divided sz (a / b) (a % b) vm)
unfolding divide
divides sz a b vm h p q r =
    let s1 = small sz (a / b) (range sz (a / b) r) in
    let s2 = small sz (a % b) (rest_range sz a b p q) in
    let w1 = reg_set_lem vm.reg 0 sz (pos (a / b)) h in
    let w2 = high_write sz (reg_stored vm.reg 0 sz (a / b)) (pos (a % b)) h in
    ground (arith, s1, s2, w1, w2)

pub apart : (sz : ℕ) → IsSize sz → first_byte 0 sz + sz ≤ first_byte (high_register sz) sz
unfolding first_byte
apart sz h =
    by_size (λ s. first_byte 0 s + s ≤ first_byte (high_register s) s) (ground arith) (ground arith)
      (ground arith) h

pub too_large :
    (sz a b : ℕ) (vm : Machine)
    → maxval sz < a / b
    → divide sz (pos a) (pos b) vm ≡ raised runtime_error vm
unfolding divide
too_large sz a b vm h = ground arith
