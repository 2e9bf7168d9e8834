-- ===== src/Outcome.antt =====
-- Python's exceptions, and the result of a method that touches no state of its own.
use py_vm.Prelude.{◌≡◌, refl, Bool, true, false}

-- The exceptions that the modelled code raises, by their Python types.
pub data Exn : Type 0 where
  memory_error assertion_error value_error runtime_error type_error zero_division_error : Exn
  index_error key_error not_implemented_error missing_opcode_error recursion_error : Exn
  overflow_error attribute_error unsupported_operation os_error unicode_error struct_error : Exn
  fp_invalid_arithmetic_operand : Exn

pub data Result (A : Type 0) : Type 0 where
  ok : A → Result A
  err : Exn → Result A

abbrev pub map_result : {A B : Type 0} → (A → B) → Result A → Result B
map_result f (ok a) = ok (f a)
map_result f (err e) = err e

-- Whether a call returned.
abbrev pub returned : {A : Type 0} → Result A → Bool
returned (ok a) = true
returned (err e) = false

pub returned_cases : {A : Type 0} (r : Result A) → returned r ≡ false → (e : Exn) × (r ≡ err e)
returned_cases (ok a) h = cc
returned_cases (err e) h = (e, refl)
