-- ===== src/Examples/Numbers.antt =====
-- The theorems on VM/FPU.py and VM/instructions/floating.py at concrete numbers.
use py_vm.Prelude.{
  ℕ, ◌*◌, ◌/◌, ◌^◌, ◌<◌, ◌≡◌, refl, ◌↔◌, ◌⊎◌, true, false, some, List, [], ◌∷◌, arith, ltb, ◌==◌,
  if◌then◌else◌, pos, ◌+ℤ◌, neg_ℕ,
}
use py_vm.Outcome.{ok}
use py_vm.Machine.{Machine, done}
use py_vm.Binary80.{
  Binary80, normalize, is_nan, is_inf, is_inf_signed, gt, lt, from_double, to_double,
}
use py_vm.Binary80.Laws.{to_double-from_double, IsLeading}
use py_vm.Binary80.Arithmetic.{normalize_lem, mul_lem, div_lem}
use py_vm.Binary80.Ordering.{scaled, IsOrdinary, gt-compares}
use py_vm.Fpu.{Fpu, st, pop, initial_fpu}
use py_vm.Dispatch.{Handler, try_all}
use py_vm.Dispatch.Exclusive.{outcome}
use py_vm.Instructions.Floating.{fld, fst, compared, fcom, fldcw, fstcw}
use py_vm.Instructions.Floating.Table.{group_d9, fpu_table}
use py_vm.Instructions.Floating.Groups.{sorted_entry, try_all-float_groups}
use py_vm.Instructions.Floating.Laws.{fcom-compares}
use py_vm.Instructions.Condition.{cond_holds}
use py_vm.Examples.{no_flags, machine, plain_floats}
use py_vm.Binary80
use py_vm.Memory
use mathlib.Core.List.{Permᴰ}

-- 3, and 1.25.
abbrev three : Binary80
three = record { significand = 3 * 2 ^ 62; exponent = 16384; sign = false }

abbrev five_quarters : Binary80
five_quarters = record { significand = 5 * 2 ^ 61; exponent = 16383; sign = false }

three-IsOrdinary : IsOrdinary three
three-IsOrdinary = (refl, omega arith, (omega arith, omega arith))

quarters-IsOrdinary : IsOrdinary five_quarters
quarters-IsOrdinary = (refl, omega arith, (omega arith, omega arith))

to_double-from_double_example : to_double (from_double 4614253070214989087) ≡ 4614253070214989087
to_double-from_double_example = to_double-from_double 4614253070214989087 (omega arith)

normalize_lem_example :
    IsLeading 63 (normalize 63 (pos 7) 40).1
    × ((normalize 63 (pos 7) 40 ≡ (pos 7 +ℤ pos 1, 40 / 2))
        ⊎ ((k : ℕ) × (normalize 63 (pos 7) 40 ≡ (pos 7 +ℤ neg_ℕ k, 40 * 2 ^ k))))
normalize_lem_example = normalize_lem 63 (pos 7) 40 (omega arith) (omega arith)

mul_lem_example :
    (Binary80.mul three five_quarters ≡ (
      if ltb (3 * 2 ^ 62 * (5 * 2 ^ 61)) (2 ^ 127)
      then Binary80.make (3 * 2 ^ 62 * (5 * 2 ^ 61) / 2 ^ 63) (pos 16384) false
      else Binary80.make (3 * 2 ^ 62 * (5 * 2 ^ 61) / 2 ^ 64) (pos 16384 +ℤ pos 1) false))
    × IsLeading 63 (Binary80.mul three five_quarters).significand
mul_lem_example = mul_lem three five_quarters three-IsOrdinary.2 quarters-IsOrdinary.2

div_lem_example : Binary80.div three five_quarters ≡ ok (Binary80.make (2 ^ 63) (pos 16384) false)
div_lem_example =
    div_lem three five_quarters three-IsOrdinary.2 quarters-IsOrdinary.2 (omega arith) (omega arith)

gt-compares_example : (gt three five_quarters ≡ true) ↔ (scaled five_quarters < scaled three)
gt-compares_example =
    gt-compares three five_quarters three-IsOrdinary quarters-IsOrdinary (omega arith)

-- 3 is in ST(0) and 1.25 in ST(1).
abbrev loaded : Fpu
loaded = record initial_fpu {
  data_registers =
      λ i. if i == 2 then three else if i == 3 then five_quarters else initial_fpu.data_registers i;
  top = 2;
}

abbrev float_code : Machine
float_code = record (machine (0xe9 ∷ [])) { fpu = loaded }

-- The flags behind the comparison of 3 with 1.25 are all clear.
abbrev compared_code : Machine
compared_code = record float_code { flags = record no_flags { zf = 0; pf = 0; cf = 0 } }

comparison : fcom 0 1 true float_code ≡ done true compared_code
unfolding fcom st pop compared gt lt Binary80.is_nan Binary80.is_inf_signed Binary80.is_inf
comparison = refl

first_number : st float_code.fpu 0 ≡ ok three
unfolding st
first_number = refl

second_number : st float_code.fpu 1 ≡ ok five_quarters
unfolding st
second_number = refl

fcom-compares_example :
    (cond_holds 7 compared_code.flags ≡ true) ↔ (scaled five_quarters < scaled three)
fcom-compares_example =
    fcom-compares 1 float_code compared_code three five_quarters first_number second_number
      three-IsOrdinary quarters-IsOrdinary (omega arith) comparison

-- A ModRm byte with the field 5: FLDCW.
float_read : Memory.get_eip float_code.mem float_code.eip 1 ≡ ok 0xe9
unfolding Memory.get_eip
float_read = refl

abbrev float_handlers : List Handler
float_handlers = group_d9 plain_floats

float_entry : fpu_table plain_floats 0xd9 ≡ some float_handlers
unfolding fpu_table
float_entry = refl

-- Two of the implementations change places.
abbrev swapped_handlers : List Handler
swapped_handlers =
    fst plain_floats 32 2 ∷ fld plain_floats 32 0 ∷ fst plain_floats 32 3 ∷ fldcw ∷ fstcw ∷ []

handlers_perm : Permᴰ swapped_handlers float_handlers
handlers_perm = Permᴰ.swap refl refl

try_all-float_groups_example :
    try_all swapped_handlers float_code ≡ outcome 5 (sorted_entry plain_floats 0xd9) float_code
try_all-float_groups_example =
    try_all-float_groups float_code 0xe9 float_read plain_floats 0xd9 swapped_handlers
      float_handlers (omega arith) float_entry handlers_perm
