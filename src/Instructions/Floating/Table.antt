-- ===== src/Instructions/Floating/Table.antt =====
-- The `opcodes` of the classes of VM/instructions/floating.py.
use py_vm.Prelude.{
  ℕ, ◌/◌, ◌%◌, true, false, ◌&&◌, Option, none, some, List, [], ◌∷◌, ◌==◌, if◌then◌else◌,
}
use py_vm.Binary80.{Floats}
use py_vm.Dispatch.{Handler, declined}
use py_vm.Instructions.Floating.{
  fld, fild, fst, fist, fmulp, faddp, fdiv, fdivp, fucom, fcom, fldcw, fstcw, fxch,
}

-- FSTCW with a wait prefix, the register forms of FLD and FST, which are mocks that return False, and
-- the instructions on registers, by the second byte.
unfoldable pub register_forms : ℕ → ℕ → Option (List Handler)
register_forms o k =
    if o == 0xd8 && (k / 8 == 30)
    then some (fdiv (k % 8) true ∷ [])
    else if o == 0xd9 && (k / 8 == 24)
    then some (declined ∷ [])
    else if o == 0xd9 && (k / 8 == 25)
    then some (fxch (k % 8) ∷ [])
    else if o == 0xda && (k == 233)
    then some (fucom 2 1 false ∷ [])
    else if o == 0xdb && (k / 8 == 29)
    then some (fucom 0 (k % 8) true ∷ [])
    else if o == 0xdb && (k / 8 == 30)
    then some (fcom 0 (k % 8) true ∷ [])
    else if o == 0xdc && (k / 8 == 31)
    then some (fdiv (k % 8) false ∷ [])
    else if o == 0xdd && (k / 8 == 26)
    then some (declined ∷ [])
    else if o == 0xdd && (k / 8 == 27)
    then some (declined ∷ [])
    else if o == 0xdd && (k / 8 == 29)
    then some (fucom 1 (k % 8) false ∷ [])
    else if o == 0xde && (k / 8 == 24)
    then some (faddp (k % 8) ∷ [])
    else if o == 0xde && (k / 8 == 25)
    then some (fmulp (k % 8) ∷ [])
    else if o == 0xde && (k / 8 == 31)
    then some (fdivp (k % 8) ∷ [])
    else if o == 0xdf && (k / 8 == 29)
    then some (fucom 1 (k % 8) true ∷ [])
    else if o == 0xdf && (k / 8 == 30)
    then some (fcom 1 (k % 8) true ∷ [])
    else if o == 0xd0 && (k / 8 == 28)
    then some (fucom 0 (k % 8) false ∷ [])
    else if o == 0x9b && (k == 0xd9)
    then some (fstcw ∷ [])
    else none

module _ (floats : Floats) where
  -- The entries 0xD9, 0xDB, 0xDD and 0xDF.
  abbrev pub group_d9 : List Handler
  group_d9 = fld floats 32 0 ∷ fst floats 32 2 ∷ fst floats 32 3 ∷ fldcw ∷ fstcw ∷ []

  abbrev pub group_db : List Handler
  group_db =
      fld floats 80 5
      ∷ fild floats true 0
      ∷ fst floats 80 7
      ∷ fist floats 4 2
      ∷ fist floats 4 3
      ∷ []

  abbrev pub group_dd : List Handler
  group_dd = fld floats 64 0 ∷ fst floats 64 2 ∷ fst floats 64 3 ∷ []

  abbrev pub group_df : List Handler
  group_df =
      fild floats false 0
      ∷ fild floats false 5
      ∷ fist floats 2 2
      ∷ fist floats 2 3
      ∷ fist floats 8 7
      ∷ []

  unfoldable pub fpu_table : ℕ → Option (List Handler)
  unfolding register_forms
  fpu_table o =
      if o == 0xd9
      then some group_d9
      else if o == 0xdb
      then some group_db
      else if o == 0xdd
      then some group_dd
      else if o == 0xdf
      then some group_df
      else register_forms (o / 256) (o % 256)
