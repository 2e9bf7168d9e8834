-- ===== src/Instructions/Floating/Groups.antt =====
-- The opcodes 0xD9, 0xDB, 0xDD and 0xDF, each of which several instructions of
-- VM/instructions/floating.py share: the REG field of the ModRM byte selects one of them.
use py_vm.Prelude.{
  ℕ, ◌/◌, ◌%◌, ◌<◌, ◌≡◌, refl, sym, subst, ap, ◌∙◌, ◌⊎◌, inl, inr, Bool, true, false, Option, none,
  some, List, [], ◌∷◌, arith, ◌==◌, if◌then◌else◌,
}
use py_vm.Outcome.{ok}
use py_vm.Machine.{Machine, done, Exec}
use py_vm.ModRm.{reg_field}
use py_vm.Binary80.{Floats}
use py_vm.Dispatch.{Handler, try_all}
use py_vm.Dispatch.Exclusive.{took, Group, handlers, at_most_one, outcome, IsSorted, try_all-perm}
use py_vm.Instructions.Floating.{selected, fld, fild, fst, fist, fldcw, fstcw}
use py_vm.Instructions.Floating.Table.{register_forms, fpu_table}
use py_vm.Memory
use mathlib.Core.List.{Permᴰ}

abbrev field_is : ℕ → ℕ → Bool
field_is k r = r == k

-- The fields that select each implementation.
module _ (floats : Floats) where
  abbrev pub sorted_d9 : Group
  sorted_d9 =
      (field_is 0, fld floats 32 0)
      ∷ (field_is 2, fst floats 32 2)
      ∷ (field_is 3, fst floats 32 3)
      ∷ (field_is 5, fldcw)
      ∷ (field_is 7, fstcw)
      ∷ []

  abbrev pub sorted_db : Group
  sorted_db =
      (field_is 5, fld floats 80 5)
      ∷ (field_is 0, fild floats true 0)
      ∷ (field_is 7, fst floats 80 7)
      ∷ (field_is 2, fist floats 4 2)
      ∷ (field_is 3, fist floats 4 3)
      ∷ []

  abbrev pub sorted_dd : Group
  sorted_dd =
      (field_is 0, fld floats 64 0)
      ∷ (field_is 2, fst floats 64 2)
      ∷ (field_is 3, fst floats 64 3)
      ∷ []

  abbrev pub sorted_df : Group
  sorted_df =
      (field_is 0, fild floats false 0)
      ∷ (field_is 5, fild floats false 5)
      ∷ (field_is 2, fist floats 2 2)
      ∷ (field_is 3, fist floats 2 3)
      ∷ (field_is 7, fist floats 8 7)
      ∷ []

  -- By the opcode.
  abbrev pub sorted_entry : ℕ → Group
  sorted_entry o =
      if o == 0xd9
      then sorted_d9
      else if o == 0xdb
      then sorted_db
      else if o == 0xdd
      then sorted_dd
      else if o == 0xdf
      then sorted_df
      else []

abbrev elem_or : List Handler → Option (List Handler) → List Handler
elem_or d (some l) = l
elem_or d none = d

-- An implementation that `selected` guards, and the field that it takes.
module _ (vm : Machine) (b : ℕ) (read : Memory.get_eip vm.mem vm.eip 1 ≡ ok b) where
  selected_declines :
      (k : ℕ) (body : Exec Bool) → (reg_field b == k) ≡ false → selected k body vm ≡ done false vm
  selected_declines k body h = ground arith

  module _ (floats : Floats) where
    fld_sorted :
        (bits k : ℕ)
        → (((reg_field b == k) ≡ false) → fld floats bits k vm ≡ done false vm)
          × (((reg_field b == k) ≡ true) → took (fld floats bits k vm) ≡ true)
    unfolding fld
    fld_sorted bits k = (selected_declines k _, λ h. ground arith)

    fild_sorted :
        (w : Bool) (k : ℕ)
        → (((reg_field b == k) ≡ false) → fild floats w k vm ≡ done false vm)
          × (((reg_field b == k) ≡ true) → took (fild floats w k vm) ≡ true)
    unfolding fild
    fild_sorted w k = (selected_declines k _, λ h. ground arith)

    fst_sorted :
        (bits : ℕ) (k : ℕ)
        → (((reg_field b == k) ≡ false) → fst floats bits k vm ≡ done false vm)
          × (((reg_field b == k) ≡ true) → took (fst floats bits k vm) ≡ true)
    unfolding fst
    fst_sorted bits k = (selected_declines k _, λ h. ground arith)

    fist_sorted :
        (size : ℕ) (k : ℕ)
        → (((reg_field b == k) ≡ false) → fist floats size k vm ≡ done false vm)
          × (((reg_field b == k) ≡ true) → took (fist floats size k vm) ≡ true)
    unfolding fist
    fist_sorted size k = (selected_declines k _, λ h. ground arith)

    fldcw_sorted :
        (((reg_field b == 5) ≡ false) → fldcw vm ≡ done false vm)
        × (((reg_field b == 5) ≡ true) → took (fldcw vm) ≡ true)
    unfolding fldcw
    fldcw_sorted = (selected_declines 5 _, λ h. ground arith)

    fstcw_sorted :
        (((reg_field b == 7) ≡ false) → fstcw vm ≡ done false vm)
        × (((reg_field b == 7) ≡ true) → took (fstcw vm) ≡ true)
    unfolding fstcw
    fstcw_sorted = (selected_declines 7 _, λ h. ground arith)

    d9-IsSorted : IsSorted (reg_field b) vm (sorted_d9 floats)
    d9-IsSorted = (
      (fld_sorted 32 0).0,
      (fld_sorted 32 0).1,
      (
        (fst_sorted 32 2).0,
        (fst_sorted 32 2).1,
        (
          (fst_sorted 32 3).0,
          (fst_sorted 32 3).1,
          ((fldcw_sorted).0, (fldcw_sorted).1, ((fstcw_sorted).0, (fstcw_sorted).1, (tt))),
        ),
      ),
    )

    db-IsSorted : IsSorted (reg_field b) vm (sorted_db floats)
    db-IsSorted = (
      (fld_sorted 80 5).0,
      (fld_sorted 80 5).1,
      (
        (fild_sorted true 0).0,
        (fild_sorted true 0).1,
        (
          (fst_sorted 80 7).0,
          (fst_sorted 80 7).1,
          (
            (fist_sorted 4 2).0,
            (fist_sorted 4 2).1,
            ((fist_sorted 4 3).0, (fist_sorted 4 3).1, (tt)),
          ),
        ),
      ),
    )

    dd-IsSorted : IsSorted (reg_field b) vm (sorted_dd floats)
    dd-IsSorted = (
      (fld_sorted 64 0).0,
      (fld_sorted 64 0).1,
      ((fst_sorted 64 2).0, (fst_sorted 64 2).1, ((fst_sorted 64 3).0, (fst_sorted 64 3).1, (tt))),
    )

    df-IsSorted : IsSorted (reg_field b) vm (sorted_df floats)
    df-IsSorted = (
      (fild_sorted false 0).0,
      (fild_sorted false 0).1,
      (
        (fild_sorted false 5).0,
        (fild_sorted false 5).1,
        (
          (fist_sorted 2 2).0,
          (fist_sorted 2 2).1,
          (
            (fist_sorted 2 3).0,
            (fist_sorted 2 3).1,
            ((fist_sorted 8 7).0, (fist_sorted 8 7).1, (tt)),
          ),
        ),
      ),
    )

    one_byte : (k : ℕ) → register_forms 0 k ≡ none
    unfolding register_forms
    one_byte k = refl

    in_order :
        (g : Group) (hs impls : List Handler) (entry : Option (List Handler))
        → entry ≡ some (handlers g)
        → entry ≡ some impls
        → Permᴰ hs impls
        → at_most_one (reg_field b) g ≡ true
        → IsSorted (reg_field b) vm g
        → try_all hs vm ≡ outcome (reg_field b) g vm
    in_order g hs impls entry e f perm one sorted =
        let same : impls ≡ handlers g = ap (elem_or []) (sym f ∙ e) in
        try_all-perm (reg_field b) vm g hs (subst (λ (l : List Handler). Permᴰ hs l) same perm) one
          sorted

    sorted_entry-eq :
        (o : ℕ)
        → o < 256
        → (fpu_table floats o ≡ none)
          ⊎ (fpu_table floats o ≡ some (handlers (sorted_entry floats o)))
    unfolding fpu_table handlers
    sorted_entry-eq o small =
        let high : o / 256 ≡ 0 = omega arith in
        let other : register_forms (o / 256) (o % 256) ≡ none =
          ap (λ (h : ℕ). register_forms h (o % 256)) high ∙ one_byte (o % 256) in
        grind (arith, other)

    sorted_entry-IsSorted : (o : ℕ) → IsSorted (reg_field b) vm (sorted_entry floats o)
    sorted_entry-IsSorted o = choose (o == 0xd9) _ _ d9-IsSorted (
        choose (o == 0xdb) _ _ db-IsSorted
          (choose (o == 0xdd) _ _ dd-IsSorted (choose (o == 0xdf) _ _ df-IsSorted tt)))
      where
        choose :
            (t : Bool) (g h : Group)
            → IsSorted (reg_field b) vm g
            → IsSorted (reg_field b) vm h
            → IsSorted (reg_field b) vm (if t then g else h)
        choose true g h p q = p
        choose false g h p q = q

    sorted_entry-at_most_one : (o r : ℕ) → at_most_one r (sorted_entry floats o) ≡ true
    sorted_entry-at_most_one o r = grind arith

    -- Where the byte behind one of the opcodes of one byte can be read, its implementations may be tried
    -- in any order: the outcome is that of the one which the REG field of the byte selects, and with
    -- another field none takes the instruction and nothing changes. The field alone decides, so an
    -- instruction on registers with the same field is taken as well.
    pub try_all-float_groups :
        (o : ℕ) (hs impls : List Handler)
        → o < 256
        → fpu_table floats o ≡ some impls
        → Permᴰ hs impls
        → try_all hs vm ≡ outcome (reg_field b) (sorted_entry floats o) vm
    try_all-float_groups o hs impls small entry perm = by_entry (sorted_entry-eq o small)
      where
        by_entry :
            (fpu_table floats o ≡ none)
              ⊎ (fpu_table floats o ≡ some (handlers (sorted_entry floats o)))
            → try_all hs vm ≡ outcome (reg_field b) (sorted_entry floats o) vm
        by_entry (inl missing) = cc
        by_entry (inr there) =
            in_order (sorted_entry floats o) hs impls (fpu_table floats o) there entry perm
              (sorted_entry-at_most_one o (reg_field b)) (sorted_entry-IsSorted o)
