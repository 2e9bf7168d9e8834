-- ===== src/Examples/Control.antt =====
-- The theorems on the opcode table, the jumps and VM/fetchLoop.py at concrete inputs.
use py_vm.Prelude.{
  ℕ, suc, ◌+◌, ◌≡◌, refl, inl, inr, true, false, List, [], ◌∷◌, arith, if◌then◌else◌, pos, ◌+ℤ◌,
}
use py_vm.Outcome.{ok}
use py_vm.Machine.{Machine, done, fetch}
use py_vm.ModRm.{in_reg, operands, process_modrm}
use py_vm.Instructions.AddSub.{addsub_flags}
use py_vm.Instructions.Compare.{compares}
use py_vm.Instructions.Jump.{on, jump_rel}
use py_vm.Instructions.Jump.Branch.{jump_rel-compares}
use py_vm.Instructions.MulDiv.{mul, div, imul_rm}
use py_vm.Instructions.Bitwise.{op_and, logic_rm_imm, neg_not_rm}
use py_vm.Dispatch.{Handler, try_all, group_unary}
use py_vm.Dispatch.Exclusive.{outcome}
use py_vm.Dispatch.Groups.{unary_group, try_all-unary_group}
use py_vm.FetchLoop.{read_prefixes, apply_overrides, undo_overrides}
use py_vm.FetchLoop.Prefixes.{
  HasDefaults, undo_overrides-apply_overrides, ran_out, read_prefixes_enough,
}
use py_vm.Examples.{no_flags, machine}
use py_vm.Memory
use mathlib.Core.List.{Permᴰ}

-- A ModRm byte with the register 1 as the operand and the given field: here 5.
abbrev code : Machine
code = machine (0xe9 ∷ [])

code_read : Memory.get_eip code.mem (pos 0) 1 ≡ ok 0xe9
unfolding Memory.get_eip
code_read = refl

code_decoded : process_modrm code ≡ done (in_reg 1, 5) (record code { eip = pos 1 })
unfolding process_modrm operands fetch Memory.get_eip
code_decoded = refl

abbrev unary : List Handler
unary =
    neg_not_rm false 3
    ∷ logic_rm_imm false false op_and true 0
    ∷ neg_not_rm false 2
    ∷ mul false
    ∷ div false 6
    ∷ div false 7
    ∷ imul_rm false
    ∷ []

unary_perm : Permᴰ unary (group_unary false)
unary_perm = Permᴰ.swap refl refl

try_all-unary_group_example : try_all unary code ≡ outcome 5 (unary_group false) code
try_all-unary_group_example =
    try_all-unary_group code (record code { eip = pos 1 }) 0 0xe9 5 (in_reg 1) refl code_read
      code_decoded false unary unary_perm

-- `jl +16` behind the comparison of the bytes 200 and 100.
abbrev branch : Machine
branch = record (machine (0x7c ∷ 16 ∷ [])) {
  eip = pos 1;
  flags = addsub_flags true 1 200 100 no_flags;
}

branch_read : Memory.get_signed branch.mem (pos 1) 1 ≡ ok (pos 16)
unfolding Memory.get_signed
branch_read = refl

jump_rel-compares_example :
    jump_rel true (on 12) branch
    ≡ done true (record branch {
      eip = (if compares 6 1 200 100 then pos (1 + 1) +ℤ pos 16 else pos (1 + 1));
    })
jump_rel-compares_example =
    jump_rel-compares branch 1 12 1 (pos 16) refl refl branch_read 200 100 6 no_flags (inl refl)
      (omega arith) (omega arith) (inr (inr (inr (inl refl)))) refl refl refl

read_prefixes_enough_example : ran_out (read_prefixes (suc branch.mem.size) [] branch) ≡ false
read_prefixes_enough_example = read_prefixes_enough branch 1 [] refl

-- The prefixes 0x66 and 0x67.
abbrev sizes : List ℕ
sizes = 0x66 ∷ 0x67 ∷ []

abbrev narrowed : Machine
narrowed = record (machine []) { current_mode = 1; operand_size = 2; address_size = 2 }

narrowing : apply_overrides false sizes (machine []) ≡ done tt narrowed
unfolding apply_overrides
narrowing = refl

widening : undo_overrides sizes narrowed ≡ done tt (machine [])
unfolding undo_overrides
widening = refl

undo_overrides-apply_overrides_example : HasDefaults (machine [])
undo_overrides-apply_overrides_example =
    undo_overrides-apply_overrides sizes (machine []) narrowed narrowed (machine [])
      (refl, refl, refl) narrowing (refl, refl, refl) widening
