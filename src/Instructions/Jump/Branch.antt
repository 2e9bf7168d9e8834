-- ===== src/Instructions/Jump/Branch.antt =====
-- VM/instructions/control.py, a conditional jump behind the flags of a comparison.
use py_vm.Prelude.{
  ℕ, ◌+◌, ◌*◌, ◌<◌, ◌≡◌, ap₂, ◌∙◌, inl, inr, true, false, arith, if◌then◌else◌, Bool-cases, ℤ, pos,
  ◌+ℤ◌, ltb_ℤ,
}
use py_vm.Outcome.{ok}
use py_vm.Misc.{modulus}
use py_vm.Misc.Laws.{IsSize}
use py_vm.Machine.{Machine, done, fetch_data_signed}
use py_vm.Instructions.AddSub.{addsub_flags}
use py_vm.Instructions.Compare.{compares, IsComparison, cond_holds-compares}
use py_vm.Instructions.Condition.{cond_holds}
use py_vm.Instructions.Jump.{on, jump_rel}
use py_vm.Memory
use py_vm.Registers.{Flags}

module _ (vm : Machine) (o cc sz : ℕ) (d : ℤ) (w : vm.operand_size ≡ 4) (at : vm.eip ≡ pos o)
    (read : Memory.get_signed vm.mem (pos o) 1 ≡ ok d) where
  not_taken :
      cond_holds cc vm.flags ≡ false
      → jump_rel true (on cc) vm ≡ done true (record vm { eip = pos (o + 1) })
  unfolding jump_rel fetch_data_signed
  not_taken h = ground arith

  taken :
      cond_holds cc vm.flags ≡ true
      → ltb_ℤ (pos (o + 1) +ℤ d) (pos vm.mem.size) ≡ true
      → jump_rel true (on cc) vm ≡ done true (record vm { eip = pos (o + 1) +ℤ d })
  unfolding jump_rel fetch_data_signed
  taken h k = ground arith

  -- With operands of 32 bits, and where the flags are those of the comparison of the words `a` and `b`,
  -- the short jumps JB, JZ, JBE,
  -- JL and JLE go to the displacement from the byte behind it exactly when the comparison holds, and
  -- to that byte otherwise, if the target lies below the size of the memory.
  pub jump_rel-compares :
      (a b n : ℕ) (f : Flags)
      → IsSize sz
      → a < modulus sz
      → b < modulus sz
      → IsComparison n
      → cc ≡ 2 * n
      → vm.flags ≡ addsub_flags true sz a b f
      → ltb_ℤ (pos (o + 1) +ℤ d) (pos vm.mem.size) ≡ true
      → jump_rel true (on cc) vm
        ≡ done true
            (record vm { eip = (if compares n sz a b then pos (o + 1) +ℤ d else pos (o + 1)) })
  jump_rel-compares a b n f h p q k c fl target = elim (Bool-cases (compares n sz a b)) [
    | inl y ↦ rw y (taken (held ∙ y) target)
    | inr m ↦ rw m (not_taken (held ∙ m))
  ]
    where
      held : cond_holds cc vm.flags ≡ compares n sz a b
      held = ap₂ cond_holds c fl ∙ (cond_holds-compares sz a b n f h p q k).0
