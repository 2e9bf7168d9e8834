-- ===== src/Instructions/Jump.antt =====
-- VM/instructions/control.py, `JMP`, `SETcc` and `CMOVCC`.
pub mod Branch
use py_vm.Prelude.{
  ℕ, ◌%◌, Bool, true, false, not, ltb, ◌==◌, if◌then◌else◌, bit, pos, ◌+ℤ◌, ◌%ℤ◌, ltb_ℤ,
}
use py_vm.Outcome.{assertion_error, type_error}
use py_vm.Misc.{modulus}
use py_vm.Machine.{
  Exec, pure, raise, ◌>>=◌, ◌>>◌, gets, get_reg, set_reg, get_mem, set_eip, fetch_data_signed,
  operand_width,
}
use py_vm.ModRm.{Place, get_place, set_place, process_modrm}
use py_vm.Instructions.Condition.{cond_holds}

-- The second parameter of `rel`: _JMP, JCXZ or an entry of JUMPS.
pub data Jump : Type 0 where
  always if_zero : Jump
  on : ℕ → Jump

-- `eval(jump)`; JCXZ is `not vm.reg.get(0, sz)`.
abbrev pub jump_taken : Jump → ℕ → Exec Bool
jump_taken always sz = pure true
jump_taken if_zero sz = do x ← get_reg 0 sz; pure (x == 0)
jump_taken (on cc) sz = gets (λ vm. cond_holds cc vm.flags)

unfoldable pub jump_rel : Bool → Jump → Exec Bool
unfolding fetch_data_signed
jump_rel bits8 jump = do
  sz ← operand_width bits8
  d ← fetch_data_signed sz
  taken ← jump_taken jump sz
  if not taken then pure true else do
    target ← gets (λ vm. vm.eip +ℤ d)
    osz ← gets (λ vm. vm.operand_size)
    let target' = if osz == 2 then pos (target %ℤ modulus osz) else target
    limit ← gets (λ vm. pos vm.mem.size)
    if ltb_ℤ target' limit then (do set_eip target'; pure true) else raise assertion_error

-- `jmp r/m`: the register is set before the assertion.
abbrev jump_to : Place → ℕ → Exec Bool
jump_to rm asz = do
  target ← get_place rm asz
  set_eip (pos (target % modulus asz))
  limit ← gets (λ vm. vm.mem.size)
  if ltb (target % modulus asz) limit then pure true else raise assertion_error

-- `jmp m`: `to_int` is given an `int` and raises.
abbrev far_jump : ℕ → Exec Bool
far_jump asz = do e ← gets (λ vm. vm.eip); selector_address ← get_mem e asz; raise type_error

unfoldable pub jump_rm : Exec Bool
jump_rm = do
  old_eip ← gets (λ vm. vm.eip)
  (rm, r) ← process_modrm
  asz ← gets (λ vm. vm.address_size)
  if r == 4
      then jump_to rm asz
      else if r == 5
      then far_jump asz
      else (do set_eip old_eip; pure false)

-- The table binds `_8bit`, which `ptr` does not take.
unfoldable pub jump_ptr : Exec Bool
jump_ptr = raise type_error

unfoldable pub setcc : ℕ → Exec Bool
setcc cc = do
  (rm, r) ← process_modrm
  byte ← gets (λ vm. bit (cond_holds cc vm.flags))
  set_place rm 1 (pos byte)
  pure true

unfoldable pub cmovcc : ℕ → Exec Bool
cmovcc cc = do
  sz ← gets (λ vm. vm.operand_size)
  (rm, r) ← process_modrm
  holds ← gets (λ vm. cond_holds cc vm.flags)
  if not holds then pure true else do value ← get_place rm sz; set_reg r sz (pos value); pure true
