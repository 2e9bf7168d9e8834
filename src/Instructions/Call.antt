-- ===== src/Instructions/Call.antt =====
-- VM/instructions/control.py, `CALL`, `RET`, `ENTER` and `LEAVE`. The far forms are mocks that
-- return False.
pub mod Return
use py_vm.Prelude.{◌+◌, ◌%◌, Bool, true, false, not, ◌==◌, if◌then◌else◌, pos, sub_ℕ, ◌+ℤ◌, ltb_ℤ}
use py_vm.Outcome.{runtime_error, type_error}
use py_vm.Misc.{modulus, to_signed}
use py_vm.Machine.{
  Exec, pure, raise, ◌>>=◌, ◌>>◌, gets, lift, get_reg, set_reg, get_mem, set_eip, fetch,
  fetch_data_signed,
}
use py_vm.Stack.{esp, ebp, stack_push, stack_pop}
use py_vm.ModRm.{get_place, process_modrm}
use py_vm.Memory

unfoldable pub call_rm : Exec Bool
call_rm = do
  old_eip ← gets (λ vm. vm.eip)
  sz ← gets (λ vm. vm.operand_size)
  (rm, r) ← process_modrm
  if not (r == 2) then (do set_eip old_eip; pure false) else do
    value ← get_place rm sz
    e ← gets (λ vm. vm.eip)
    stack_push e
    set_eip (pos (value % modulus sz))
    pure true

unfoldable pub call_rel : Exec Bool
call_rel = do
  sz ← gets (λ vm. vm.operand_size)
  dest ← fetch_data_signed sz
  e ← gets (λ vm. vm.eip)
  stack_push e
  set_eip (e +ℤ dest)
  pure true

unfoldable pub ret_near : Exec Bool
unfolding to_signed
ret_near = do
  sz ← gets (λ vm. vm.operand_size)
  e ← stack_pop sz
  set_eip (to_signed (pos e) sz)
  pure true

unfoldable pub ret_near_imm : Exec Bool
unfolding to_signed
ret_near_imm = do
  sz ← gets (λ vm. vm.operand_size)
  e ← gets (λ vm. vm.eip)
  imm ← get_mem e 2
  target ← stack_pop sz
  set_eip (to_signed (pos target) sz)
  asz ← gets (λ vm. vm.stack_address_size)
  top ← get_reg esp asz
  set_reg esp asz (pos (top + imm))
  pure true

-- `stack_push` of a `bytes` value: its checks, and then the TypeError of `val & ...`.
unfoldable pub push_bytes : Exec (Unit {0})
push_bytes = do
  asz ← gets (λ vm. vm.stack_address_size)
  sz ← gets (λ vm. vm.operand_size)
  old_esp ← get_reg esp asz
  brk ← gets (λ vm. vm.mem.program_break)
  if ltb_ℤ (sub_ℕ old_esp sz) brk
      then raise runtime_error
      else do address ← lift (λ vm. Memory.asan vm.mem (sub_ℕ old_esp sz) sz); raise type_error

unfoldable pub enter : Exec Bool
enter = do
  alloc_size ← fetch 2
  level ← fetch 1
  sz ← gets (λ vm. vm.operand_size)
  frame ← get_reg ebp sz
  stack_push (pos frame)
  frame_temp ← get_reg esp sz
  if level % 32 == 0 then pure tt else if level % 32 == 1 then push_bytes else raise runtime_error
  set_reg ebp 4 (pos (frame_temp % modulus sz))
  top ← get_reg esp sz
  set_reg esp 4 (sub_ℕ top alloc_size)
  pure true

unfoldable pub leave : Exec Bool
leave = do
  asz ← gets (λ vm. vm.address_size)
  sz ← gets (λ vm. vm.operand_size)
  frame ← get_reg ebp asz
  set_reg esp asz (pos frame)
  value ← stack_pop sz
  set_reg ebp sz (pos value)
  pure true
