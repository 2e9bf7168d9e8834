-- ===== src/Stack.antt =====
-- VM/CPU.py: `stack_init`, `stack_push` and `stack_pop`.
pub mod RoundTrip
use py_vm.Prelude.{ℕ, ◌+◌, if◌then◌else◌, ℤ, pos, negsuc, sub_ℕ, ◌+ℤ◌, ltb_ℤ}
use py_vm.Outcome.{runtime_error}
use py_vm.Machine.{Exec, pure, raise, ◌>>=◌, ◌>>◌, gets, get_reg, set_reg, get_mem, set_mem}

abbrev pub esp : ℕ
esp = 4

abbrev pub ebp : ℕ
ebp = 5

unfoldable pub stack_init : Exec (Unit {0})
stack_init = do top ← gets (λ vm. pos vm.mem.size +ℤ negsuc 0); set_reg esp 4 top; set_reg ebp 4 top

unfoldable pub stack_push : ℤ → Exec (Unit {0})
stack_push value = do
  asz ← gets (λ vm. vm.stack_address_size)
  sz ← gets (λ vm. vm.operand_size)
  old_esp ← get_reg esp asz
  let new_esp = sub_ℕ old_esp sz
  brk ← gets (λ vm. vm.mem.program_break)
  if ltb_ℤ new_esp brk
      then raise runtime_error
      else do set_mem new_esp sz value; set_reg esp asz new_esp

unfoldable pub stack_pop : ℕ → Exec ℕ
stack_pop size = do
  asz ← gets (λ vm. vm.stack_address_size)
  old_esp ← get_reg esp asz
  value ← get_mem (pos old_esp) size
  set_reg esp asz (pos (old_esp + size))
  pure value
