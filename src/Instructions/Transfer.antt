-- ===== src/Instructions/Transfer.antt =====
-- VM/instructions/memory.py, the stack, the string move and the bit scan: `PUSH`, `POP`, `PUSHF`,
-- `POPF`, `PUSHA`, `POPA`, `MOVS`, `BitScan`, and VM/instructions/repeatables.py `STOS`.
pub mod Scan
use py_vm.Prelude.{
  ℕ, zero, suc, ◌+◌, ◌*◌, ◌/◌, ◌%◌, Bool, true, false, not, List, [], ◌∷◌, ltb, ◌==◌, if◌then◌else◌,
  pos, sub_ℕ, ◌%ℤ◌, ltb_ℤ,
}
use py_vm.Outcome.{runtime_error, type_error, index_error, not_implemented_error}
use py_vm.Misc.{modulus}
use py_vm.Machine.{
  Exec, pure, raise, ◌>>=◌, ◌>>◌, gets, get_reg, set_reg, get_mem, set_mem, set_eip, set_flags,
  fetch, fetch_signed, operand_width, set_segment_override, segment_override,
}
use py_vm.Stack.{esp, stack_push, stack_pop}
use py_vm.ModRm.{Place, in_reg, in_mem, get_place, process_modrm}

unfoldable pub push_r : Exec Bool
push_r = do
  sz ← gets (λ vm. vm.operand_size)
  loc ← gets (λ vm. vm.opcode % 8)
  value ← get_reg loc sz
  stack_push (pos value)
  pure true

unfoldable pub push_rm : Exec Bool
push_rm = do
  old_eip ← gets (λ vm. vm.eip)
  sz ← gets (λ vm. vm.operand_size)
  (rm, r) ← process_modrm
  if not (r == 6)
      then (do set_eip old_eip; pure false)
      else do value ← get_place rm sz; stack_push (pos value); pure true

-- The third argument of `get_eip` is `sz < vm.operand_size`.
unfoldable pub push_imm : Bool → Exec Bool
push_imm bits8 = do
  sz ← operand_width bits8
  osz ← gets (λ vm. vm.operand_size)
  value ← (if ltb sz osz then fetch_signed sz else (do v ← fetch sz; pure (pos v)))
  stack_push value
  pure true

unfoldable pub push_sreg : Exec Bool
push_sreg = pure false

-- A bare `raise` with no active exception is a RuntimeError.
unfoldable pub pushf : Exec Bool
pushf = raise runtime_error

unfoldable pub popf : Exec Bool
popf = raise runtime_error

-- `for reg in regs: vm.stack_push(vm.reg.get(reg, vm.operand_size))`
unfoldable pub push_all : List ℕ → Exec (Unit {0})
push_all [] = pure tt
push_all (r ∷ rs) = do
  sz ← gets (λ vm. vm.operand_size)
  value ← get_reg r sz
  stack_push (pos value)
  push_all rs

unfoldable pub pusha : Exec Bool
unfolding push_all
pusha = do
  sz ← gets (λ vm. vm.operand_size)
  temp ← get_reg esp sz
  push_all (0 ∷ 1 ∷ 2 ∷ 3 ∷ [])
  stack_push (pos temp)
  push_all (5 ∷ 6 ∷ 7 ∷ [])
  pure true

-- The first `reg.set` is called without a value, after the pop.
unfoldable pub popa : Exec Bool
popa = do sz ← gets (λ vm. vm.operand_size); value ← stack_pop sz; raise type_error

unfoldable pub pop_r : Exec Bool
pop_r = do
  sz ← gets (λ vm. vm.operand_size)
  loc ← gets (λ vm. vm.opcode % 8)
  value ← stack_pop sz
  set_reg loc sz (pos value)
  pure true

-- `process_ModRM` takes no sizes, so the call with two of them raises.
unfoldable pub pop_rm : Exec Bool
pop_rm = raise type_error

unfoldable pub pop_sreg : Exec Bool
pop_sreg = raise not_implemented_error

-- `x += sz` or `x -= sz` by the direction flag, and `x &= MAXVALS[vm.address_size]`.
abbrev pub advance : ℕ → ℕ → ℕ → ℕ → ℕ
advance df sz asz x = if df == 0 then (x + sz) % modulus asz else sub_ℕ x sz %ℤ modulus asz

-- The numbers of ES and DS.
abbrev pub es : ℕ
es = 0

abbrev pub ds : ℕ
ds = 3

unfoldable pub movs : Bool → Exec Bool
unfolding set_segment_override
movs bits8 = do
  sz ← operand_width bits8
  asz ← gets (λ vm. vm.address_size)
  esi ← get_reg 6 asz
  edi ← get_reg 7 asz
  set_segment_override ds
  value ← get_mem (pos esi) sz
  set_segment_override es
  set_mem (pos edi) sz (pos value)
  set_segment_override segment_override
  df ← gets (λ vm. vm.flags.df)
  set_reg 6 asz (pos (advance df sz asz esi))
  set_reg 7 asz (pos (advance df sz asz edi))
  pure true

unfoldable pub stos : Bool → Exec Bool
unfolding set_segment_override
stos bits8 = do
  sz ← operand_width bits8
  asz ← gets (λ vm. vm.address_size)
  eax ← get_reg 0 sz
  edi ← get_reg 7 asz
  set_segment_override es
  set_mem (pos edi) sz (pos eax)
  set_segment_override ds
  df ← gets (λ vm. vm.flags.df)
  set_reg 7 asz (pos (advance df sz asz edi))
  pure true

-- `while SRC & 1 == 0`, with as much fuel as the operand has bits; see `Transfer.Scan`.
unfoldable pub scan : ℕ → ℕ → ℕ → ℕ
scan zero src temp = temp
scan (suc f) src temp = elim (src % 2 == 0) [ true ↦ scan f (src / 2) (temp + 1) | false ↦ temp ]

-- `debug_register_operand(loc, sz)` in the log message: eight names, whatever kind of operand `loc` is.
abbrev pub name_operand : Place → Exec (Unit {0})
name_operand (in_reg n) = pure tt
name_operand (in_mem a) = if ltb_ℤ a (pos 8) then pure tt else raise index_error

unfoldable pub bsf : Exec Bool
unfolding scan
bsf = do
  sz ← gets (λ vm. vm.operand_size)
  (rm, r) ← process_modrm
  src ← get_place rm sz
  if src == 0 then (do set_flags (λ f. record f { zf = 1 }); name_operand rm; pure true) else do
    set_flags (λ f. record f { zf = 0 })
    set_reg r sz (pos (scan (sz * 8) src 0))
    name_operand rm
    pure true
