-- ===== src/Safety/Moves.antt =====
-- VM/instructions/control.py and memory.py: every handler changes the RAM only by checked writes.
use py_vm.Prelude.{get_elem?, ℕ, refl, Bool, Option, none, some, List, [], ◌∷◌, pos, ltb_ℤ}
use py_vm.Outcome.{index_error}
use py_vm.Segments.{Entry, set_sreg}
use py_vm.Machine.{Machine, Outcome, done, raised, gets, modify, get_reg}
use py_vm.ModRm.{Place, in_reg, in_mem}
use py_vm.Stack.{stack_push}
use py_vm.Instructions.Jump.{
  Jump, always, if_zero, on, jump_taken, jump_rel, jump_rm, jump_ptr, setcc, cmovcc,
}
use py_vm.Instructions.Call.{call_rm, call_rel, ret_near, ret_near_imm, push_bytes, enter, leave}
use py_vm.Instructions.Control.{nop, nop_rm, bt_rm_r, bt_rm_imm, cpuid, hlt}
use py_vm.Instructions.Move.{
  mov_r_imm, mov_rm_imm, mov_rm_r, mov_r_moffs, gdt_entry, mov_sreg_rm, movzx, movsx, lea,
  xchg_eax_r, xchg_rm_r, cmpxchg, cbw_cwde, cwd_cdq, cmc, set_cf, set_df,
}
use py_vm.Instructions.Transfer.{
  push_r, push_rm, push_imm, push_sreg, pushf, popf, push_all, pusha, popa, pop_r, pop_rm, pop_sreg,
  movs, stos, name_operand, bsf,
}
use py_vm.Safety.{
  Confined, machine_of, IsConfined, Confined-refl, IsConfined-pure, IsConfined-raise,
  IsConfined-gets, IsConfined-lift, IsConfined->>=, IsConfined-if, IsConfined-modify,
}
use py_vm.Safety.Operands.{stack_push-IsConfined, handler_rules}

jump_taken-IsConfined : (j : Jump) (sz : ℕ) → IsConfined (jump_taken j sz)
jump_taken-IsConfined always sz = search handler_rules
jump_taken-IsConfined if_zero sz = search handler_rules
jump_taken-IsConfined (on cc) sz = search handler_rules

looked_up :
    (vm : Machine) (o : Option Entry)
    → Confined vm (
        machine_of
          (elim o as (λ x. Outcome Entry) [ some d ↦ done d vm | none ↦ raised index_error vm ]))
looked_up vm (some d) = Confined-refl vm
looked_up vm none = Confined-refl vm

gdt_entry-IsConfined : (i : ℕ) → IsConfined (gdt_entry i)
gdt_entry-IsConfined i = record { at = λ vm. looked_up vm (get_elem? vm.gdt i) }

set_sreg-IsConfined :
    (r src : ℕ) (d : Entry)
    → IsConfined (modify (λ vm. record vm { sreg = set_sreg vm.sreg r src d }))
set_sreg-IsConfined r src d = IsConfined-modify _ (λ vm. refl)

ruleset move_rules =
    (handler_rules, jump_taken-IsConfined, gdt_entry-IsConfined, set_sreg-IsConfined)

push_all-IsConfined : (rs : List ℕ) → IsConfined (push_all rs)
unfolding push_all
push_all-IsConfined [] = search handler_rules
push_all-IsConfined (r ∷ rs) =
    IsConfined->>= (gets (λ vm. vm.operand_size)) _ (IsConfined-gets _) (λ sz.
      IsConfined->>= (get_reg r sz) _ (IsConfined-lift _) (λ v.
        IsConfined->>= (stack_push (pos v)) _ (stack_push-IsConfined (pos v))
          (λ x. push_all-IsConfined rs)))

pub jump_rel-IsConfined : (w : Bool) (j : Jump) → IsConfined (jump_rel w j)
unfolding jump_rel
jump_rel-IsConfined w j = search move_rules depth 60 fits 6000

pub jump_rm-IsConfined : IsConfined jump_rm
unfolding jump_rm
jump_rm-IsConfined = search move_rules depth 60 fits 6000

pub jump_ptr-IsConfined : IsConfined jump_ptr
unfolding jump_ptr
jump_ptr-IsConfined = search move_rules depth 60 fits 6000

pub setcc-IsConfined : (cc : ℕ) → IsConfined (setcc cc)
unfolding setcc
setcc-IsConfined cc = search move_rules depth 60 fits 6000

pub cmovcc-IsConfined : (cc : ℕ) → IsConfined (cmovcc cc)
unfolding cmovcc
cmovcc-IsConfined cc = search move_rules depth 60 fits 6000

pub call_rm-IsConfined : IsConfined call_rm
unfolding call_rm
call_rm-IsConfined = search move_rules depth 60 fits 6000

pub call_rel-IsConfined : IsConfined call_rel
unfolding call_rel
call_rel-IsConfined = search move_rules depth 60 fits 6000

pub ret_near-IsConfined : IsConfined ret_near
unfolding ret_near
ret_near-IsConfined = search move_rules depth 60 fits 6000

pub ret_near_imm-IsConfined : IsConfined ret_near_imm
unfolding ret_near_imm
ret_near_imm-IsConfined = search move_rules depth 60 fits 6000

pub push_bytes-IsConfined : IsConfined push_bytes
unfolding push_bytes
push_bytes-IsConfined = search move_rules depth 60 fits 6000

pub enter-IsConfined : IsConfined enter
unfolding enter
enter-IsConfined = search (move_rules, push_bytes-IsConfined) depth 60 fits 6000

pub leave-IsConfined : IsConfined leave
unfolding leave
leave-IsConfined = search move_rules depth 60 fits 6000

pub nop-IsConfined : IsConfined nop
unfolding nop
nop-IsConfined = search move_rules depth 60 fits 6000

pub nop_rm-IsConfined : IsConfined nop_rm
unfolding nop_rm
nop_rm-IsConfined = search move_rules depth 60 fits 6000

pub bt_rm_r-IsConfined : IsConfined bt_rm_r
unfolding bt_rm_r
bt_rm_r-IsConfined = search move_rules depth 60 fits 6000

pub bt_rm_imm-IsConfined : IsConfined bt_rm_imm
unfolding bt_rm_imm
bt_rm_imm-IsConfined = search move_rules depth 60 fits 6000

pub cpuid-IsConfined : IsConfined cpuid
unfolding cpuid
cpuid-IsConfined = search move_rules depth 60 fits 6000

pub hlt-IsConfined : IsConfined hlt
unfolding hlt
hlt-IsConfined = search move_rules depth 60 fits 6000

pub mov_r_imm-IsConfined : (w : Bool) → IsConfined (mov_r_imm w)
unfolding mov_r_imm
mov_r_imm-IsConfined w = search move_rules depth 60 fits 6000

pub mov_rm_imm-IsConfined : (w : Bool) → IsConfined (mov_rm_imm w)
unfolding mov_rm_imm
mov_rm_imm-IsConfined w = search move_rules depth 60 fits 6000

pub mov_rm_r-IsConfined : (w r : Bool) → IsConfined (mov_rm_r w r)
unfolding mov_rm_r
mov_rm_r-IsConfined w r = search move_rules depth 60 fits 6000

pub mov_r_moffs-IsConfined : (w r : Bool) → IsConfined (mov_r_moffs w r)
unfolding mov_r_moffs
mov_r_moffs-IsConfined w r = search move_rules depth 60 fits 6000

pub mov_sreg_rm-IsConfined : (r : Bool) → IsConfined (mov_sreg_rm r)
unfolding mov_sreg_rm
mov_sreg_rm-IsConfined r = search move_rules depth 60 fits 6000

pub movzx-IsConfined : (w : Bool) → IsConfined (movzx w)
unfolding movzx
movzx-IsConfined w = search move_rules depth 60 fits 6000

pub movsx-IsConfined : (w d : Bool) → IsConfined (movsx w d)
unfolding movsx
movsx-IsConfined w d = search move_rules depth 60 fits 6000

pub lea-IsConfined : IsConfined lea
unfolding lea
lea-IsConfined = search move_rules depth 60 fits 6000

pub xchg_eax_r-IsConfined : IsConfined xchg_eax_r
unfolding xchg_eax_r
xchg_eax_r-IsConfined = search move_rules depth 60 fits 6000

pub xchg_rm_r-IsConfined : (w : Bool) → IsConfined (xchg_rm_r w)
unfolding xchg_rm_r
xchg_rm_r-IsConfined w = search move_rules depth 60 fits 6000

pub cmpxchg-IsConfined : (w : Bool) → IsConfined (cmpxchg w)
unfolding cmpxchg
cmpxchg-IsConfined w = search move_rules depth 60 fits 6000

pub cbw_cwde-IsConfined : IsConfined cbw_cwde
unfolding cbw_cwde
cbw_cwde-IsConfined = search move_rules depth 60 fits 6000

pub cwd_cdq-IsConfined : IsConfined cwd_cdq
unfolding cwd_cdq
cwd_cdq-IsConfined = search move_rules depth 60 fits 6000

pub cmc-IsConfined : IsConfined cmc
unfolding cmc
cmc-IsConfined = search move_rules depth 60 fits 6000

pub set_cf-IsConfined : (v : ℕ) → IsConfined (set_cf v)
unfolding set_cf
set_cf-IsConfined v = search move_rules depth 60 fits 6000

pub set_df-IsConfined : (v : ℕ) → IsConfined (set_df v)
unfolding set_df
set_df-IsConfined v = search move_rules depth 60 fits 6000

pub push_r-IsConfined : IsConfined push_r
unfolding push_r
push_r-IsConfined = search move_rules depth 60 fits 6000

pub push_rm-IsConfined : IsConfined push_rm
unfolding push_rm
push_rm-IsConfined = search move_rules depth 60 fits 6000

pub push_imm-IsConfined : (w : Bool) → IsConfined (push_imm w)
unfolding push_imm
push_imm-IsConfined w = search move_rules depth 60 fits 6000

pub push_sreg-IsConfined : IsConfined push_sreg
unfolding push_sreg
push_sreg-IsConfined = search move_rules depth 60 fits 6000

pub pushf-IsConfined : IsConfined pushf
unfolding pushf
pushf-IsConfined = search move_rules depth 60 fits 6000

pub popf-IsConfined : IsConfined popf
unfolding popf
popf-IsConfined = search move_rules depth 60 fits 6000

pub pusha-IsConfined : IsConfined pusha
unfolding pusha
pusha-IsConfined = search (move_rules, push_all-IsConfined) depth 60 fits 6000

pub popa-IsConfined : IsConfined popa
unfolding popa
popa-IsConfined = search move_rules depth 60 fits 6000

pub pop_r-IsConfined : IsConfined pop_r
unfolding pop_r
pop_r-IsConfined = search move_rules depth 60 fits 6000

pub pop_rm-IsConfined : IsConfined pop_rm
unfolding pop_rm
pop_rm-IsConfined = search move_rules depth 60 fits 6000

pub pop_sreg-IsConfined : IsConfined pop_sreg
unfolding pop_sreg
pop_sreg-IsConfined = search move_rules depth 60 fits 6000

pub movs-IsConfined : (w : Bool) → IsConfined (movs w)
unfolding movs
movs-IsConfined w = search move_rules depth 60 fits 6000

pub stos-IsConfined : (w : Bool) → IsConfined (stos w)
unfolding stos
stos-IsConfined w = search move_rules depth 60 fits 6000

name_operand-IsConfined : (place : Place) → IsConfined (name_operand place)
name_operand-IsConfined (in_reg n) = IsConfined-pure tt
name_operand-IsConfined (in_mem a) =
    IsConfined-if (ltb_ℤ a (pos 8)) _ _ (IsConfined-pure tt) (IsConfined-raise index_error)

pub bsf-IsConfined : IsConfined bsf
unfolding bsf
bsf-IsConfined = search (move_rules, name_operand-IsConfined) depth 60 fits 6000

pub ruleset move_set = (
  jump_rel-IsConfined, jump_rm-IsConfined, jump_ptr-IsConfined, setcc-IsConfined, cmovcc-IsConfined,
  call_rm-IsConfined, call_rel-IsConfined, ret_near-IsConfined, ret_near_imm-IsConfined,
  enter-IsConfined, leave-IsConfined, nop-IsConfined, nop_rm-IsConfined, bt_rm_r-IsConfined,
  bt_rm_imm-IsConfined, cpuid-IsConfined, hlt-IsConfined, mov_r_imm-IsConfined,
  mov_rm_imm-IsConfined, mov_rm_r-IsConfined, mov_r_moffs-IsConfined, mov_sreg_rm-IsConfined,
  movzx-IsConfined, movsx-IsConfined, lea-IsConfined, xchg_eax_r-IsConfined, xchg_rm_r-IsConfined,
  cmpxchg-IsConfined, cbw_cwde-IsConfined, cwd_cdq-IsConfined, cmc-IsConfined, set_cf-IsConfined,
  set_df-IsConfined, push_r-IsConfined, push_rm-IsConfined, push_imm-IsConfined,
  push_sreg-IsConfined, pushf-IsConfined, popf-IsConfined, pusha-IsConfined, popa-IsConfined,
  pop_r-IsConfined, pop_rm-IsConfined, pop_sreg-IsConfined, movs-IsConfined, stos-IsConfined,
  bsf-IsConfined,
)
