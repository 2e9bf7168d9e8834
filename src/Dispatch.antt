-- ===== src/Dispatch.antt =====
-- The opcode table that VM/util.py builds from the `opcodes` of each class of VM/instructions, and
-- VM/instructions/repeatables.py `REP`. Several implementations may share an opcode; Python keeps
-- them in a set, so they are tried in an order that nothing fixes. The table of the floating-point
-- instructions and that of the system calls are arguments, which Main fills.
pub mod Exclusive
pub mod Declines
pub mod Groups
use py_vm.Prelude.{
  ℕ, zero, suc, ◌/◌, ◌%◌, Bool, true, false, ◌||◌, Option, none, some, List, [], ◌∷◌, ltb, ◌==◌,
  if◌then◌else◌, ℤ, pos, ◌+ℤ◌,
}
use py_vm.Outcome.{value_error}
use py_vm.Machine.{Exec, pure, raise, ◌>>=◌, ◌>>◌, gets, modify, get_reg, set_reg, get_mem, set_eip}
use py_vm.Instructions.AddSub.{addsub_r_imm, addsub_rm_imm, addsub_rm_r, addsub_r_rm}
use py_vm.Instructions.IncDec.{incdec_rm, incdec_r}
use py_vm.Instructions.MulDiv.{mul, div, imul_rm, imul_r_rm, imul_r_rm_imm}
use py_vm.Instructions.Jump.{always, if_zero, on, jump_rel, jump_rm, jump_ptr, setcc, cmovcc}
use py_vm.Instructions.Call.{call_rm, call_rel, ret_near, ret_near_imm, enter, leave}
use py_vm.Instructions.Control.{nop, nop_rm, bt_rm_r, bt_rm_imm, Syscalls, int_imm, cpuid, hlt}
use py_vm.Instructions.Move.{
  mov_r_imm, mov_rm_imm, mov_rm_r, mov_r_moffs, mov_sreg_rm, movzx, movsx, lea, xchg_eax_r,
  xchg_rm_r, cmpxchg, cbw_cwde, cwd_cdq, cmc, set_cf, set_df,
}
use py_vm.Instructions.Transfer.{
  push_r, push_rm, push_imm, push_sreg, pushf, popf, pusha, popa, pop_r, pop_rm, pop_sreg, movs,
  stos, bsf,
}
use py_vm.Instructions.Bitwise.{
  BitOp, op_and, op_or, op_xor, logic_r_imm, logic_rm_imm, logic_rm_r, logic_r_rm, neg_not_rm,
  bswap,
}
use py_vm.Instructions.Shift.{Count, c_one, c_cl, c_imm8, shl, shr, sar, shift, shiftd}

abbrev pub Handler : Type 0
Handler = Exec Bool

-- `for impl in impls: if impl(): return`: whether an implementation took the opcode.
unfoldable pub try_all : List Handler → Exec Bool
try_all [] = pure false
try_all (h ∷ hs) = do let rest = try_all hs; taken ← h; if taken then pure true else rest

-- The rounds of `REP` that are left; ECX is kept in a local variable.
unfoldable pub rep_loop : Exec (Unit {0}) → ℕ → ℤ → ℕ → Exec (Unit {0})
rep_loop exec opcode orig_eip zero = pure tt
rep_loop exec opcode orig_eip (suc zero) = do modify (λ vm. record vm { opcode = opcode }); exec
rep_loop exec opcode orig_eip (suc (suc n)) = do
  modify (λ vm. record vm { opcode = opcode })
  exec
  set_eip orig_eip
  rep_loop exec opcode orig_eip (suc n)

-- `opcode in {0xa4, 0xa5, 0xaa, 0xab}`
abbrev pub is_string_opcode : ℕ → Bool
is_string_opcode opcode = opcode == 0xa4 || opcode == 0xa5 || opcode == 0xaa || opcode == 0xab

unfoldable pub rep : Exec (Unit {0}) → Handler
unfolding rep_loop
rep exec = do
  orig_eip ← gets (λ vm. vm.eip)
  opcode ← get_mem orig_eip 1
  sz ← gets (λ vm. vm.address_size)
  ecx ← get_reg 1 sz
  if ecx == 0
      then (if is_string_opcode opcode
          then (do set_eip (orig_eip +ℤ pos 1); pure true)
          else raise value_error)
      else (do rep_loop exec opcode orig_eip ecx; set_reg 1 sz (pos 0); pure true)

-- The entries 0x80, 0x81 and 0x83.
abbrev pub group_imm : Bool → Bool → List Handler
group_imm op8 imm8 =
    addsub_rm_imm op8 imm8 0
    ∷ addsub_rm_imm op8 imm8 5
    ∷ addsub_rm_imm op8 imm8 7
    ∷ addsub_rm_imm op8 imm8 2
    ∷ addsub_rm_imm op8 imm8 3
    ∷ logic_rm_imm op8 imm8 op_and false 4
    ∷ logic_rm_imm op8 imm8 op_or false 1
    ∷ logic_rm_imm op8 imm8 op_xor false 6
    ∷ []

-- The entries 0xF6 and 0xF7.
abbrev pub group_unary : Bool → List Handler
group_unary bits8 =
    logic_rm_imm bits8 bits8 op_and true 0
    ∷ neg_not_rm bits8 3
    ∷ neg_not_rm bits8 2
    ∷ mul bits8
    ∷ div bits8 6
    ∷ div bits8 7
    ∷ imul_rm bits8
    ∷ []

-- The entries 0xFE and 0xFF.
abbrev pub group_inc8 : List Handler
group_inc8 = incdec_rm true 0 ∷ incdec_rm true 1 ∷ []

abbrev pub group_ff : List Handler
group_ff = incdec_rm false 0 ∷ incdec_rm false 1 ∷ jump_rm ∷ call_rm ∷ push_rm ∷ []

-- The entries 0xC0, 0xC1, 0xD0 to 0xD3.
abbrev pub group_shift : Count → Bool → List Handler
group_shift cnt bits8 = shift shl cnt bits8 ∷ shift shr cnt bits8 ∷ shift sar cnt bits8 ∷ []

-- The six entries that each of ADD, ADC, SUB, SBB and CMP has at `base` to `base + 5`, by the offset.
abbrev pub addsub_block : ℕ → Bool → Bool → Bool → Option (List Handler)
addsub_block k sub cmp carry =
    if k == 0
    then some (addsub_rm_r true sub cmp carry ∷ [])
    else if k == 1
    then some (addsub_rm_r false sub cmp carry ∷ [])
    else if k == 2
    then some (addsub_r_rm true sub cmp carry ∷ [])
    else if k == 3
    then some (addsub_r_rm false sub cmp carry ∷ [])
    else if k == 4
    then some (addsub_r_imm true sub cmp carry ∷ [])
    else if k == 5
    then some (addsub_r_imm false sub cmp carry ∷ [])
    else none

abbrev pub logic_block : ℕ → BitOp → Option (List Handler)
logic_block k op =
    if k == 0
    then some (logic_rm_r true op false ∷ [])
    else if k == 1
    then some (logic_rm_r false op false ∷ [])
    else if k == 2
    then some (logic_r_rm true op false ∷ [])
    else if k == 3
    then some (logic_r_rm false op false ∷ [])
    else if k == 4
    then some (logic_r_imm true op false ∷ [])
    else if k == 5
    then some (logic_r_imm false op false ∷ [])
    else none

-- PUSH and POP of a segment register.
abbrev pub segment_entry : ℕ → Option (List Handler)
segment_entry o =
    if o == 0x0e || o == 0x16 || o == 0x1e || o == 0x06
    then some (push_sreg ∷ [])
    else if o == 0x1f || o == 0x07 || o == 0x17
    then some (pop_sreg ∷ [])
    else none

abbrev pub or_else : {A : Type 0} → Option A → Option A → Option A
or_else (some a) y = some a
or_else none y = y

-- The opcodes below 0x40: eight blocks of eight.
unfoldable pub low_table : ℕ → Option (List Handler)
low_table o = or_else (segment_entry o) (
    if o / 8 == 0
    then addsub_block (o % 8) false false false
    else if o / 8 == 1
    then logic_block (o % 8) op_or
    else if o / 8 == 2
    then addsub_block (o % 8) false false true
    else if o / 8 == 3
    then addsub_block (o % 8) true false true
    else if o / 8 == 4
    then logic_block (o % 8) op_and
    else if o / 8 == 5
    then addsub_block (o % 8) true false false
    else if o / 8 == 6
    then logic_block (o % 8) op_xor
    else addsub_block (o % 8) true true false)

-- 0x40 to 0x7F.
unfoldable pub middle_table : ℕ → Option (List Handler)
middle_table o =
    if o / 8 == 8
    then some (incdec_r false false ∷ [])
    else if o / 8 == 9
    then some (incdec_r false true ∷ [])
    else if o / 8 == 10
    then some (push_r ∷ [])
    else if o / 8 == 11
    then some (pop_r ∷ [])
    else if o == 0x60
    then some (pusha ∷ [])
    else if o == 0x61
    then some (popa ∷ [])
    else if o == 0x63
    then some (movsx false true ∷ [])
    else if o == 0x68
    then some (push_imm false ∷ [])
    else if o == 0x69
    then some (imul_r_rm_imm false ∷ [])
    else if o == 0x6a
    then some (push_imm true ∷ [])
    else if o == 0x6b
    then some (imul_r_rm_imm true ∷ [])
    else if o / 16 == 7
    then some (jump_rel true (on (o % 16)) ∷ [])
    else none

-- 0x80 to 0xBF.
unfoldable pub high_table : ℕ → Option (List Handler)
high_table o =
    if o == 0x80
    then some (group_imm true true)
    else if o == 0x81
    then some (group_imm false false)
    else if o == 0x83
    then some (group_imm false true)
    else if o == 0x84
    then some (logic_rm_r true op_and true ∷ [])
    else if o == 0x85
    then some (logic_rm_r false op_and true ∷ [])
    else if o == 0x86
    then some (xchg_rm_r true ∷ [])
    else if o == 0x87
    then some (xchg_rm_r false ∷ [])
    else if o == 0x88
    then some (mov_rm_r true false ∷ [])
    else if o == 0x89
    then some (mov_rm_r false false ∷ [])
    else if o == 0x8a
    then some (mov_rm_r true true ∷ [])
    else if o == 0x8b
    then some (mov_rm_r false true ∷ [])
    else if o == 0x8c
    then some (mov_sreg_rm true ∷ [])
    else if o == 0x8d
    then some (lea ∷ [])
    else if o == 0x8e
    then some (mov_sreg_rm false ∷ [])
    else if o == 0x8f
    then some (pop_rm ∷ [])
    else if o == 0x90
    then some (nop ∷ xchg_eax_r ∷ [])
    else if o / 8 == 18
    then some (xchg_eax_r ∷ [])
    else if o == 0x98
    then some (cbw_cwde ∷ [])
    else if o == 0x99
    then some (cwd_cdq ∷ [])
    else if o == 0x9c
    then some (pushf ∷ [])
    else if o == 0x9d
    then some (popf ∷ [])
    else if o == 0xa0
    then some (mov_r_moffs true false ∷ [])
    else if o == 0xa1
    then some (mov_r_moffs false false ∷ [])
    else if o == 0xa2
    then some (mov_r_moffs true true ∷ [])
    else if o == 0xa3
    then some (mov_r_moffs false true ∷ [])
    else if o == 0xa4
    then some (movs true ∷ [])
    else if o == 0xa5
    then some (movs false ∷ [])
    else if o == 0xa8
    then some (logic_r_imm true op_and true ∷ [])
    else if o == 0xa9
    then some (logic_r_imm false op_and true ∷ [])
    else if o == 0xaa
    then some (stos true ∷ [])
    else if o == 0xab
    then some (stos false ∷ [])
    else if o / 8 == 22
    then some (mov_r_imm true ∷ [])
    else if o / 8 == 23
    then some (mov_r_imm false ∷ [])
    else none

-- A far call or return is a mock that returns False; the mock of 0x9A is among the implementations.
abbrev pub declined : Handler
declined = pure false

-- 0xC0 to 0xFF, less the floating-point opcodes, and 0x9A.
unfoldable pub top_table : Syscalls → Exec (Unit {0}) → ℕ → Option (List Handler)
top_table syscalls exec o =
    if o == 0xc0
    then some (group_shift c_imm8 true)
    else if o == 0xc1
    then some (group_shift c_imm8 false)
    else if o == 0xc2
    then some (ret_near_imm ∷ [])
    else if o == 0xc3
    then some (ret_near ∷ [])
    else if o == 0xc6
    then some (mov_rm_imm true ∷ [])
    else if o == 0xc7
    then some (mov_rm_imm false ∷ [])
    else if o == 0xc8
    then some (enter ∷ [])
    else if o == 0xc9
    then some (leave ∷ [])
    else if o == 0xca || o == 0xcb || o == 0x9a
    then some (declined ∷ [])
    else if o == 0xcd
    then some (int_imm syscalls ∷ [])
    else if o == 0xd0
    then some (group_shift c_one true)
    else if o == 0xd1
    then some (group_shift c_one false)
    else if o == 0xd2
    then some (group_shift c_cl true)
    else if o == 0xd3
    then some (group_shift c_cl false)
    else if o == 0xe3
    then some (jump_rel true if_zero ∷ [])
    else if o == 0xe8
    then some (call_rel ∷ [])
    else if o == 0xe9
    then some (jump_rel false always ∷ [])
    else if o == 0xea
    then some (jump_ptr ∷ [])
    else if o == 0xeb
    then some (jump_rel true always ∷ [])
    else if o == 0xf3
    then some (rep exec ∷ [])
    else if o == 0xf4
    then some (hlt ∷ [])
    else if o == 0xf5
    then some (cmc ∷ [])
    else if o == 0xf6
    then some (group_unary true)
    else if o == 0xf7
    then some (group_unary false)
    else if o == 0xf8
    then some (set_cf 0 ∷ [])
    else if o == 0xf9
    then some (set_cf 1 ∷ [])
    else if o == 0xfc
    then some (set_df 0 ∷ [])
    else if o == 0xfd
    then some (set_df 1 ∷ [])
    else if o == 0xfe
    then some group_inc8
    else if o == 0xff
    then some group_ff
    else none

-- The two-byte opcodes 0x0F00 to 0x0FFF, by their second byte.
unfoldable pub extended_table : ℕ → Option (List Handler)
extended_table o =
    if o == 0x1f
    then some (nop_rm ∷ [])
    else if o / 16 == 4
    then some (cmovcc (o % 16) ∷ [])
    else if o / 16 == 8
    then some (jump_rel false (on (o % 16)) ∷ [])
    else if o / 16 == 9
    then some (setcc (o % 16) ∷ [])
    else if o == 0xa0 || o == 0xa8
    then some (push_sreg ∷ [])
    else if o == 0xa1 || o == 0xa9
    then some (pop_sreg ∷ [])
    else if o == 0xa2
    then some (cpuid ∷ [])
    else if o == 0xa3
    then some (bt_rm_r ∷ [])
    else if o == 0xa4
    then some (shiftd true true ∷ [])
    else if o == 0xa5
    then some (shiftd true false ∷ [])
    else if o == 0xac
    then some (shiftd false true ∷ [])
    else if o == 0xad
    then some (shiftd false false ∷ [])
    else if o == 0xaf
    then some (imul_r_rm ∷ [])
    else if o == 0xb0
    then some (cmpxchg true ∷ [])
    else if o == 0xb1
    then some (cmpxchg false ∷ [])
    else if o == 0xb6
    then some (movzx true ∷ [])
    else if o == 0xb7
    then some (movzx false ∷ [])
    else if o == 0xba
    then some (bt_rm_imm ∷ [])
    else if o == 0xbc
    then some (bsf ∷ [])
    else if o == 0xbe
    then some (movsx true false ∷ [])
    else if o == 0xbf
    then some (movsx false false ∷ [])
    else if o / 8 == 25
    then some (bswap ∷ [])
    else none

-- `self.instr`, with the entries of `fpu`: those of the floating-point instructions and of INT3, which need
-- the conversions of floats or the host.
unfoldable pub instr :
    (ℕ → Option (List Handler)) → Syscalls → Exec (Unit {0}) → ℕ → Option (List Handler)
unfolding low_table middle_table high_table top_table extended_table
instr fpu syscalls exec o =
    or_else
      (if ltb o 0x40
        then low_table o
        else if ltb o 0x80
        then middle_table o
        else if ltb o 0x100
        then or_else (high_table o) (top_table syscalls exec o)
        else if o / 256 == 0x0f
        then extended_table (o % 256)
        else none)
      (fpu o)
