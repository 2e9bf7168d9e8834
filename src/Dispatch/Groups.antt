-- ===== src/Dispatch/Groups.antt =====
-- The groups of implementations that share an opcode, whatever the order in which Python tries them.
use py_vm.Prelude.{
  ℕ, ◌+◌, ◌≡◌, refl, sym, subst, ap, Bool, true, false, ◌||◌, List, [], ◌∷◌, arith, ◌==◌, ℤ, pos,
}
use py_vm.Outcome.{ok}
use py_vm.Machine.{Machine, done}
use py_vm.ModRm.{Place, reg_field, process_modrm}
use py_vm.ModRm.Decoding.{modrm_length, process_modrm_lem}
use py_vm.Instructions.AddSub.{addsub_rm_imm}
use py_vm.Instructions.IncDec.{incdec_rm}
use py_vm.Instructions.MulDiv.{mul, div, imul_rm}
use py_vm.Instructions.Jump.{jump_rm}
use py_vm.Instructions.Call.{call_rm}
use py_vm.Instructions.Transfer.{push_rm}
use py_vm.Instructions.Bitwise.{BitOp, op_and, op_or, op_xor, logic_rm_imm, neg_not_rm}
use py_vm.Instructions.Shift.{Count, shl, shr, sar, shift}
use py_vm.Dispatch.{Handler, try_all, group_imm, group_unary, group_ff, group_shift}
use py_vm.Dispatch.Exclusive.{took, Group, handlers, outcome, IsSorted, try_all-perm}
use py_vm.Dispatch.Declines.{
  addsub_declines, logic_declines, neg_declines, div_declines, incdec_declines, addsub_takes,
  logic_takes, neg_takes, div_takes, incdec_takes, mul_declines, imul_declines, push_declines,
  call_declines, jump_declines, shift_declines, mul_takes, imul_takes, push_takes, call_takes,
  jump_takes, shift_takes,
}
use py_vm.Memory
use mathlib.Core.List.{Permᴰ}

abbrev is : ℕ → ℕ → Bool
is k r = r == k

-- The fields that select each implementation of the entries 0xF6 and 0xF7, 0xFF, 0x80, 0x81 and 0x83,
-- and of the shifts.
abbrev pub unary_group : Bool → Group
unary_group bits8 =
    (is 0, logic_rm_imm bits8 bits8 op_and true 0)
    ∷ (is 3, neg_not_rm bits8 3)
    ∷ (is 2, neg_not_rm bits8 2)
    ∷ (is 4, mul bits8)
    ∷ (is 6, div bits8 6)
    ∷ (is 7, div bits8 7)
    ∷ (is 5, imul_rm bits8)
    ∷ []

abbrev pub ff_group : Group
ff_group =
    (is 0, incdec_rm false 0)
    ∷ (is 1, incdec_rm false 1)
    ∷ (λ r. r == 4 || r == 5, jump_rm)
    ∷ (is 2, call_rm)
    ∷ (is 6, push_rm)
    ∷ []

abbrev pub imm_group : Bool → Bool → Group
imm_group op8 imm8 =
    (is 0, addsub_rm_imm op8 imm8 0)
    ∷ (is 5, addsub_rm_imm op8 imm8 5)
    ∷ (is 7, addsub_rm_imm op8 imm8 7)
    ∷ (is 2, addsub_rm_imm op8 imm8 2)
    ∷ (is 3, addsub_rm_imm op8 imm8 3)
    ∷ (is 4, logic_rm_imm op8 imm8 op_and false 4)
    ∷ (is 1, logic_rm_imm op8 imm8 op_or false 1)
    ∷ (is 6, logic_rm_imm op8 imm8 op_xor false 6)
    ∷ []

abbrev pub shift_group : Count → Bool → Group
shift_group c bits8 =
    (is 4, shift shl c bits8) ∷ (is 5, shift shr c bits8) ∷ (is 7, shift sar c bits8) ∷ []

module _ (vm vm' : Machine) (o b r : ℕ) (place : Place) (at : vm.eip ≡ pos o)
    (read : Memory.get_eip vm.mem (pos o) 1 ≡ ok b)
    (decoded : process_modrm vm ≡ done (place, r) vm') where
  shape :
      (vm' ≡ record vm { eip = pos (o + modrm_length b (vm.mem.cells (o + 1))) })
      × (r ≡ reg_field b)
  shape =
      let l = process_modrm_lem vm vm' o b (vm.mem.cells (o + 1)) r place at read refl decoded in
      (l.0, l.1)

  restored : record vm' { eip = vm.eip } ≡ vm
  restored = ap (λ (v : Machine). record v { eip = vm.eip }) shape.0

  byte : Memory.get_eip vm.mem vm.eip 1 ≡ ok b
  byte = subst (λ (x : ℤ). Memory.get_eip vm.mem x 1 ≡ ok b) (sym at) read

  field : (k : ℕ) {t : Bool} → (r == k) ≡ t → (reg_field b == k) ≡ t
  field k {t} h = subst (λ (x : ℕ). (x == k) ≡ t) shape.1 h

  unary-IsSorted : (p : Bool) → IsSorted r vm (unary_group p)
  unary-IsSorted p = (
    (λ n. logic_declines vm b 0 byte p p true op_and (field 0 n)),
    (λ y. logic_takes vm b 0 byte p p true op_and (field 0 y)),
    (
      (λ n. neg_declines vm b 3 byte p (field 3 n)),
      (λ y. neg_takes vm b 3 byte p (field 3 y)),
      (
        (λ n. neg_declines vm b 2 byte p (field 2 n)),
        (λ y. neg_takes vm b 2 byte p (field 2 y)),
        (
          mul_declines vm vm' r place decoded restored p,
          mul_takes vm vm' r place decoded restored p,
          (
            (λ n. div_declines vm b 6 byte p (field 6 n)),
            (λ y. div_takes vm b 6 byte p (field 6 y)),
            (
              (λ n. div_declines vm b 7 byte p (field 7 n)),
              (λ y. div_takes vm b 7 byte p (field 7 y)),
              (
                imul_declines vm vm' r place decoded restored p,
                imul_takes vm vm' r place decoded restored p,
                tt,
              ),
            ),
          ),
        ),
      ),
    ),
  )

  jump_sorted : ((r == 4 || r == 5) ≡ false) → jump_rm vm ≡ done false vm
  jump_sorted n = jump_declines vm vm' r place decoded restored (ground arith) (ground arith)

  ff-IsSorted : IsSorted r vm ff_group
  ff-IsSorted = (
    (λ n. incdec_declines vm b 0 byte false (field 0 n)),
    (λ y. incdec_takes vm b 0 byte false (field 0 y)),
    (
      (λ n. incdec_declines vm b 1 byte false (field 1 n)),
      (λ y. incdec_takes vm b 1 byte false (field 1 y)),
      (
        jump_sorted,
        jump_takes vm vm' r place decoded restored,
        (
          call_declines vm vm' r place decoded restored,
          call_takes vm vm' r place decoded restored,
          (
            push_declines vm vm' r place decoded restored,
            push_takes vm vm' r place decoded restored,
            tt,
          ),
        ),
      ),
    ),
  )

  arithmetic_sorted :
      (p q : Bool) (k : ℕ)
      → (((r == k) ≡ false) → addsub_rm_imm p q k vm ≡ done false vm)
        × (((r == k) ≡ true) → took (addsub_rm_imm p q k vm) ≡ true)
  arithmetic_sorted p q k = (
    (λ n. addsub_declines vm b k byte p q (field k n)),
    (λ y. addsub_takes vm b k byte p q (field k y)),
  )

  logic_sorted :
      (p q : Bool) (op : BitOp) (k : ℕ)
      → (((r == k) ≡ false) → logic_rm_imm p q op false k vm ≡ done false vm)
        × (((r == k) ≡ true) → took (logic_rm_imm p q op false k vm) ≡ true)
  logic_sorted p q op k = (
    (λ n. logic_declines vm b k byte p q false op (field k n)),
    (λ y. logic_takes vm b k byte p q false op (field k y)),
  )

  imm-IsSorted : (p q : Bool) → IsSorted r vm (imm_group p q)
  imm-IsSorted p q = (
    (arithmetic_sorted p q 0).0,
    (arithmetic_sorted p q 0).1,
    (
      (arithmetic_sorted p q 5).0,
      (arithmetic_sorted p q 5).1,
      (
        (arithmetic_sorted p q 7).0,
        (arithmetic_sorted p q 7).1,
        (
          (arithmetic_sorted p q 2).0,
          (arithmetic_sorted p q 2).1,
          (
            (arithmetic_sorted p q 3).0,
            (arithmetic_sorted p q 3).1,
            (
              (logic_sorted p q op_and 4).0,
              (logic_sorted p q op_and 4).1,
              (
                (logic_sorted p q op_or 1).0,
                (logic_sorted p q op_or 1).1,
                ((logic_sorted p q op_xor 6).0, (logic_sorted p q op_xor 6).1, tt),
              ),
            ),
          ),
        ),
      ),
    ),
  )

  shift-IsSorted : (c : Count) (p : Bool) → IsSorted r vm (shift_group c p)
  shift-IsSorted c p = (
    shift_declines vm vm' r place decoded restored shl c p,
    shift_takes vm vm' r place decoded restored shl c p,
    (
      shift_declines vm vm' r place decoded restored shr c p,
      shift_takes vm vm' r place decoded restored shr c p,
      (
        shift_declines vm vm' r place decoded restored sar c p,
        shift_takes vm vm' r place decoded restored sar c p,
        tt,
      ),
    ),
  )

  -- Where the operands of an instruction with the opcode 0xF6 or 0xF7 decode,
  -- the implementations may be tried in any order: the outcome is that of the one which the REG field
  -- selects, TEST 0, NOT 2, NEG 3, MUL 4, IMUL 5, DIV 6 or IDIV 7, and with another field none takes it and nothing
  -- changes.
  pub try_all-unary_group :
      (p : Bool) (hs : List Handler)
      → Permᴰ hs (group_unary p)
      → try_all hs vm ≡ outcome r (unary_group p) vm
  unfolding handlers
  try_all-unary_group p hs e =
      try_all-perm r vm (unary_group p) hs e (ground arith) (unary-IsSorted p)

  -- Where the operands of an instruction with the opcode 0xFF decode,
  -- the implementations may be tried in any order: the outcome is that of the one which the REG field
  -- selects, INC 0, DEC 1, CALL 2, JMP 4 and 5, PUSH 6, and with another field none takes it and nothing
  -- changes.
  pub try_all-ff_group :
      (hs : List Handler) → Permᴰ hs group_ff → try_all hs vm ≡ outcome r ff_group vm
  unfolding handlers
  try_all-ff_group hs e = try_all-perm r vm ff_group hs e (ground arith) ff-IsSorted

  -- Where the operands of an instruction with the opcode 0x80, 0x81 or 0x83 decode,
  -- the implementations may be tried in any order: the outcome is that of the one which the REG field
  -- selects, ADD 0, OR 1, ADC 2, SBB 3, AND 4, SUB 5, XOR 6, CMP 7.
  pub try_all-imm_group :
      (p q : Bool) (hs : List Handler)
      → Permᴰ hs (group_imm p q)
      → try_all hs vm ≡ outcome r (imm_group p q) vm
  unfolding handlers
  try_all-imm_group p q hs e =
      try_all-perm r vm (imm_group p q) hs e (ground arith) (imm-IsSorted p q)

  -- Where the operands of an instruction with the opcode 0xC0, 0xC1 or 0xD0 to 0xD3 decode,
  -- the implementations may be tried in any order: the outcome is that of the one which the REG field
  -- selects, SHL 4, SHR 5, SAR 7, and with another field none takes it and nothing
  -- changes.
  pub try_all-shift_group :
      (c : Count) (p : Bool) (hs : List Handler)
      → Permᴰ hs (group_shift c p)
      → try_all hs vm ≡ outcome r (shift_group c p) vm
  unfolding handlers
  try_all-shift_group c p hs e =
      try_all-perm r vm (shift_group c p) hs e (ground arith) (shift-IsSorted c p)
