-- ===== src/Instructions/Move.antt =====
-- VM/instructions/memory.py, the moves: `MOV`, `MOVSX`, `LEA`, `XCHG`, `CMPXCHG`, `CWD`, `CBW`.
use py_vm.Prelude.{
  get_elem?, ℕ, ◌+◌, ◌-◌, ◌*◌, ◌/◌, ◌%◌, Bool, true, false, not, ◌&&◌, ◌||◌, none, some, ltb, leb,
  ◌==◌, if◌then◌else◌, bit, ℤ, pos, ◌%ℤ◌, ◌>>ℤ◌,
}
use py_vm.Outcome.{value_error, runtime_error, type_error, index_error}
use py_vm.Misc.{maxval, modulus, sign_bit}
use py_vm.Machine.{
  done, raised, Exec, pure, raise, ◌>>=◌, gets, modify, get_reg, get_reg_signed, set_reg, get_mem,
  set_mem, set_eip, set_flags, fetch, operand_width,
}
use py_vm.ModRm.{Place, in_reg, in_mem, get_place, get_place_signed, set_place, process_modrm}
use py_vm.Segments.{Entry, set_sreg}
use py_vm.Machine.{◌>>◌}
use py_vm.Registers.{Flags}

unfoldable pub mov_r_imm : Bool → Exec Bool
mov_r_imm bits8 = do
  sz ← operand_width bits8
  imm ← fetch sz
  r ← gets (λ vm. vm.opcode % 8)
  set_reg r sz (pos imm)
  pure true

unfoldable pub mov_rm_imm : Bool → Exec Bool
mov_rm_imm bits8 = do
  sz ← operand_width bits8
  old_eip ← gets (λ vm. vm.eip)
  (rm, r) ← process_modrm
  if not (r == 0)
      then (do set_eip old_eip; pure false)
      else do imm ← fetch sz; set_place rm sz (pos imm); pure true

unfoldable pub mov_rm_r : Bool → Bool → Exec Bool
mov_rm_r bits8 reverse = do
  sz ← operand_width bits8
  (rm, r) ← process_modrm
  if reverse
      then (do value ← get_place rm sz; set_reg r sz (pos value))
      else (do value ← get_reg r sz; set_place rm sz (pos value))
  pure true

unfoldable pub mov_r_moffs : Bool → Bool → Exec Bool
mov_r_moffs bits8 reverse = do
  sz ← operand_width bits8
  asz ← gets (λ vm. vm.address_size)
  loc ← fetch asz
  if reverse
      then (do value ← get_reg 0 sz; set_mem (pos loc) sz (pos value))
      else (do value ← get_mem (pos loc) sz; set_reg 0 sz (pos value))
  pure true

-- `vm.GDT[index]`
abbrev pub gdt_entry : ℕ → Exec Entry
gdt_entry index vm = elim (get_elem? vm.gdt index) [
  | some d ↦ done d vm
  | none ↦ raised index_error vm
]

-- The log message names the segment register: `SegmentRegs(R[1])` raises a ValueError for 6 and 7.
unfoldable pub mov_sreg_rm : Bool → Exec Bool
mov_sreg_rm reverse = do
  (rm, r) ← process_modrm
  src ← get_place rm 2
  if reverse
      then raise runtime_error
      else if not (leb r 5)
      then raise value_error
      else if src / 4 % 2 == 0
      then (do
        descr ← gdt_entry (src / 8)
        modify (λ vm. record vm { sreg = set_sreg vm.sreg r src descr })
        pure true)
      else raise runtime_error

unfoldable pub movzx : Bool → Exec Bool
movzx bits8 = do
  sz_r ← gets (λ vm. vm.operand_size)
  (rm, r) ← process_modrm
  src ← get_place rm (if bits8 then 1 else 2)
  set_reg r sz_r (pos src)
  pure true

unfoldable pub movsx : Bool → Bool → Exec Bool
movsx bits8 movsxd = do
  sz_r ← gets (λ vm. vm.operand_size)
  (rm, r) ← process_modrm
  src ← get_place_signed rm (if movsxd then sz_r else if bits8 then 1 else 2)
  set_reg r sz_r src
  pure true

-- The place is an address, or in the register form the register's number.
abbrev pub place_location : Place → ℤ
place_location (in_reg n) = pos n
place_location (in_mem a) = a

unfoldable pub lea : Exec Bool
lea = do
  (rm, r) ← process_modrm
  osz ← gets (λ vm. vm.operand_size)
  asz ← gets (λ vm. vm.address_size)
  let loc = place_location rm
  let tmp = if (osz == 2 && asz == 4) || (osz == 4 && asz == 2) then pos (loc %ℤ 65536) else loc
  if (osz == 2 || osz == 4) && (asz == 2 || asz == 4)
      then (do set_reg r osz (pos (tmp %ℤ modulus asz)); pure true)
      else raise runtime_error

unfoldable pub xchg_eax_r : Exec Bool
xchg_eax_r = do
  sz ← gets (λ vm. vm.operand_size)
  loc ← gets (λ vm. vm.opcode % 8)
  if loc == 0 then pure true else do
    eax_val ← get_reg 0 sz
    other_val ← get_reg loc sz
    set_reg 0 sz (pos other_val)
    set_reg loc sz (pos eax_val)
    pure true

-- `process_ModRM` takes no sizes, so the call with two of them raises.
unfoldable pub xchg_rm_r : Bool → Exec Bool
xchg_rm_r bits8 = raise type_error

-- The flags of the comparison; PF is computed and not stored.
unfoldable pub cmpxchg_flags : ℕ → ℕ → ℕ → Flags → Flags
cmpxchg_flags sz a b f =
    let c = a + maxval sz + 1 - b in
    record f {
      of = bit (not (sign_bit sz a == sign_bit sz b) && not (sign_bit sz a == sign_bit sz c));
      cf = bit (ltb a b);
      af = bit (ltb (a % 256) (b % 256));
      sf = sign_bit sz c;
      zf = bit (c % modulus sz == 0);
    }

unfoldable pub cmpxchg : Bool → Exec Bool
unfolding cmpxchg_flags
cmpxchg bits8 = do
  sz ← operand_width bits8
  (rm, r) ← process_modrm
  a ← get_reg 0 sz
  b ← get_place rm sz
  set_flags (cmpxchg_flags sz a b)
  zf ← gets (λ vm. vm.flags.zf)
  if zf == 0
      then (do set_reg 0 sz (pos b); set_place rm sz (pos b); pure true)
      else (do src ← get_reg r sz; set_place rm sz (pos src); pure true)

-- `reg.set` is called without the value, after both reads.
unfoldable pub cbw_cwde : Exec Bool
cbw_cwde = do sz ← gets (λ vm. vm.operand_size); a ← get_reg 0 (sz / 2); raise type_error

unfoldable pub cwd_cdq : Exec Bool
cwd_cdq = do
  sz ← gets (λ vm. vm.operand_size)
  tmp ← get_reg_signed 0 sz
  set_reg 2 sz (tmp >>ℤ (sz * 8))
  set_reg 0 sz (pos (tmp %ℤ modulus sz))
  pure true

unfoldable pub cmc : Exec Bool
cmc = do set_flags (λ f. record f { cf = bit (f.cf == 0) }); pure true

-- `set_stuff` for CLC and STC, and for CLD and STD.
unfoldable pub set_cf : ℕ → Exec Bool
set_cf val = do set_flags (λ f. record f { cf = val }); pure true

unfoldable pub set_df : ℕ → Exec Bool
set_df val = do set_flags (λ f. record f { df = val }); pure true
