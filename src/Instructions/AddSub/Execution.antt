-- ===== src/Instructions/AddSub/Execution.antt =====
-- VM/instructions/math.py, `ADDSUB.rm_r`: the whole instruction.
use py_vm.Prelude.{ℕ, ◌+◌, ◌%◌, ◌≤◌, ◌≡◌, Bool, true, false, arith, if◌then◌else◌, pos, negsuc}
use py_vm.Outcome.{ok}
use py_vm.Misc.{modulus}
use py_vm.Misc.Laws.{IsSize}
use py_vm.Machine.{Machine, done}
use py_vm.Memory.Laws.{mem_stored, mem_set_lem}
use py_vm.Registers.Laws.{reg_stored, reg_set_lem}
use py_vm.ModRm.{Place, in_reg, in_mem, get_place, process_modrm}
use py_vm.Instructions.AddSub.{addsub_flags, addsub_result, addsub_rm_r}
use py_vm.Memory
use py_vm.Registers

-- The machine behind ADD, ADC, SUB, SBB or CMP of the words `a` and `b`, the carry included in `b`.
unfoldable pub computed : Bool → Bool → ℕ → Place → ℕ → ℕ → Machine → Machine
computed sub true sz rm a b vm = record vm { flags = addsub_flags sub sz a b vm.flags }
computed sub false sz (in_reg n) a b vm = record vm {
  flags = addsub_flags sub sz a b vm.flags;
  reg = reg_stored vm.reg n sz (addsub_result sub sz a b);
}
computed sub false sz (in_mem (pos o)) a b vm = record vm {
  flags = addsub_flags sub sz a b vm.flags;
  mem = mem_stored vm.mem (vm.mem.segment_base + o) sz (addsub_result sub sz a b);
}
computed sub false sz (in_mem (negsuc o)) a b vm = vm

cut : (sub : Bool) (sz a b : ℕ) → addsub_result sub sz a b % modulus sz ≡ addsub_result sub sz a b
unfolding addsub_result
cut sub sz a b = ground arith

into_reg :
    (bits8 sub cmp carry : Bool) (vm vm' : Machine) (n r a b sz : ℕ)
    → process_modrm vm ≡ done (in_reg n, r) vm'
    → (if bits8 then 1 else vm.operand_size) ≡ sz
    → IsSize sz
    → Registers.get vm'.reg n sz ≡ ok a
    → Registers.get vm'.reg r sz ≡ ok b
    → addsub_rm_r bits8 sub cmp carry vm
      ≡ done true (computed sub cmp sz (in_reg n) a (if carry then b + vm'.flags.cf else b) vm')
unfolding addsub_rm_r computed
into_reg bits8 sub true carry vm vm' n r a b sz p s h ga gb = ground arith
into_reg bits8 sub false carry vm vm' n r a b sz p s h ga gb =
    let w =
      reg_set_lem vm'.reg n sz
        (pos (addsub_result sub sz a (if carry then b + vm'.flags.cf else b))) h in
    let e = cut sub sz a (if carry then b + vm'.flags.cf else b) in ground (arith, w, e)

into_memory :
    (bits8 sub cmp carry : Bool) (vm vm' : Machine) (o r a b sz : ℕ)
    → process_modrm vm ≡ done (in_mem (pos o), r) vm'
    → (if bits8 then 1 else vm.operand_size) ≡ sz
    → IsSize sz
    → vm'.mem.segment_base + o + sz ≤ vm'.mem.size
    → Memory.get vm'.mem (pos o) sz ≡ ok a
    → Registers.get vm'.reg r sz ≡ ok b
    → addsub_rm_r bits8 sub cmp carry vm
      ≡ done true
          (computed sub cmp sz (in_mem (pos o)) a (if carry then b + vm'.flags.cf else b) vm')
unfolding addsub_rm_r computed
into_memory bits8 sub true carry vm vm' o r a b sz p s h room ga gb = ground arith
into_memory bits8 sub false carry vm vm' o r a b sz p s h room ga gb =
    let w =
      mem_set_lem vm'.mem o sz
        (pos (addsub_result sub sz a (if carry then b + vm'.flags.cf else b))) h room in
    let e = cut sub sz a (if carry then b + vm'.flags.cf else b) in ground (arith, w, e)

-- A place that can be written: any register, and an operand that lies in the memory.
abbrev pub IsWritable : Machine → ℕ → Place → Type 0
IsWritable vm sz (in_reg n) = Unit
IsWritable vm sz (in_mem (pos o)) = vm.mem.segment_base + o + sz ≤ vm.mem.size
IsWritable vm sz (in_mem (negsuc o)) = ⊥

-- ADD, ADC, SUB, SBB and CMP with a register as the source, of every operand size: where the operands
-- decode to a place that can be written and that holds `a`, and the register holds `b`, the
-- instruction ends normally, the flags are those of `a` and `b` (with the carry flag added to `b`
-- for ADC and SBB), the result goes to the place unless it is a comparison, and nothing
-- else changes behind the decoding.
pub addsub_rm_r_lem :
    (bits8 sub cmp carry : Bool) (vm vm' : Machine) (rm : Place) (r a b sz : ℕ)
    → process_modrm vm ≡ done (rm, r) vm'
    → (if bits8 then 1 else vm.operand_size) ≡ sz
    → IsSize sz
    → IsWritable vm' sz rm
    → get_place rm sz vm' ≡ done a vm'
    → Registers.get vm'.reg r sz ≡ ok b
    → addsub_rm_r bits8 sub cmp carry vm
      ≡ done true (computed sub cmp sz rm a (if carry then b + vm'.flags.cf else b) vm')
addsub_rm_r_lem bits8 sub cmp carry vm vm' (in_reg n) r a b sz p s h w ga gb =
    into_reg bits8 sub cmp carry vm vm' n r a b sz p s h (ground arith) gb
addsub_rm_r_lem bits8 sub cmp carry vm vm' (in_mem (pos o)) r a b sz p s h w ga gb =
    into_memory bits8 sub cmp carry vm vm' o r a b sz p s h w (ground arith) gb
addsub_rm_r_lem bits8 sub cmp carry vm vm' (in_mem (negsuc o)) r a b sz p s h w ga gb = absurd w
