-- ===== src/FetchLoop/Block.antt =====
-- VM/fetchLoop.py, a whole cycle on `REP STOSB`, from its prefix on.
use py_vm.Prelude.{
  ℕ, suc, ◌+◌, ◌-◌, ◌≤◌, ◌<◌, ◌≡◌, refl, ap, ◌∙◌, true, Option, some, List, [], ◌∷◌, arith, ℤ, pos,
  negsuc, ◌+ℤ◌,
}
use py_vm.Bytes.{read32}
use py_vm.Machine.{Machine, done, Exec, >>=-done, get_mem}
use py_vm.Instructions.Control.{Syscalls}
use py_vm.Dispatch.{Handler, rep, high_table, top_table, instr}
use py_vm.FetchLoop.{
  execute_opcode, read_prefixes, apply_override, apply_overrides, undo_override, undo_overrides,
  step, run,
}
use py_vm.FetchLoop.Single.{one_opcode}
use py_vm.FetchLoop.Fill.{CanStore}
use py_vm.FetchLoop.Repeat.{IsFilled, rep-stos}
use py_vm.Memory

byte_read :
    (vm : Machine) (o b : ℕ)
    → vm.eip ≡ pos o
    → vm.mem.segment_base + o + 1 ≤ vm.mem.size
    → vm.mem.cells (vm.mem.segment_base + o) ≡ b
    → get_mem vm.eip 1 vm ≡ done b vm
unfolding Memory.get Memory.asan
byte_read vm o b p room here = rw p (ground (arith, room, here))

-- The two bytes are read, and the prefix is kept.
prefix_read :
    (vm : Machine) (o f : ℕ)
    → vm.eip ≡ pos o
    → vm.mem.segment_base + o + 2 ≤ vm.mem.size
    → vm.mem.cells (vm.mem.segment_base + o) ≡ 0xf3
    → vm.mem.cells (vm.mem.segment_base + (o + 1)) ≡ 0xaa
    → read_prefixes (suc (suc f)) [] vm
      ≡ done (0xf3 ∷ []) (record vm { opcode = 0xaa; eip = pos (o + 1) })
unfolding read_prefixes
prefix_read vm o f p room first second =
    let behind : Machine = record vm { opcode = 0xf3; eip = vm.eip +ℤ pos 1 } in
    let moved : vm.eip +ℤ pos 1 ≡ pos (o + 1) = ap (λ (x : ℤ). x +ℤ pos 1) p in
    >>=-done (get_mem vm.eip 1) _ {vm = vm} (byte_read vm o 0xf3 p (omega arith) first)
    ∙ >>=-done (get_mem behind.eip 1) _ {vm = behind}
        (byte_read behind (o + 1) 0xaa moved (omega arith) second)
    ∙ ap (λ (x : ℤ). done (0xf3 ∷ []) (record vm { opcode = 0xaa; eip = x })) moved

module _ (fpu : ℕ → Option (List Handler)) (syscalls : Syscalls) (depth : ℕ) where
  table_f3 : (exec : Exec (Unit {0})) → instr fpu syscalls exec 0xf3 ≡ some (rep exec ∷ [])
  unfolding instr high_table top_table
  table_f3 exec = refl

  abbrev instruction : Exec (Unit {0})
  instruction = execute_opcode fpu syscalls (suc (suc depth))

  prefix_taken :
      (vm vm' : Machine) (o : ℕ)
      → rep
          (execute_opcode fpu syscalls (suc depth))
          (record vm { opcode = 0xf3; eip = pos (o + 1) })
        ≡ done true vm'
      → instruction (record vm { opcode = 0xf3; eip = pos (o + 1) +ℤ negsuc 0 }) ≡ done tt vm'
  unfolding execute_opcode
  prefix_taken vm vm' o run =
      let again = execute_opcode fpu syscalls (suc depth) in
      let back : pos (o + 1) +ℤ negsuc 0 +ℤ pos 1 ≡ pos (o + 1) = ground arith in
      one_opcode (instr fpu syscalls again) (rep again) 0xf3
        (record vm { opcode = 0xf3; eip = pos (o + 1) +ℤ negsuc 0 }) vm' refl refl (table_f3 again)
        (ap (λ (x : ℤ). rep again (record vm { opcode = 0xf3; eip = x })) back ∙ run)

  -- One cycle on `REP STOSB`, through the prefixes and, for each round, the opcode table. With these two
  -- bytes next, the direction flag clear, addresses of 32 bits, and a block of ECX bytes at EDI behind
  -- the base of ES that ends in the memory and before 2^32: the cycle completes; the bytes of the block
  -- are AL and all others as before; EDI is at its end, ECX is 0, the other registers keep their bytes,
  -- execution goes on behind the two bytes, and nothing else in the machine changes but the segment base
  -- and the opcode.
  pub step-rep :
      (vm : Machine) (o e n : ℕ)
      → vm.eip ≡ pos o
      → vm.mem.segment_base + o + 2 ≤ vm.mem.size
      → vm.mem.cells (vm.mem.segment_base + o) ≡ 0xf3
      → vm.mem.cells (vm.mem.segment_base + (o + 1)) ≡ 0xaa
      → CanStore vm e
      → read32 vm.reg 4 ≡ n
      → (vm.sreg 0).base + e + n ≤ vm.mem.size
      → e + n < 4294967296
      → (vm' : Machine) × (step instruction vm ≡ done tt vm') × IsFilled vm vm' (o + 1) e n
  unfolding step apply_overrides apply_override undo_overrides undo_override
  step-rep vm o e n p code first second h ecx room small =
      let at_prefix : Machine = record vm { opcode = 0xf3; eip = pos (o + 1) } in
      let (vm', run, filled) =
        rep-stos fpu syscalls depth at_prefix (o + 1) e n refl (omega arith) second
          (record { edi_value = h.edi_value; forward = h.forward; wide = h.wide }) ecx room small in
      let size : vm.mem.size ≡ suc (vm.mem.size - 1) = omega arith in
      let read =
        ap (λ (f : ℕ). read_prefixes (suc f) [] vm) size
        ∙ prefix_read vm o (vm.mem.size - 1) p code first second in
      (
        vm',
        >>=-done (read_prefixes (suc vm.mem.size) []) _ {vm = vm} read
            ∙ >>=-done instruction (λ x. undo_overrides (0xf3 ∷ []))
                {vm = record vm { opcode = 0xf3; eip = pos (o + 1) +ℤ negsuc 0 }}
                (prefix_taken vm vm' o run),
        filled,
      )
