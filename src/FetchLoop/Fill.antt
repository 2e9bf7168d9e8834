-- ===== src/FetchLoop/Fill.antt =====
-- VM/instructions/repeatables.py, `STOSB` under `REP`, through `execute_opcode` of VM/fetchLoop.py.
use py_vm.Prelude.{
  ℕ, zero, suc, ◌+◌, ◌%◌, ◌≤◌, ◌<◌, ◌≡◌, refl, ap, ap₂, ◌∙◌, ◌⊎◌, inl, true, Option, some, List, [],
  ◌∷◌, arith, ℤ, pos, ◌+ℤ◌,
}
use py_vm.Bytes.{Buffer, put, read32, write8, write32, fill}
use py_vm.Bytes.Laws.{read32-write32, write32_outside}
use py_vm.Outcome.{Result, ok, err}
use py_vm.Segments.{get_sreg}
use py_vm.Machine.{
  Machine, done, raised, Exec, ◌>>=◌, >>=-done, set_mem, set_eip, set_segment_override,
}
use py_vm.Instructions.Control.{Syscalls}
use py_vm.Instructions.Transfer.{stos}
use py_vm.Dispatch.{Handler, rep_loop, high_table, top_table, instr}
use py_vm.FetchLoop.{execute_opcode, run}
use py_vm.FetchLoop.Single.{one_opcode}
use py_vm.Memory
use py_vm.Registers

-- The byte in AL goes to the address `e` in EDI, behind the base of ES, and EDI moves up.
pub record CanStore (vm : Machine) (e : ℕ) : Type 0 where
  pub edi_value : read32 vm.reg 28 ≡ e
  pub forward : vm.flags.df ≡ 0
  pub wide : vm.address_size ≡ 4

-- The state after one byte.
abbrev byte_stored : Machine → ℕ → Machine
byte_stored vm e = record vm {
  reg = write32 vm.reg 28 (e + 1);
  mem = record vm.mem {
    cells = put vm.mem.cells ((vm.sreg 0).base + e) (vm.reg 0 % 256);
    segment_base = (vm.sreg 3).base;
  };
}

set_byte :
    (m : Memory.Memory) (e v : ℕ)
    → m.segment_base + e + 1 ≤ m.size
    → Memory.set m (pos e) 1 (pos v)
      ≡ ok (record m { cells = put m.cells (m.segment_base + e) (v % 256) })
unfolding Memory.set Memory.asan write8
set_byte m e v room = let byte : v % 256 % 256 ≡ v % 256 = omega arith in ground (arith, byte)

stos_lem :
    (vm : Machine) (e : ℕ)
    → CanStore vm e
    → (vm.sreg 0).base + e + 1 ≤ vm.mem.size
    → e + 1 < 4294967296
    → stos true vm ≡ done true (byte_stored vm e)
unfolding stos set_segment_override get_sreg Registers.get Registers.set
stos_lem vm e h room small =
    let once : (e + 1) % 4294967296 % 4294967296 ≡ e + 1 = omega arith in
    let based : Memory.Memory = record vm.mem { segment_base = (vm.sreg 0).base } in
    let stored = set_byte based e (vm.reg 0) room in
    rw (h.wide, h.edi_value, h.forward)
      (>>=-done (set_mem (pos e) 1 (pos (vm.reg 0))) _ (
          ap
            (λ (r : Result Memory.Memory). elim r [
              | ok m ↦
                  done tt
                    (record vm { flags = record vm.flags { df = 0 }; address_size = 4; mem = m })
              | err x ↦
                  raised x (record vm {
                    flags = record vm.flags { df = 0 };
                    address_size = 4;
                    mem = based;
                  })
            ])
            stored)
        ∙ rw once refl)

module _ (fpu : ℕ → Option (List Handler)) (syscalls : Syscalls) (depth : ℕ) where
  abbrev again : Exec (Unit {0})
  again = execute_opcode fpu syscalls (suc depth)

  table_aa : (exec : Exec (Unit {0})) → instr fpu syscalls exec 0xaa ≡ some (stos true ∷ [])
  unfolding instr high_table top_table
  table_aa exec = refl

  -- One round of `REP`, from the address of the opcode on.
  round :
      (vm : Machine) (e : ℕ)
      → vm.opcode ≡ 0xaa
      → CanStore vm e
      → (vm.sreg 0).base + e + 1 ≤ vm.mem.size
      → e + 1 < 4294967296
      → again vm ≡ done tt (record (byte_stored vm e) { eip = vm.eip +ℤ pos 1 })
  unfolding execute_opcode
  round vm e p h room small =
      one_opcode (instr fpu syscalls (execute_opcode fpu syscalls depth)) (stos true) 0xaa vm _ refl
        p (table_aa (execute_opcode fpu syscalls depth))
        (stos_lem (record vm { eip = vm.eip +ℤ pos 1 }) e
          (record { edi_value = h.edi_value; forward = h.forward; wide = h.wide }) room small)

  -- What the rounds leave behind.
  pub record Filled (vm vm' : Machine) (o : ℤ) (e n : ℕ) : Type 0 where
    pub cells_filled : vm'.mem.cells ≡ fill vm.mem.cells ((vm.sreg 0).base + e) (vm.reg 0) n
    pub edi_moved : read32 vm'.reg 28 ≡ e + n
    pub registers_kept : (j : ℕ) → (j < 28) ⊎ (32 ≤ j) → vm'.reg j ≡ vm.reg j
    pub eip_moved : vm'.eip ≡ o +ℤ pos 1
    pub rest_kept : vm' ≡ record vm {
      reg = vm'.reg;
      mem = record vm.mem { cells = vm'.mem.cells; segment_base = (vm.sreg 3).base };
      eip = vm'.eip;
      opcode = 0xaa;
    }

  abbrev at_opcode : Machine → Machine
  at_opcode vm = record vm { opcode = 0xaa }

  still : {vm : Machine} {e : ℕ} → CanStore vm e → CanStore (at_opcode vm) e
  still h = record { edi_value = h.edi_value; forward = h.forward; wide = h.wide }

  edi_next :
      (reg : Buffer) (e : ℕ) → e + 1 < 4294967296 → read32 (write32 reg 28 (e + 1)) 28 ≡ e + 1
  edi_next reg e small =
      let r = read32-write32 reg 28 (e + 1) in
      let k : (e + 1) % 4294967296 ≡ e + 1 = omega arith in r ∙ k

  pub rounds :
      (n : ℕ) (vm : Machine) (o : ℤ) (e : ℕ)
      → vm.eip ≡ o
      → CanStore vm e
      → (vm.sreg 0).base + e + suc n ≤ vm.mem.size
      → e + suc n < 4294967296
      → (vm' : Machine) × (rep_loop again 0xaa o (suc n) vm ≡ done tt vm')
        × Filled vm vm' o e (suc n)
  unfolding rep_loop fill
  rounds zero vm o e p h room small = (
    record (byte_stored (at_opcode vm) e) { eip = vm.eip +ℤ pos 1 },
    round (at_opcode vm) e refl (still h) room small,
    record {
      cells_filled = refl;
      edi_moved = edi_next vm.reg e small;
      registers_kept = λ j out. write32_outside vm.reg 28 (e + 1) j out;
      eip_moved = ap (λ (x : ℤ). x +ℤ pos 1) p;
      rest_kept = refl;
    },
  )
  rounds (suc n) vm o e p h room small =
      let vm₂ : Machine = record (byte_stored (at_opcode vm) e) { eip = o } in
      let (vm', run, f) =
        rounds n vm₂ o (e + 1) refl
          (record {
            edi_value = edi_next vm.reg e (omega arith);
            forward = h.forward;
            wide = h.wide;
          })
          (omega arith) (omega arith) in
      (
        vm',
        >>=-done again (λ x. set_eip o >>= λ y. rep_loop again 0xaa o (suc n)) {vm = at_opcode vm}
              (round (at_opcode vm) e refl (still h) (omega arith) (omega arith))
            ∙ run,
        record {
          cells_filled =
              f.cells_filled
              ∙ ap₂
                  (λ i v.
                    fill (put vm.mem.cells ((vm.sreg 0).base + e) (vm.reg 0 % 256)) i v (suc n))
                  (omega arith) (write32_outside vm.reg 28 (e + 1) 0 (inl (omega arith)));
          edi_moved = f.edi_moved ∙ omega arith;
          registers_kept =
              λ j out. f.registers_kept j out ∙ write32_outside vm.reg 28 (e + 1) j out;
          eip_moved = f.eip_moved;
          rest_kept = f.rest_kept;
        },
      )
