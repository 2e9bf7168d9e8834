-- ===== src/FetchLoop/Repeat.antt =====
-- VM/instructions/repeatables.py, `REP` before `STOSB`: a block of memory is filled.
use py_vm.Prelude.{
  ℕ, zero, suc, ◌+◌, ◌%◌, ◌≤◌, ◌<◌, ◌≡◌, refl, ap, ◌∙◌, ◌⊎◌, Bool, true, false, ◌&&◌, Option, List,
  arith, ltb, leb, ◌==◌, if◌then◌else◌, pos, ◌+ℤ◌,
}
use py_vm.Bytes.{Buffer, read32, write32, fill}
use py_vm.Bytes.Laws.{read32-write32, write32_outside, fill_outside, fill_inside}
use py_vm.Machine.{Machine, done, Exec, pure, ◌>>=◌, ◌>>◌, >>=-done, set_reg, get_mem, set_eip}
use py_vm.Instructions.Control.{Syscalls}
use py_vm.Dispatch.{Handler, rep_loop, rep}
use py_vm.FetchLoop.{execute_opcode, run}
use py_vm.FetchLoop.Fill.{CanStore, rounds}
use py_vm.Memory
use py_vm.Registers

-- What a whole `REP STOSB` of `n` bytes leaves behind.
abbrev pub IsFilled : Machine → Machine → ℕ → ℕ → ℕ → Type 0
IsFilled vm vm' o e n =
    ((j : ℕ)
      → vm'.mem.cells j ≡ (
          if leb ((vm.sreg 0).base + e) j && ltb j ((vm.sreg 0).base + e + n)
          then vm.reg 0 % 256
          else vm.mem.cells j))
    × (read32 vm'.reg 28 ≡ e + n)
    × (read32 vm'.reg 4 ≡ 0)
    × ((j : ℕ) → (j < 4) ⊎ (8 ≤ j) → (j < 28) ⊎ (32 ≤ j) → vm'.reg j ≡ vm.reg j)
    × (vm'.eip ≡ pos (o + 1))
    × (vm' ≡ record vm {
      reg = vm'.reg;
      mem = record vm.mem { cells = vm'.mem.cells; segment_base = vm'.mem.segment_base };
      eip = vm'.eip;
      opcode = vm'.opcode;
    })

fill_item :
    (b : Buffer) (i v n j : ℕ)
    → fill b i v n j ≡ (if leb i j && ltb j (i + n) then v % 256 else b j)
fill_item b i v n j =
    let inside = fill_inside b i v n j in
    let outside = fill_outside b i v n j in grind (arith, inside, outside)

edi_apart : (reg : Buffer) → read32 (write32 reg 4 0) 28 ≡ read32 reg 28
unfolding write32
edi_apart reg = refl

module _ (fpu : ℕ → Option (List Handler)) (syscalls : Syscalls) (depth : ℕ) where
  -- `execute_opcode`, which every round calls.
  abbrev again : Exec (Unit {0})
  again = execute_opcode fpu syscalls (suc depth)

  -- What `REP` does behind its reads.
  abbrev started : ℕ → ℕ → Exec Bool
  started o n =
      if n == 0
      then (do set_eip (pos o +ℤ pos 1); pure true)
      else (do rep_loop again 0xaa (pos o) n; set_reg 1 4 (pos 0); pure true)

  rep_head :
      (vm : Machine) (o n : ℕ)
      → vm.eip ≡ pos o
      → vm.address_size ≡ 4
      → vm.mem.segment_base + o + 1 ≤ vm.mem.size
      → vm.mem.cells (vm.mem.segment_base + o) ≡ 0xaa
      → read32 vm.reg 4 ≡ n
      → rep again vm ≡ started o n vm
  unfolding rep Memory.get Memory.asan Registers.get
  rep_head vm o n p wide code opcode ecx =
      let read : get_mem vm.eip 1 vm ≡ done 0xaa vm = rw p (ground (arith, code, opcode)) in
      >>=-done (get_mem vm.eip 1) _ {vm = vm} read ∙ rw (wide, ecx, p) refl

  started-IsFilled :
      (n : ℕ) (vm : Machine) (o e : ℕ)
      → vm.eip ≡ pos o
      → CanStore vm e
      → read32 vm.reg 4 ≡ n
      → (vm.sreg 0).base + e + n ≤ vm.mem.size
      → e + n < 4294967296
      → (vm' : Machine) × (started o n vm ≡ done true vm') × IsFilled vm vm' o e n
  unfolding Registers.set
  started-IsFilled zero vm o e p h ecx room small = (
    record vm { eip = pos (o + 1) },
    refl,
    ((λ j. ground arith), h.edi_value ∙ omega arith, ecx, (λ j x y. refl), refl, refl),
  )
  started-IsFilled (suc n) vm o e p h ecx room small =
      let (vm₁, run, f) = rounds fpu syscalls depth n vm (pos o) e p h room small in
      let positive : (suc n == 0) ≡ false = ground arith in
      (
        record vm₁ { reg = write32 vm₁.reg 4 0 },
        rw positive (
            >>=-done (rep_loop again 0xaa (pos o) (suc n))
              (λ x. set_reg 1 4 (pos 0) >>= λ y. pure true) {vm = vm} run),
        (
          (λ j.
              ap (λ (c : Buffer). c j) f.cells_filled
              ∙ fill_item vm.mem.cells ((vm.sreg 0).base + e) (vm.reg 0) (suc n) j),
          edi_apart vm₁.reg ∙ f.edi_moved,
          read32-write32 vm₁.reg 4 0,
          (λ j x y. write32_outside vm₁.reg 4 0 j x ∙ f.registers_kept j y),
          f.eip_moved,
          ap
              (λ (m : Machine). record m {
                reg = write32 vm₁.reg 4 0;
                mem = record m.mem { cells = vm₁.mem.cells; segment_base = vm₁.mem.segment_base };
                eip = vm₁.eip;
                opcode = vm₁.opcode;
              })
              f.rest_kept,
        ),
      )

  -- The handler of `REP` with EIP at the opcode of STOSB.
  pub rep-stos :
      (vm : Machine) (o e n : ℕ)
      → vm.eip ≡ pos o
      → vm.mem.segment_base + o + 1 ≤ vm.mem.size
      → vm.mem.cells (vm.mem.segment_base + o) ≡ 0xaa
      → CanStore vm e
      → read32 vm.reg 4 ≡ n
      → (vm.sreg 0).base + e + n ≤ vm.mem.size
      → e + n < 4294967296
      → (vm' : Machine) × (rep again vm ≡ done true vm') × IsFilled vm vm' o e n
  rep-stos vm o e n p code opcode h ecx room small =
      let (vm', run, f) = started-IsFilled n vm o e p h ecx room small in
      (vm', rep_head vm o n p h.wide code opcode ecx ∙ run, f)
