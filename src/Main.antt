-- ===== src/Main.antt =====
-- VM/__init__.py and VM/CPU.py: the virtual machine as it is built, `VM.__init__` with
-- `CPU32.__init__` and `Memory.__init__`, and with every part in its place.
pub mod Fresh
pub mod Termination
use py_vm.Prelude.{ℕ, Bool, true, Option, none, some, List, [], ◌∷◌, ◌==◌, if◌then◌else◌, ℤ, pos}
use py_vm.Outcome.{assertion_error, Result, ok, err}
use py_vm.Segments.{Entry, zero_entry, SegmentRegister}
use py_vm.Host.{Host}
use py_vm.Machine.{Machine, Outcome, done, raised, Exec}
use py_vm.Stack.{stack_init}
use py_vm.Binary80.{Floats}
use py_vm.Fpu.{initial_fpu}
use py_vm.Kernel.Table.{syscalls}
use py_vm.FetchLoop.{execute_opcode, size_of_mode, execute_bytes}
use py_vm.Instructions.Floating.Table.{fpu_table}
use py_vm.Instructions.Trap.{int3}
use py_vm.Dispatch.{Handler}
use py_vm.Loader.{execute_elf}
use py_vm.Registers.{Flags}
use py_vm.Memory.{Memory}

abbrev pub clear_flags : Flags
clear_flags = record { cf = 0; pf = 0; af = 0; zf = 0; sf = 0; tf = 0; intf = 0; df = 0; of = 0 }

abbrev pub empty_segment : SegmentRegister
empty_segment = record { visible = 0; base = 0; limit = 0; access = 0 }

-- The six entries of `GDT`.
abbrev pub empty_gdt : List Entry
empty_gdt = zero_entry ∷ zero_entry ∷ zero_entry ∷ zero_entry ∷ zero_entry ∷ zero_entry ∷ []

-- Before `stack_init`; the three standard files have the numbers 0, 1 and 2.
unfoldable pub blank_machine : ℕ → Machine
blank_machine memsize = record {
  reg = λ _. 0;
  flags = clear_flags;
  sreg = λ n. empty_segment;
  mem = record { cells = λ _. 0; size = memsize; segment_base = 0; program_break = pos 0 };
  eip = pos 0;
  opcode = 0;
  current_mode = 0;
  operand_size = size_of_mode 0;
  address_size = size_of_mode 0;
  stack_address_size = size_of_mode 0;
  code_segment_end = pos 0;
  running = true;
  gdt = empty_gdt;
  free_memory_blocks = [];
  torn_blocks = none;
  fpu = initial_fpu;
  descriptors = some 0 ∷ some 1 ∷ some 2 ∷ [];
  retcode = none;
  trace = [];
}

abbrev pub built : Outcome (Unit {0}) → Result Machine
built (done u vm) = ok vm
built (raised e vm) = err e

-- `VM(memsize)`: a memory without bytes fails an assertion.
unfoldable pub new_machine : ℕ → Result Machine
unfolding blank_machine stack_init
new_machine memsize =
    if memsize == 0 then err assertion_error else built (stack_init (blank_machine memsize))

-- The entries that need the conversions of floats or the host.
unfoldable pub host_table : Floats → Host → ℕ → Option (List Handler)
unfolding fpu_table int3
host_table floats host o = if o == 0xcc then some (int3 host ∷ []) else fpu_table floats o

-- What is not under the program's control: the conversions of floats, the enumerations of `mmap`, how
-- deep calls may nest, and the host.
module _ (floats : Floats) (is_flags is_prot : ℤ → Bool) (host : Host) (depth : ℕ) where
  -- One instruction of the whole machine.
  unfoldable pub vm_instruction : Exec (Unit {0})
  unfolding host_table syscalls execute_opcode
  vm_instruction = execute_opcode (host_table floats host) (syscalls is_flags is_prot host) depth

  -- `VMKernel.execute` with the strategies BYTES (and FLAT, on the contents of the file) and ELF.
  unfoldable pub vm_execute_bytes : ℕ → List ℕ → ℤ → Exec (Option ℕ)
  unfolding vm_instruction execute_bytes
  vm_execute_bytes fuel code offset = execute_bytes vm_instruction fuel code offset

  unfoldable pub vm_execute_elf : ℕ → Bool → List ℕ → List (List ℕ) → Exec (Option ℕ)
  unfolding vm_instruction execute_elf
  vm_execute_elf fuel strict file args = execute_elf vm_instruction fuel strict file args
