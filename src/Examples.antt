-- ===== src/Examples.antt =====
-- A small machine for tests, and runs of short programs on it.
mod Arithmetic
mod Storage
mod Control
mod System
mod Numbers
mod Services
mod Analysis
use py_vm.Prelude.{
  ℕ, zero, suc, ◌%◌, ◌^◌, ◌≡◌, refl, true, Option, none, some, List, [], ◌∷◌, ◌==◌, if◌then◌else◌,
  pos,
}
use py_vm.Bytes.{Buffer, write32, write_bytes}
use py_vm.Outcome.{ok}
use py_vm.Segments.{zero_entry, SegmentRegister}
use py_vm.Machine.{Machine, Outcome, done, raised, fetch, fetch_data_signed}
use py_vm.Instructions.Jump.{jump_rel}
use py_vm.Instructions.Move.{mov_r_imm}
use py_vm.Instructions.AddSub.{addsub_rm_imm}
use py_vm.ModRm.{operands, process_modrm}
use py_vm.Kernel.Table.{syscalls}
use py_vm.Dispatch.{instr}
use py_vm.FetchLoop.{execute_opcode, execute_bytes}
use py_vm.Fpu.{initial_fpu}
use py_vm.Host.{Host}
use py_vm.Binary80.{Floats}
use py_vm.Main.{host_table}
use py_vm.Memory.{Memory}
use py_vm.Registers.{Flags}
use py_vm.Memory
use py_vm.Registers

abbrev bytes_at : List ℕ → Buffer
bytes_at [] j = 0
bytes_at (x ∷ xs) zero = x
bytes_at (x ∷ xs) (suc j) = bytes_at xs j

abbrev pub no_flags : Flags
no_flags = record { cf = 0; pf = 0; af = 0; zf = 0; sf = 0; tf = 0; intf = 0; df = 0; of = 0 }

abbrev pub no_segment : SegmentRegister
no_segment = record { visible = 0; base = 0; limit = 0; access = 0 }

-- EAX is 300, ECX is 7 and ESP is 128.
abbrev pub some_registers : Buffer
some_registers j =
    if j == 0 then 44 else if j == 1 then 1 else if j == 4 then 7 else if j == 16 then 128 else 0

-- The bytes of a program at address 0, in a memory of 256 bytes.
abbrev pub machine : List ℕ → Machine
machine code = record {
  reg = some_registers;
  flags = no_flags;
  sreg = λ n. no_segment;
  mem = record { cells = bytes_at code; size = 256; segment_base = 0; program_break = pos 64 };
  eip = pos 0;
  opcode = 0;
  current_mode = 0;
  operand_size = 4;
  address_size = 4;
  stack_address_size = 4;
  code_segment_end = pos 32;
  running = true;
  gdt = zero_entry ∷ zero_entry ∷ [];
  free_memory_blocks = (40, 48) ∷ (50, 60) ∷ [];
  torn_blocks = none;
  fpu = initial_fpu;
  descriptors = some 0 ∷ some 1 ∷ some 2 ∷ [];
  retcode = none;
  trace = [];
}

-- A host that answers every request: file objects have the number 9, and nothing can be read.
abbrev pub silent_host : Host
silent_host = record {
  number = λ t e. ok 9;
  string = λ t e. ok [];
  written = λ t e. ok none;
  is_utf8 = λ s. true;
  is_ascii = λ s. true;
  bytes_past = λ a. [];
}

-- Stand-ins for the conversions of floats: a number is its own pattern.
abbrev pub plain_floats : Floats
plain_floats = record {
  narrow = λ d. d % 2 ^ 32;
  widen = λ p. p;
  of_int = λ n. n;
  truncate = λ d. ok (pos d);
}

abbrev result_of : Outcome (Option ℕ) → Option ℕ
result_of (done r vm) = r
result_of (raised e vm) = none

abbrev run_code : List ℕ → Option ℕ
unfolding execute_bytes execute_opcode syscalls host_table
run_code code = result_of (
    execute_bytes
      (execute_opcode (host_table plain_floats silent_host)
        (syscalls (λ f. true) (λ p. true) silent_host) 8)
      20 code (pos 0) (machine []))

-- `mov eax, 5`, `add eax, 3` and a jump to the last byte of the memory, where the loop ends.
add_program :
    run_code (0xb8 ∷ 5 ∷ 0 ∷ 0 ∷ 0 ∷ 0x83 ∷ 0xc0 ∷ 3 ∷ 0xe9 ∷ 242 ∷ 0 ∷ 0 ∷ 0 ∷ []) ≡ some 8
unfolding run_code Memory.set_bytes Memory.get write_bytes instr mov_r_imm fetch Memory.get_eip
    Registers.set addsub_rm_imm process_modrm fetch_data_signed Memory.get_signed Registers.get
    jump_rel operands write32
add_program = refl
