-- ===== src/Examples/Services.antt =====
-- The theorems on the system calls for files and processes, on VM/ELF and on `ExecuteELF` at concrete
-- inputs.
use py_vm.Prelude.{
  length, get_elem?, ℕ, suc, ◌+◌, ◌-◌, ◌≡◌, refl, true, false, ◌&&◌, none, some, List, [], ◌∷◌,
  arith, leb, ◌==◌, if◌then◌else◌, pos, negsuc, ◌%ℤ◌,
}
use py_vm.Outcome.{ok, returned}
use py_vm.Host.{Event, write_text}
use py_vm.Machine.{Machine, done, modify}
use py_vm.Kernel.Ask.{c_string}
use py_vm.Kernel.Files.{mode_r, open_descriptor, sys_close}
use py_vm.Kernel.Files.Descriptors.{IsLowest, IsOpenedAt, open_descriptor_lem, sys_close_lem}
use py_vm.Kernel.Process.{exit_message, sys_exit}
use py_vm.Kernel.Process.Exit.{AnswersAll, sys_exit_lem}
use py_vm.FetchLoop.{execute_opcode, step, cycles, run}
use py_vm.Elf.{ProgramHeader, field8, field16, open_elf}
use py_vm.Elf.Headers.{accepted, open_elf_lem}
use py_vm.Loader.{load_segment, push_string, push_vectors}
use py_vm.Loader.Segment.{IsLoaded, load_segment_lem}
use py_vm.Loader.Arguments.{push_string_lem}
use py_vm.Loader.Vectors.{IsStack, HasVectors, push_vectors_lem}
use py_vm.FetchLoop.Repeat.{IsFilled}
use py_vm.FetchLoop.Block.{step-rep}
use py_vm.Kernel.Table.{syscalls}
use py_vm.Main.{host_table, vm_instruction}
use py_vm.Main.Termination.{exit_status, run_exits}
use py_vm.Safety.{Confined, machine_of}
use py_vm.Safety.Run.{run_confined}
use py_vm.Examples.{machine, silent_host, plain_floats}
use py_vm.Registers

-- The second standard file is closed, and a file with the number 7 is open.
abbrev serving : Machine
serving = record (machine (47 ∷ 97 ∷ 0 ∷ [])) { descriptors = some 0 ∷ none ∷ some 2 ∷ some 7 ∷ [] }

open_descriptor_lem_example :
    (i : ℕ) × (vm' : Machine) × (open_descriptor silent_host (47 ∷ 97 ∷ []) mode_r serving
      ≡ done (pos i) vm')
    × IsLowest serving.descriptors i
    × IsOpenedAt i 9 serving vm'
open_descriptor_lem_example = open_descriptor_lem silent_host (47 ∷ 97 ∷ []) mode_r serving 9 refl

sys_close_lem_example :
    (vm' : Machine) × (sys_close silent_host 3 serving ≡ done (pos 0) vm')
    × (get_elem? vm'.descriptors 3 ≡ some none)
    × ((j : ℕ) → (j == 3) ≡ false → get_elem? vm'.descriptors j ≡ get_elem? serving.descriptors j)
    × (sys_close silent_host 3 vm' ≡ done (negsuc 0) vm')
sys_close_lem_example = sys_close_lem silent_host 3 7 9 serving refl refl

abbrev standard : Machine
standard = machine []

answers : AnswersAll silent_host
answers = ((λ t e. refl), λ t e. refl)

sys_exit_lem_example :
    (vm' : Machine) × (sys_exit silent_host (negsuc 0) standard ≡ done (pos (negsuc 0 %ℤ 256)) vm')
    × (vm'.retcode ≡ some (negsuc 0 %ℤ 256))
    × (vm'.running ≡ false)
    × (vm'.descriptors ≡ some 0 ∷ some 1 ∷ some 2 ∷ [])
    × ((t : List Event) × (vm'.trace ≡ write_text 2 (exit_message (negsuc 0 %ℤ 256)) ∷ t))
    × ((n : ℕ) → cycles (modify (λ vm. vm)) (suc n) vm' ≡ done true vm')
sys_exit_lem_example =
    sys_exit_lem silent_host (modify (λ vm. vm)) (negsuc 0) standard 0 1 2 [] answers refl

-- The first bytes of an ELF file.
abbrev magic_bytes : List ℕ
magic_bytes = 127 ∷ 69 ∷ 76 ∷ 70 ∷ 1 ∷ 1 ∷ []

open_elf_lem_example :
    returned (open_elf magic_bytes)
    ≡ leb 52 (length magic_bytes)
      && accepted
          (field8 magic_bytes 0)
          (field8 magic_bytes 1)
          (field8 magic_bytes 2)
          (field8 magic_bytes 3)
          (field8 magic_bytes 4)
          (field8 magic_bytes 5)
          (field16 magic_bytes 18)
open_elf_lem_example = open_elf_lem magic_bytes

-- Three bytes of the file at address 8, and two zeros.
abbrev segment : ProgramHeader
segment = record {
  p_type = 1;
  p_offset = 1;
  p_vaddr = 8;
  p_paddr = 0;
  p_filesz = 3;
  p_memsz = 5;
  p_flags = 5;
  p_align = 4;
}

load_segment_lem_example :
    (vm' : Machine) × (load_segment magic_bytes segment standard ≡ done tt vm')
    × IsLoaded magic_bytes segment standard.mem vm'.mem
    × (vm' ≡ record standard { mem = record standard.mem { cells = vm'.mem.cells } })
load_segment_lem_example =
    load_segment_lem magic_bytes segment standard (omega arith) (omega arith) (omega arith)

esp_is : Registers.get standard.reg 4 4 ≡ ok 128
unfolding Registers.get
esp_is = refl

abbrev two_letters : List ℕ
two_letters = 65 ∷ 66 ∷ []

push_string_lem_example :
    (a : ℕ) × (vm' : Machine) × (push_string two_letters standard ≡ done a vm')
    × (a + length two_letters + 1 ≡ 128)
    × (Registers.get vm'.reg 4 4 ≡ ok a)
    × ((past : List ℕ) → c_string vm'.mem.cells a (vm'.mem.size - a) past ≡ two_letters)
push_string_lem_example =
    push_string_lem two_letters standard 128
      (omega arith, omega arith, (omega arith, omega arith, tt)) esp_is (omega arith) (omega arith)
      (omega arith) refl

-- `int 0x80` with the number of `exit`, and 7 in EBX.
abbrev exiting : Machine
exiting = record (machine (0xcd ∷ 0x80 ∷ [])) {
  reg = λ j. if j == 0 then 1 else if j == 12 then 7 else 0;
}

run_exits_example :
    (vm' : Machine) × (run
        (vm_instruction plain_floats (λ f. true) (λ p. true) silent_host 8)
        2
        exiting
      ≡ done (some (exit_status exiting)) vm')
    × (vm'.retcode ≡ some (exit_status exiting))
    × (vm'.descriptors ≡ some 0 ∷ some 1 ∷ some 2 ∷ [])
    × ((t : List Event) × (vm'.trace ≡ write_text 2 (exit_message (exit_status exiting)) ∷ t))
run_exits_example =
    run_exits plain_floats (λ f. true) (λ p. true) silent_host 7 exiting 0 0 1 2 0 []
      (refl, refl, omega arith, refl, refl, refl) answers refl

run_confined_example :
    Confined exiting
      (machine_of (vm_instruction plain_floats (λ f. true) (λ p. true) silent_host 8 exiting))
    × Confined exiting (
        machine_of
          (run (vm_instruction plain_floats (λ f. true) (λ p. true) silent_host 8) 2 exiting))
run_confined_example = run_confined plain_floats (λ f. true) (λ p. true) silent_host 8 exiting 2

-- Without a program break; ESP is 128.
abbrev empty_stack : Machine
empty_stack = record standard { mem = record standard.mem { program_break = pos 0 } }

empty_stack-IsStack : IsStack empty_stack 128 0
empty_stack-IsStack = record {
  esp_value = esp_is;
  esp_range = omega arith;
  wide_stack = refl;
  word = refl;
  flat = refl;
  in_memory = omega arith;
  break_value = refl;
}

-- The strings of two arguments and of the environment are at 200, 210 and 220.
push_vectors_lem_example :
    (vm' : Machine) × (push_vectors 2 (200 ∷ 210 ∷ []) (220 ∷ []) empty_stack ≡ done tt vm')
    × HasVectors 2 (200 ∷ 210 ∷ []) (220 ∷ []) empty_stack vm' 128 0 7
push_vectors_lem_example =
    push_vectors_lem 2 (200 ∷ 210 ∷ []) (220 ∷ []) empty_stack 128 0 empty_stack-IsStack
      (omega arith) (omega arith, (omega arith, tt)) (omega arith, tt) (omega arith)

-- `rep stosb`, with 300 in EAX, 7 in ECX and 64 in EDI.
abbrev filling : Machine
filling = record (machine (0xf3 ∷ 0xaa ∷ [])) {
  reg = λ j. if j == 28 then 64 else (machine []).reg j;
}

step-rep_example :
    (vm' : Machine) × (step
        (execute_opcode
          (host_table plain_floats silent_host)
          (syscalls (λ f. true) (λ p. true) silent_host)
          9)
        filling
      ≡ done tt vm')
    × IsFilled filling vm' 1 64 7
step-rep_example =
    step-rep (host_table plain_floats silent_host) (syscalls (λ f. true) (λ p. true) silent_host) 7
      filling 0 64 7 refl (omega arith) refl refl
      (record { edi_value = refl; forward = refl; wide = refl }) refl (omega arith) (omega arith)
