-- ===== src/Loader.antt =====
-- VM/fetchLoop.py, `ExecuteELF`: the segments of an ELF file in memory, and the first stack.
pub mod Segment
pub mod Arguments
pub mod Vectors
use py_vm.Prelude.{
  length, ℕ, zero, suc, ◌+◌, ◌-◌, ◌*◌, Bool, not, ◌||◌, Option, none, some, List, [], ◌∷◌, ◌++◌,
  ltb, ◌==◌, if◌then◌else◌, pos, negsuc, sub_ℕ, ◌+ℤ◌,
}
use py_vm.Outcome.{value_error, Result, ok}
use py_vm.Machine.{Exec, pure, raise, ◌>>=◌, ◌>>◌, gets, modify, lift, lift_mem, get_reg, set_reg}
use py_vm.Stack.{esp, stack_init, stack_push}
use py_vm.Elf.{ProgramHeader, read_file, and_then, phdrs, open_elf, p_type_of}
use py_vm.FetchLoop.{run}
use py_vm.Memory
use py_vm.Registers

-- `max(phdr.p_vaddr + phdr.p_memsz for ... if phdr.p_type == PT_LOAD)`: none for an empty sequence.
unfoldable pub max_memsz_of : Bool → List ProgramHeader → Result (Option ℕ)
max_memsz_of strict [] = ok none
max_memsz_of strict (p ∷ ps) = and_then (p_type_of strict p) (λ t.
    and_then (max_memsz_of strict ps) (λ rest. ok (
      if not (t == 1) then rest else elim rest [
        | none ↦ some (p.p_vaddr + p.p_memsz)
        | some m ↦ some (if ltb (p.p_vaddr + p.p_memsz) m then m else p.p_vaddr + p.p_memsz)
      ])))

-- `self.mem.size = max_memsz * 2` and `stack_init()`, where the memory is too small.
unfoldable pub grow_memory : ℕ → Exec (Unit {0})
unfolding Memory.set_size stack_init
grow_memory max_memsz = do
  size ← gets (λ vm. vm.mem.size)
  if ltb size (max_memsz * 2)
      then (do lift_mem (λ m. Memory.set_size m (max_memsz * 2)); stack_init)
      else pure tt

unfoldable pub zeros : ℕ → List ℕ
zeros zero = []
zeros (suc n) = 0 ∷ zeros n

-- The body of the loop over the program headers, for PT_LOAD and PT_GNU_EH_FRAME: the bytes of the
-- file and then zeros. A negative count of zeros is a ValueError, behind the first write.
unfoldable pub load_segment : List ℕ → ProgramHeader → Exec (Unit {0})
unfolding read_file zeros Memory.set_bytes
load_segment file p = do
  lift_mem (λ m. Memory.set_bytes m (pos p.p_vaddr) (read_file file p.p_offset p.p_filesz))
  if ltb p.p_memsz p.p_filesz
      then raise value_error
      else lift_mem
          (λ m. Memory.set_bytes m (pos (p.p_vaddr + p.p_filesz)) (zeros (p.p_memsz - p.p_filesz)))

unfoldable pub load_segments : Bool → List ℕ → List ProgramHeader → Exec (Unit {0})
unfolding load_segment
load_segments strict file [] = pure tt
load_segments strict file (p ∷ ps) = do
  t ← lift (λ vm. p_type_of strict p)
  if t == 1 || t == 0x6474e550 then load_segment file p else pure tt
  load_segments strict file ps

-- `self.reg.esp`, and its assignment.
abbrev pub esp_now : Exec ℕ
esp_now = get_reg esp 4

-- One string of the arguments or the environment: its bytes and a zero, below ESP. The answer is its
-- address.
unfoldable pub push_string : List ℕ → Exec ℕ
unfolding Memory.set_bytes
push_string text = do
  let bytes = text ++ 0 ∷ []
  top ← esp_now
  lift_mem (λ m. Memory.set_bytes m (sub_ℕ top (length bytes)) bytes)
  set_reg esp 4 (sub_ℕ top (length bytes))
  esp_now

unfoldable pub push_strings : List (List ℕ) → Exec (List ℕ)
unfolding push_string
push_strings [] = pure []
push_strings (s ∷ ss) = do a ← push_string s; rest ← push_strings ss; pure (a ∷ rest)

unfoldable pub reversed : List ℕ → List ℕ
reversed [] = []
reversed (x ∷ xs) = reversed xs ++ x ∷ []

-- `for addr in addresses: self.stack_push(addr)`
unfoldable pub push_addresses : List ℕ → Exec (Unit {0})
unfolding stack_push
push_addresses [] = pure tt
push_addresses (a ∷ rest) = do stack_push (pos a); push_addresses rest

-- 'USER=ForceBru'
abbrev pub environment : List (List ℕ)
environment = (85 ∷ 83 ∷ 69 ∷ 82 ∷ 61 ∷ 70 ∷ 111 ∷ 114 ∷ 99 ∷ 101 ∷ 66 ∷ 114 ∷ 117 ∷ []) ∷ []

-- The vectors of the first stack, from the last one: the auxiliary vector, 0; the addresses of the
-- environment and 0; those of the arguments and 0; the count of the arguments.
unfoldable pub push_vectors : ℕ → List ℕ → List ℕ → Exec (Unit {0})
unfolding push_addresses reversed stack_push
push_vectors count arg_addresses env_addresses = do
  stack_push (pos 0)
  stack_push (pos 0)
  push_addresses (reversed env_addresses)
  stack_push (pos 0)
  push_addresses (reversed arg_addresses)
  stack_push (pos count)

-- The stack that a program finds: the vectors, and above them the strings.
unfoldable pub first_stack : List (List ℕ) → Exec (Unit {0})
unfolding push_strings push_vectors
first_stack args = do
  arg_addresses ← push_strings args
  env_addresses ← push_strings environment
  push_vectors (length args) arg_addresses env_addresses

-- Where execution starts: `eip`, `code_segment_end` and `mem.program_break`.
abbrev pub enter_program : ℕ → ℕ → Exec (Unit {0})
enter_program e_entry max_memsz =
    let last = pos (e_entry + max_memsz) +ℤ negsuc 0 in
    modify (λ vm. record vm {
      eip = pos e_entry;
      code_segment_end = last;
      mem = record vm.mem { program_break = last };
    })

-- The part of `execute` up to `run`; `args` are the name of the file and the arguments.
unfoldable pub load_elf : Bool → List ℕ → List (List ℕ) → Exec (Unit {0})
unfolding open_elf phdrs max_memsz_of grow_memory load_segments first_stack
load_elf strict file args = do
  hdr ← lift (λ vm. open_elf file)
  if hdr.e_type == 2 then pure tt else raise value_error
  ps ← lift (λ vm. phdrs file hdr)
  found ← lift (λ vm. max_memsz_of strict ps)
  max_memsz ← elim found [ some m ↦ pure m | none ↦ raise value_error ]
  grow_memory max_memsz
  load_segments strict file ps
  enter_program hdr.e_entry max_memsz
  first_stack args

module _ (exec : Exec (Unit {0})) where
  -- `ExecuteELF.execute`
  unfoldable pub execute_elf : ℕ → Bool → List ℕ → List (List ℕ) → Exec (Option ℕ)
  unfolding load_elf run
  execute_elf fuel strict file args = do load_elf strict file args; run exec fuel
