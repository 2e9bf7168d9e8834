-- ===== src/Safety/Run.antt =====
-- VM/fetchLoop.py, the prefixes and the loop of `run`, and `ExecuteBytes`: a program changes only bytes
-- of the RAM.
use py_vm.Prelude.{
  length, ℕ, zero, suc, refl, Bool, true, false, none, some, List, [], ◌∷◌, ◌++◌, if◌then◌else◌, ℤ,
  pos, negsuc, ◌+ℤ◌,
}
use py_vm.Outcome.{recursion_error}
use py_vm.Host.{Host}
use py_vm.Machine.{Machine, Outcome, Exec, gets, modify, lift_mem, get_reg, get_mem, set_eip}
use py_vm.Binary80.{Floats}
use py_vm.Kernel.Table.{syscalls}
use py_vm.FetchLoop.{
  is_prefix, read_prefixes, size_of_mode, flip_mode, apply_override, apply_overrides, undo_override,
  undo_overrides, goes_on, step, cycles, run, execute_bytes,
}
use py_vm.Main.{vm_instruction, vm_execute_bytes}
use py_vm.Safety.{
  Confined, machine_of, IsConfined, Confined-refl, IsConfined-pure, IsConfined-raise,
  IsConfined-gets, IsConfined-lift, IsConfined->>=, IsConfined-modify,
}
use py_vm.Safety.Writes.{IsConfined-set_bytes, IsConfined-set_eip}
use py_vm.Safety.Operands.{handler_rules}
use py_vm.Safety.Process.{syscalls-IsConfined}
use py_vm.Safety.Cycle.{opcode-IsConfined, execute_opcode-IsConfined}
use py_vm.Memory

case_bool :
    {A : Type 0} (b : Bool) (x y : Exec A)
    → IsConfined x
    → IsConfined y
    → IsConfined (elim b as (λ c. Exec A) [ true ↦ x | false ↦ y ])
case_bool true x y h k = h
case_bool false x y h k = k

continues :
    (vm : Machine) (b : Bool) (x y : Outcome Bool)
    → Confined vm (machine_of x)
    → Confined vm (machine_of y)
    → Confined vm (machine_of (elim b as (λ c. Outcome Bool) [ false ↦ y | true ↦ x ]))
continues vm true x y h k = h
continues vm false x y h k = k

read_prefixes-IsConfined : (f : ℕ) (ovs : List ℕ) → IsConfined (read_prefixes f ovs)
unfolding read_prefixes
read_prefixes-IsConfined zero ovs = IsConfined-raise recursion_error
read_prefixes-IsConfined (suc f) ovs =
    IsConfined->>= (gets (λ vm. vm.eip)) _ (IsConfined-gets _) (λ e.
      IsConfined->>= (get_mem e 1) _ (IsConfined-lift _) (λ o.
        IsConfined->>= (modify (λ vm. record vm { opcode = o })) _ (opcode-IsConfined o) (λ x.
          case_bool (is_prefix o) _ _
            (IsConfined->>= (set_eip (e +ℤ pos 1)) _ (IsConfined-set_eip _)
              (λ y. read_prefixes-IsConfined f (ovs ++ o ∷ [])))
            (IsConfined-pure ovs))))

-- The changes of the modes and sizes.
flip_mode-IsConfined : (b : Bool) → IsConfined (flip_mode b)
flip_mode-IsConfined b = IsConfined-modify _ (λ vm. refl)

operand-IsConfined :
    IsConfined (modify (λ vm. record vm { operand_size = size_of_mode vm.current_mode }))
operand-IsConfined = IsConfined-modify _ (λ vm. refl)

address-IsConfined :
    IsConfined (modify (λ vm. record vm { address_size = size_of_mode vm.current_mode }))
address-IsConfined = IsConfined-modify _ (λ vm. refl)

repeat-IsConfined :
    (o : ℕ) → IsConfined (modify (λ vm. record vm { opcode = o; eip = vm.eip +ℤ negsuc 0 }))
repeat-IsConfined o = IsConfined-modify _ (λ vm. refl)

default_operand-IsConfined :
    IsConfined (modify (λ vm. record vm { current_mode = 0; operand_size = 4 }))
default_operand-IsConfined = IsConfined-modify _ (λ vm. refl)

default_address-IsConfined :
    IsConfined (modify (λ vm. record vm { current_mode = 0; address_size = 4 }))
default_address-IsConfined = IsConfined-modify _ (λ vm. refl)

ruleset prefix_rules = (
  handler_rules, flip_mode-IsConfined, operand-IsConfined, address-IsConfined, repeat-IsConfined,
  default_operand-IsConfined, default_address-IsConfined,
)

apply_override-IsConfined : (b : Bool) (ov : ℕ) → IsConfined (apply_override b ov)
unfolding apply_override
apply_override-IsConfined b ov = search prefix_rules depth 30 fits 4000

undo_override-IsConfined : (ov : ℕ) → IsConfined (undo_override ov)
unfolding undo_override
undo_override-IsConfined ov = search prefix_rules depth 30 fits 4000

apply_overrides-IsConfined : (b : Bool) (ovs : List ℕ) → IsConfined (apply_overrides b ovs)
unfolding apply_overrides
apply_overrides-IsConfined b [] = IsConfined-pure tt
apply_overrides-IsConfined b (ov ∷ ovs) =
    IsConfined->>= (apply_override b ov) _ (apply_override-IsConfined b ov)
      (λ b'. apply_overrides-IsConfined b' ovs)

undo_overrides-IsConfined : (ovs : List ℕ) → IsConfined (undo_overrides ovs)
unfolding undo_overrides
undo_overrides-IsConfined [] = IsConfined-pure tt
undo_overrides-IsConfined (ov ∷ ovs) =
    IsConfined->>= (undo_override ov) _ (undo_override-IsConfined ov)
      (λ x. undo_overrides-IsConfined ovs)

module _ (exec : Exec (Unit {0})) (exec-IsConfined : IsConfined exec) where
  step-IsConfined : IsConfined (step exec)
  unfolding step
  step-IsConfined = IsConfined->>= (gets (λ vm. suc vm.mem.size)) _ (IsConfined-gets _) (λ fuel.
      IsConfined->>= (read_prefixes fuel []) _ (read_prefixes-IsConfined fuel []) (λ ovs.
        IsConfined->>= (apply_overrides false ovs) _ (apply_overrides-IsConfined false ovs)
          (λ x. IsConfined->>= exec _ exec-IsConfined (λ y. undo_overrides-IsConfined ovs))))

  cycles-IsConfined : (n : ℕ) → IsConfined (cycles exec n)
  unfolding cycles
  cycles-IsConfined zero = record { at = λ vm. Confined-refl vm }
  cycles-IsConfined (suc n) = record {
    at = λ vm.
        continues vm (goes_on vm) _ _
          ((IsConfined->>= (step exec) _ step-IsConfined (λ x. cycles-IsConfined n)).at vm)
          (Confined-refl vm);
  }

  started-IsConfined : IsConfined (modify (λ vm. record vm { running = true }))
  started-IsConfined = IsConfined-modify _ (λ vm. refl)

  run-IsConfined : (n : ℕ) → IsConfined (run exec n)
  unfolding run
  run-IsConfined n =
      IsConfined->>= (modify (λ vm. record vm { running = true })) _ started-IsConfined (λ x.
        IsConfined->>= (cycles exec n) _ (cycles-IsConfined n) (λ finished.
          IsConfined->>= (get_reg 0 4) _ (IsConfined-lift _)
            (λ eax. IsConfined-pure (if finished then some eax else none))))

module _ (floats : Floats) (is_flags is_prot : ℤ → Bool) (host : Host) (depth : ℕ) where
  abbrev one : Exec (Unit {0})
  one = vm_instruction floats is_flags is_prot host depth

  one-IsConfined : IsConfined one
  unfolding vm_instruction
  one-IsConfined =
      execute_opcode-IsConfined floats host (syscalls is_flags is_prot host) depth
        (syscalls-IsConfined is_flags is_prot host)

  -- No program leaves the RAM. Whatever the machine, one instruction (with its system call, if it makes
  -- one) and the loop of `run` for any number of rounds leave the size of the RAM and every byte
  -- behind its end as they were, whether they return or raise.
  pub run_confined :
      (vm : Machine) (fuel : ℕ)
      → Confined vm (machine_of (vm_instruction floats is_flags is_prot host depth vm))
        × Confined vm (machine_of (run (vm_instruction floats is_flags is_prot host depth) fuel vm))
  run_confined vm fuel = (one-IsConfined.at vm, (run-IsConfined one one-IsConfined fuel).at vm)

  placed-IsConfined :
      (offset : ℤ) (last : ℤ)
      → IsConfined (
          modify (λ vm. record vm {
            eip = offset;
            code_segment_end = last;
            mem = record vm.mem { program_break = last };
          }))
  placed-IsConfined offset last = record {
    at = λ vm. record { same_size = refl; untouched = λ j le. refl };
  }

  -- Nor does one that `ExecuteBytes` and `ExecuteFlat` load, at any offset and of any length.
  pub execute_bytes_confined :
      (vm : Machine) (fuel : ℕ) (code : List ℕ) (offset : ℤ)
      → Confined vm
          (machine_of (vm_execute_bytes floats is_flags is_prot host depth fuel code offset vm))
  unfolding vm_execute_bytes execute_bytes
  execute_bytes_confined vm fuel code offset =
      (IsConfined->>= (lift_mem (λ m. Memory.set_bytes m offset code)) _
          (IsConfined-set_bytes offset code)
          (λ x.
            IsConfined->>=
              (modify (λ vm. record vm {
                eip = offset;
                code_segment_end = offset +ℤ pos (length code) +ℤ negsuc 0;
                mem = record vm.mem { program_break = offset +ℤ pos (length code) +ℤ negsuc 0 };
              }))
              _ (placed-IsConfined offset (offset +ℤ pos (length code) +ℤ negsuc 0))
              (λ y. run-IsConfined one one-IsConfined fuel))).at
        vm
