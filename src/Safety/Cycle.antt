-- ===== src/Safety/Cycle.antt =====
-- VM/fetchLoop.py `execute_opcode` and VM/instructions/repeatables.py `REP`: one instruction changes
-- only bytes of the RAM.
use py_vm.Prelude.{
  ℕ, zero, suc, ◌+◌, ◌*◌, ◌/◌, ◌%◌, refl, Bool, true, false, Option, none, some, List, ltb, ◌==◌,
  if◌then◌else◌, ℤ, pos, ◌+ℤ◌,
}
use py_vm.Outcome.{not_implemented_error, missing_opcode_error, recursion_error}
use py_vm.Host.{Host}
use py_vm.Machine.{Machine, Outcome, done, raised, Exec, pure, gets, modify, set_eip}
use py_vm.Binary80.{Floats}
use py_vm.Instructions.Control.{Syscalls, int_imm}
use py_vm.Dispatch.{Handler, try_all, rep_loop, rep, top_table, instr}
use py_vm.FetchLoop.{
  next_opcode_byte, try_opcode, finish, second_try, after_first, execute_with, execute_opcode,
}
use py_vm.Main.{host_table}
use py_vm.Safety.{
  Confined, machine_of, IsConfined, Confined-refl, IsConfined-pure, IsConfined-raise,
  IsConfined-gets, IsConfined->>=, IsConfined-if, IsConfined-modify,
}
use py_vm.Safety.Writes.{IsConfined-set_eip}
use py_vm.Safety.Operands.{handler_rules}
use py_vm.Safety.Whole.{
  IsEntry, IsEntry-none, IsEntry-if, IsEntry-or_else, int_imm-IsConfined, entry_rules,
  low_table-IsEntry, middle_table-IsEntry, high_table-IsEntry, extended_table-IsEntry,
  host_table-IsEntry,
}

pub opcode-IsConfined : (o : ℕ) → IsConfined (modify (λ vm. record vm { opcode = o }))
opcode-IsConfined o = IsConfined-modify _ (λ vm. refl)

rep_loop-IsConfined :
    (exec : Exec (Unit {0})) (o : ℕ) (e : ℤ) (n : ℕ)
    → IsConfined exec
    → IsConfined (rep_loop exec o e n)
unfolding rep_loop
rep_loop-IsConfined exec o e zero h = IsConfined-pure tt
rep_loop-IsConfined exec o e (suc zero) h =
    IsConfined->>= (modify (λ vm. record vm { opcode = o })) _ (opcode-IsConfined o) (λ x. h)
rep_loop-IsConfined exec o e (suc (suc n)) h =
    IsConfined->>= (modify (λ vm. record vm { opcode = o })) _ (opcode-IsConfined o) (λ x.
      IsConfined->>= exec _ h (λ y.
        IsConfined->>= (set_eip e) _ (IsConfined-set_eip e)
          (λ z. rep_loop-IsConfined exec o e (suc n) h)))

rep-IsConfined : (exec : Exec (Unit {0})) → IsConfined exec → IsConfined (rep exec)
unfolding rep
rep-IsConfined exec h = search (handler_rules, rep_loop-IsConfined) depth 40 fits 4000

top_table-IsEntry :
    (calls : Syscalls) (exec : Exec (Unit {0})) (o : ℕ)
    → IsConfined (rep exec)
    → IsConfined (int_imm calls)
    → IsEntry (top_table calls exec o)
unfolding top_table
top_table-IsEntry calls exec o h k = search entry_rules depth 100 fits 9000

module _ (floats : Floats) (host : Host) (calls : Syscalls)
    (calls-IsConfined : (n : ℕ) → IsConfined (calls n)) where
  instr-IsEntry :
      (exec : Exec (Unit {0}))
      → IsConfined exec
      → (o : ℕ) → IsEntry (instr (host_table floats host) calls exec o)
  unfolding instr
  instr-IsEntry exec h o =
      IsEntry-or_else _ _
        (IsEntry-if (ltb o 0x40) _ _ (low_table-IsEntry o) (
          IsEntry-if (ltb o 0x80) _ _ (middle_table-IsEntry o) (
            IsEntry-if (ltb o 0x100) _ _
              (IsEntry-or_else _ _ (high_table-IsEntry o) (
                top_table-IsEntry calls exec o (rep-IsConfined exec h)
                  (int_imm-IsConfined calls calls-IsConfined)))
              (IsEntry-if (o / 256 == 0x0f) _ _ (extended_table-IsEntry (o % 256)) IsEntry-none))))
        (host_table-IsEntry floats host o)

tried :
    (vm : Machine) (o : Outcome Bool)
    → Confined vm (machine_of o)
    → Confined vm (
        machine_of (elim o as (λ x. Outcome (Option Bool)) [
          | done b vm' ↦ done (some b) vm'
          | raised e vm' ↦ raised e vm'
        ]))
tried vm (done b vm') h = h
tried vm (raised e vm') h = h

looked_up :
    (vm : Machine) (entry : Option (List Handler))
    → IsEntry entry
    → Confined vm (
        machine_of (elim entry as (λ x. Outcome (Option Bool)) [
          | none ↦ done none vm
          | some impls ↦ elim (try_all impls vm) [
            | done b vm' ↦ done (some b) vm'
            | raised e vm' ↦ raised e vm'
          ]
        ]))
looked_up vm none h = Confined-refl vm
looked_up vm (some impls) h = tried vm (try_all impls vm) ((h.found impls refl).trial.at vm)

shifted-IsConfined :
    (b : ℕ) → IsConfined (modify (λ vm. record vm { opcode = vm.opcode * 256 + b }))
shifted-IsConfined b = IsConfined-modify _ (λ vm. refl)

next_opcode_byte-IsConfined : IsConfined next_opcode_byte
unfolding next_opcode_byte
next_opcode_byte-IsConfined = search (handler_rules, shifted-IsConfined)

advanced-IsConfined : IsConfined (modify (λ vm. record vm { eip = vm.eip +ℤ pos 1 }))
advanced-IsConfined = IsConfined-modify _ (λ vm. refl)

module _ (table : ℕ → Option (List Handler)) (entries : (o : ℕ) → IsEntry (table o)) where
  try_opcode-IsConfined : IsConfined (try_opcode table)
  try_opcode-IsConfined = record { at = λ vm. looked_up vm (table vm.opcode) (entries vm.opcode) }

  finish-IsConfined : (b : Option Bool) → IsConfined (finish b)
  finish-IsConfined none = IsConfined-raise missing_opcode_error
  finish-IsConfined (some true) = IsConfined-pure tt
  finish-IsConfined (some false) = IsConfined-raise not_implemented_error

  second_try-IsConfined : IsConfined (second_try table)
  second_try-IsConfined =
      IsConfined->>= next_opcode_byte _ next_opcode_byte-IsConfined
        (λ x. IsConfined->>= (try_opcode table) _ try_opcode-IsConfined finish-IsConfined)

  after_first-IsConfined : (b : Option Bool) → IsConfined (after_first table b)
  after_first-IsConfined (some true) = IsConfined-pure tt
  after_first-IsConfined (some false) = second_try-IsConfined
  after_first-IsConfined none = second_try-IsConfined

  pub execute_with-IsConfined : IsConfined (execute_with table)
  unfolding execute_with
  execute_with-IsConfined =
      IsConfined->>= (modify (λ vm. record vm { eip = vm.eip +ℤ pos 1 })) _ advanced-IsConfined
        (λ x. IsConfined->>= (gets (λ vm. vm.opcode)) _ (IsConfined-gets _) (λ o.
          IsConfined->>= (if o == 0x0f then next_opcode_byte else pure tt) _
            (IsConfined-if (o == 0x0f) _ _ next_opcode_byte-IsConfined (IsConfined-pure tt))
            (λ y.
              IsConfined->>= (try_opcode table) _ try_opcode-IsConfined after_first-IsConfined)))

pub execute_opcode-IsConfined :
    (floats : Floats) (host : Host) (calls : Syscalls) (depth : ℕ)
    → ((n : ℕ) → IsConfined (calls n))
    → IsConfined (execute_opcode (host_table floats host) calls depth)
unfolding execute_opcode
execute_opcode-IsConfined floats host calls zero h = IsConfined-raise recursion_error
execute_opcode-IsConfined floats host calls (suc depth) h =
    execute_with-IsConfined _
      (instr-IsEntry floats host calls h _ (execute_opcode-IsConfined floats host calls depth h))
