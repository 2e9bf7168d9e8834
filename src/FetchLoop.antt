-- ===== src/FetchLoop.antt =====
-- VM/fetchLoop.py, `FetchLoopMixin`: one instruction, the prefixes, and the instruction cycle.
pub mod Prefixes
pub mod Cycles
pub mod Single
pub mod Fill
pub mod Repeat
pub mod Block
use py_vm.Prelude.{
  length, ℕ, zero, suc, ◌+◌, ◌-◌, ◌*◌, ◌/◌, ◌%◌, Bool, true, false, ◌&&◌, ◌||◌, Option, none, some,
  List, [], ◌∷◌, ◌++◌, ◌==◌, if◌then◌else◌, ℤ, pos, negsuc, ◌+ℤ◌, ltb_ℤ,
}
use py_vm.Outcome.{not_implemented_error, missing_opcode_error, recursion_error}
use py_vm.Machine.{
  Machine, done, raised, Exec, pure, raise, ◌>>=◌, ◌>>◌, gets, modify, lift_mem, get_reg, get_mem,
  set_eip, fetch, set_segment_override,
}
use py_vm.Instructions.Control.{Syscalls}
use py_vm.Instructions.Transfer.{ds}
use py_vm.Dispatch.{Handler, try_all, instr}
use py_vm.Memory

-- `self.opcode = (self.opcode << 8) | op` with the byte that `eip` points to.
unfoldable pub next_opcode_byte : Exec (Unit {0})
next_opcode_byte = do op ← fetch 1; modify (λ vm. record vm { opcode = vm.opcode * 256 + op })

-- The implementations of the opcode, in the order in which the table lists them: `none` is a
-- KeyError, which is caught.
abbrev pub try_opcode : (ℕ → Option (List Handler)) → Exec (Option Bool)
try_opcode table vm = elim (table vm.opcode) [
  | none ↦ done none vm
  | some impls ↦ elim (try_all impls vm) [
    | done b vm' ↦ done (some b) vm'
    | raised e vm' ↦ raised e vm'
  ]
]

-- The second attempt of `execute_opcode`, after one more byte.
abbrev pub finish : Option Bool → Exec (Unit {0})
finish none = raise missing_opcode_error
finish (some true) = pure tt
finish (some false) = raise not_implemented_error

abbrev pub second_try : (ℕ → Option (List Handler)) → Exec (Unit {0})
second_try table = do next_opcode_byte; answer ← try_opcode table; finish answer

abbrev pub after_first : (ℕ → Option (List Handler)) → Option Bool → Exec (Unit {0})
after_first table (some true) = pure tt
after_first table (some false) = second_try table
after_first table none = second_try table

-- `execute_opcode` over a table.
unfoldable pub execute_with : (ℕ → Option (List Handler)) → Exec (Unit {0})
unfolding next_opcode_byte try_all
execute_with table = do
  modify (λ vm. record vm { eip = vm.eip +ℤ pos 1 })
  opcode ← gets (λ vm. vm.opcode)
  if opcode == 0x0f then next_opcode_byte else pure tt
  answer ← try_opcode table
  after_first table answer

module _ (fpu : ℕ → Option (List Handler)) (syscalls : Syscalls) where
  -- REP calls `execute_opcode` again; the first argument is how deep Python lets the calls nest.
  unfoldable pub execute_opcode : ℕ → Exec (Unit {0})
  unfolding execute_with
  execute_opcode zero = raise recursion_error
  execute_opcode (suc depth) = execute_with (instr fpu syscalls (execute_opcode depth))

-- The keys of `pref_segments`.
abbrev pub is_segment_prefix : ℕ → Bool
is_segment_prefix o = o == 0x2e || o == 0x36 || o == 0x3e || o == 0x26 || o == 0x64 || o == 0x65

abbrev pub is_prefix : ℕ → Bool
is_prefix o = is_segment_prefix o || o == 0x66 || o == 0x67 || o == 0xf0 || o == 0xf3

-- The loop that collects the prefixes and leaves the opcode in `self.opcode`; the fuel bounds the
-- bytes that it reads.
unfoldable pub read_prefixes : ℕ → List ℕ → Exec (List ℕ)
read_prefixes zero overrides = raise recursion_error
read_prefixes (suc f) overrides = do
  e ← gets (λ vm. vm.eip)
  o ← get_mem e 1
  modify (λ vm. record vm { opcode = o })
  elim (is_prefix o) [
    | false ↦ pure overrides
    | true ↦ do set_eip (e +ℤ pos 1); read_prefixes f (overrides ++ o ∷ [])
  ]

-- `self.sizes[mode]`
abbrev pub size_of_mode : ℕ → ℕ
size_of_mode mode = if mode == 0 then 4 else 2

-- `is_special = ov >> 6` and the number of the segment register.
abbrev pub override_number : ℕ → ℕ
override_number ov = if ov / 64 == 0 then ov / 8 % 4 else 4 + ov % 2

-- `self.current_mode = not self.current_mode` the first time.
abbrev pub flip_mode : Bool → Exec (Unit {0})
flip_mode active =
    modify
      (λ vm. record vm { current_mode = if active then vm.current_mode else 1 - vm.current_mode })

unfoldable pub apply_override : Bool → ℕ → Exec Bool
unfolding set_segment_override
apply_override active ov =
    if ov == 0x66
    then (do
      flip_mode active
      modify (λ vm. record vm { operand_size = size_of_mode vm.current_mode })
      pure true)
    else if ov == 0x67
    then (do
      flip_mode active
      modify (λ vm. record vm { address_size = size_of_mode vm.current_mode })
      pure true)
    else if is_segment_prefix ov
    then (do set_segment_override (override_number ov); pure active)
    else if ov == 0xf3
    then (do modify (λ vm. record vm { opcode = ov; eip = vm.eip +ℤ negsuc 0 }); pure active)
    else pure active

unfoldable pub apply_overrides : Bool → List ℕ → Exec (Unit {0})
unfolding apply_override
apply_overrides active [] = pure tt
apply_overrides active (ov ∷ ovs) = do
  active' ← apply_override active ov
  apply_overrides active' ovs

-- `default_mode` is 0.
unfoldable pub undo_override : ℕ → Exec (Unit {0})
unfolding set_segment_override
undo_override ov =
    if ov == 0x66
    then modify (λ vm. record vm { current_mode = 0; operand_size = 4 })
    else if ov == 0x67
    then modify (λ vm. record vm { current_mode = 0; address_size = 4 })
    else if is_segment_prefix ov
    then set_segment_override ds
    else pure tt

unfoldable pub undo_overrides : List ℕ → Exec (Unit {0})
unfolding undo_override
undo_overrides [] = pure tt
undo_overrides (ov ∷ ovs) = do undo_override ov; undo_overrides ovs

-- `self.running and self.eip + 1 < self.mem.size`
abbrev pub goes_on : Machine → Bool
goes_on vm = vm.running && ltb_ℤ (vm.eip +ℤ pos 1) (pos vm.mem.size)

module _ (exec : Exec (Unit {0})) where
  -- The body of the cycle; `size + 1` bytes are more than the memory has.
  unfoldable pub step : Exec (Unit {0})
  unfolding read_prefixes apply_overrides undo_overrides
  step = do
    fuel ← gets (λ vm. suc vm.mem.size)
    overrides ← read_prefixes fuel []
    apply_overrides false overrides
    exec
    undo_overrides overrides

  -- The `while` loop, for at most as many rounds as the fuel; `false` if the fuel ran out.
  unfoldable pub cycles : ℕ → Exec Bool
  unfolding step
  cycles zero vm = done false vm
  cycles (suc n) vm = elim (goes_on vm) [
    | false ↦ done true vm
    | true ↦ elim (step vm) [ done _ vm' ↦ cycles n vm' | raised e vm' ↦ raised e vm' ]
  ]

  -- `run`: EAX at the end of the loop, `none` if the fuel ran out.
  unfoldable pub run : ℕ → Exec (Option ℕ)
  unfolding cycles
  run fuel = do
    modify (λ vm. record vm { running = true })
    finished ← cycles fuel
    eax ← get_reg 0 4
    pure (if finished then some eax else none)

  -- `ExecuteBytes.execute`, and `ExecuteFlat.execute` on the file's contents.
  unfoldable pub execute_bytes : ℕ → List ℕ → ℤ → Exec (Option ℕ)
  unfolding run
  execute_bytes fuel code offset = do
    lift_mem (λ m. Memory.set_bytes m offset code)
    let last = offset +ℤ pos (length code) +ℤ negsuc 0
    modify (λ vm. record vm {
      eip = offset;
      code_segment_end = last;
      mem = record vm.mem { program_break = last };
    })
    run fuel
