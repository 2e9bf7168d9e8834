-- ===== src/FetchLoop/Prefixes.antt =====
-- VM/fetchLoop.py, the prefixes of an instruction: the loop that reads them, and what is left of
-- them behind the instruction.
use py_vm.Prelude.{
  ℕ, zero, suc, ◌+◌, ◌≤◌, ◌<◌, ◌≡◌, refl, inl, inr, Bool, true, false, ◌||◌, List, [], ◌∷◌, ◌++◌,
  arith, leb, ◌==◌, if◌then◌else◌, leb→le, Bool-cases, pos,
}
use py_vm.Outcome.{memory_error, recursion_error, ok, err}
use py_vm.Machine.{Machine, Outcome, done, raised, >>=-eq-done, set_segment_override}
use py_vm.FetchLoop.{
  is_prefix, read_prefixes, apply_override, apply_overrides, undo_override, undo_overrides,
}
use py_vm.Memory
use py_vm.Memory.{Memory}

-- A prefix among those that were read.
abbrev pub has : ℕ → List ℕ → Bool
has k [] = false
has k (o ∷ os) = (o == k) || has k os

-- The mode and the two sizes that the prefixes 0x66 and 0x67 change.
abbrev pub HasDefaults : Machine → Type 0
HasDefaults vm = (vm.current_mode ≡ 0) × (vm.operand_size ≡ 4) × (vm.address_size ≡ 4)

undone :
    (ov : ℕ) (vm vm' : Machine)
    → undo_override ov vm ≡ done tt vm'
    → (vm'.operand_size ≡ (if ov == 0x66 then 4 else vm.operand_size))
      × (vm'.address_size ≡ (if ov == 0x67 then 4 else vm.address_size))
      × (vm'.current_mode ≡ (if ov == 0x66 || ov == 0x67 then 0 else vm.current_mode))
unfolding undo_override set_segment_override
undone ov vm vm' p = ground arith

undone_all :
    (ovs : List ℕ) (vm vm' : Machine)
    → undo_overrides ovs vm ≡ done tt vm'
    → (vm'.operand_size ≡ (if has 0x66 ovs then 4 else vm.operand_size))
      × (vm'.address_size ≡ (if has 0x67 ovs then 4 else vm.address_size))
      × (vm'.current_mode ≡ (if has 0x66 ovs || has 0x67 ovs then 0 else vm.current_mode))
unfolding undo_overrides
undone_all [] vm vm' p = ground arith
undone_all (ov ∷ ovs) vm vm' p =
    let (a, vm₁, q, r) = >>=-eq-done (undo_override ov) (λ _. undo_overrides ovs) vm p in
    let one = undone ov vm vm₁ q in let rest = undone_all ovs vm₁ vm' r in ground (arith, one, rest)

applied :
    (active : Bool) (ov : ℕ) (vm vm' : Machine) (b : Bool)
    → apply_override active ov vm ≡ done b vm'
    → (((ov == 0x66) ≡ false) → vm'.operand_size ≡ vm.operand_size)
      × (((ov == 0x67) ≡ false) → vm'.address_size ≡ vm.address_size)
      × (((ov == 0x66 || ov == 0x67) ≡ false) → vm'.current_mode ≡ vm.current_mode)
unfolding apply_override set_segment_override
applied active ov vm vm' b p = ground arith

applied_all :
    (active : Bool) (ovs : List ℕ) (vm vm' : Machine)
    → apply_overrides active ovs vm ≡ done tt vm'
    → ((has 0x66 ovs ≡ false) → vm'.operand_size ≡ vm.operand_size)
      × ((has 0x67 ovs ≡ false) → vm'.address_size ≡ vm.address_size)
      × ((has 0x66 ovs || has 0x67 ovs ≡ false) → vm'.current_mode ≡ vm.current_mode)
unfolding apply_overrides
applied_all active [] vm vm' p = ground arith
applied_all active (ov ∷ ovs) vm vm' p =
    let (b, vm₁, q, r) = >>=-eq-done (apply_override active ov) (λ a. apply_overrides a ovs) vm p in
    let one = applied active ov vm vm₁ b q in
    let rest = applied_all b ovs vm₁ vm' r in ground (arith, one, rest)

-- Whatever prefixes an instruction has, and however often, undoing them leaves the 32-bit mode and
-- the sizes 4 that were in force before, if the instruction between leaves the mode and the sizes alone.
pub undo_overrides-apply_overrides :
    (ovs : List ℕ) (vm vm₁ vm₂ vm₃ : Machine)
    → HasDefaults vm
    → apply_overrides false ovs vm ≡ done tt vm₁
    → (vm₂.current_mode ≡ vm₁.current_mode)
      × (vm₂.operand_size ≡ vm₁.operand_size)
      × (vm₂.address_size ≡ vm₁.address_size)
    → undo_overrides ovs vm₂ ≡ done tt vm₃
    → HasDefaults vm₃
undo_overrides-apply_overrides ovs vm vm₁ vm₂ vm₃ d p same q =
    let before = applied_all false ovs vm vm₁ p in
    let behind = undone_all ovs vm₂ vm₃ q in ground (arith, before, behind)

-- An action ended because the fuel ran out.
abbrev pub ran_out : {A : Type 0} → Outcome A → Bool
ran_out (done a vm) = false
ran_out (raised recursion_error vm) = true
ran_out (raised e vm) = false

get_byte :
    (m : Memory) (o : ℕ)
    → m.segment_base + o + 1 ≤ m.size
    → Memory.get m (pos o) 1 ≡ ok (m.cells (m.segment_base + o))
unfolding Memory.get
get_byte m o h = ground arith

get_byte_past :
    (m : Memory) (o : ℕ)
    → m.size < m.segment_base + o + 1
    → Memory.get m (pos o) 1 ≡ err memory_error
unfolding Memory.get
get_byte_past m o h = ground arith

past_end :
    (f o : ℕ) (ovs : List ℕ) (vm : Machine)
    → vm.eip ≡ pos o
    → Memory.get vm.mem (pos o) 1 ≡ err memory_error
    → ran_out (read_prefixes (suc f) ovs vm) ≡ false
unfolding read_prefixes
past_end f o ovs vm p e = ground arith

inside :
    (f o b : ℕ) (ovs : List ℕ) (vm : Machine)
    → vm.eip ≡ pos o
    → Memory.get vm.mem (pos o) 1 ≡ ok b
    → ran_out (read_prefixes f (ovs ++ b ∷ []) (record vm { opcode = b; eip = pos (o + 1) }))
      ≡ false
    → ran_out (read_prefixes (suc f) ovs vm) ≡ false
unfolding read_prefixes
inside f o b ovs vm p e r = elim (Bool-cases (is_prefix b)) [
  | inl y ↦ ground arith
  | inr n ↦ ground arith
]

enough :
    (f o : ℕ) (ovs : List ℕ) (vm : Machine)
    → vm.eip ≡ pos o
    → vm.mem.size ≤ vm.mem.segment_base + o + f
    → ran_out (read_prefixes (suc f) ovs vm) ≡ false
enough zero o ovs vm p h = past_end 0 o ovs vm p (get_byte_past vm.mem o (omega arith))
enough (suc f) o ovs vm p h = elim (Bool-cases (leb (vm.mem.segment_base + o + 1) vm.mem.size)) [
  | inl y ↦
      inside (suc f) o _ ovs vm p (get_byte vm.mem o (leb→le _ _ y))
        (enough f (o + 1) _ _ refl (omega arith))
  | inr n ↦ past_end (suc f) o ovs vm p (get_byte_past vm.mem o (ground arith))
]

-- `step` gives the loop over the prefixes a byte of fuel more than the memory has, and that is
-- enough: from an instruction pointer that is not negative the fuel does not run out.
pub read_prefixes_enough :
    (vm : Machine) (o : ℕ) (ovs : List ℕ)
    → vm.eip ≡ pos o
    → ran_out (read_prefixes (suc vm.mem.size) ovs vm) ≡ false
read_prefixes_enough vm o ovs p = enough vm.mem.size o ovs vm p (omega arith)
