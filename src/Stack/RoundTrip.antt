-- ===== src/Stack/RoundTrip.antt =====
-- VM/CPU.py: what `stack_push` and `stack_pop` do to the registers and to the memory.
use py_vm.Prelude.{
  ℕ, ◌+◌, ◌-◌, ◌%◌, ◌≤◌, ◌<◌, ◌≡◌, refl, ap, ◌∙◌, ◌≢◌, ◌⊎◌, inl, inr, true, false, arith,
  Bool-cases, ℤ, pos, sub_ℕ, ◌%ℤ◌, ltb_ℤ,
}
use py_vm.Bytes.{Buffer}
use py_vm.Outcome.{Exn, runtime_error, ok, returned_cases}
use py_vm.Misc.{modulus}
use py_vm.Misc.Laws.{IsSize, mod_range}
use py_vm.Machine.{Machine, done, raised, ◌>>◌, >>=-done}
use py_vm.Stack.{stack_push, stack_pop}
use py_vm.Registers.Laws.{reg_stored, reg_set_lem, get-reg_stored, first_byte, get-reg_stored_ne}
use py_vm.Memory.Laws.{
  in_bounds, access_checked, mem_stored, mem_set_lem, get-mem_stored, mem_stored_outside,
}
use py_vm.Registers
use py_vm.Memory

-- The stack pointer is `e`, addresses of the stack have 32 bits, and a value of the operand size fits
-- under it and over the program break.
pub record CanPush (vm : Machine) (e : ℕ) : Type 0 where
  pub esp_value : Registers.get vm.reg 4 4 ≡ ok e
  pub esp_range : e < 4294967296
  pub wide_stack : vm.stack_address_size ≡ 4
  pub word : IsSize vm.operand_size
  pub room : vm.operand_size ≤ e
  pub above_break : ltb_ℤ (pos (e - vm.operand_size)) vm.mem.program_break ≡ false
  pub in_memory : vm.mem.segment_base + e ≤ vm.mem.size

-- The state after a push.
unfoldable pub pushed : ℤ → ℕ → Machine → Machine
pushed v e vm = record vm {
  reg = reg_stored vm.reg 4 4 (e - vm.operand_size);
  mem =
      mem_stored vm.mem (vm.mem.segment_base + (e - vm.operand_size)) vm.operand_size
        (v %ℤ modulus vm.operand_size);
}

four : IsSize 4
four = inr (inr refl)

pub stack_push_lem :
    (vm : Machine) (e : ℕ) (v : ℤ) → CanPush vm e → stack_push v vm ≡ done tt (pushed v e vm)
unfolding stack_push pushed
stack_push_lem vm e v h = ground (
  arith,
  mem_set_lem vm.mem (e - vm.operand_size) vm.operand_size v h.word,
  reg_set_lem vm.reg 4 4 (pos (e - vm.operand_size)) four,
)

-- The state after a pop.
unfoldable pub popped : ℕ → ℕ → Machine → Machine
popped sz e vm = record vm { reg = reg_stored vm.reg 4 4 ((e + sz) % 4294967296) }

pub stack_pop_lem :
    (vm : Machine) (e sz v : ℕ)
    → Registers.get vm.reg 4 4 ≡ ok e
    → vm.stack_address_size ≡ 4
    → Memory.get vm.mem (pos e) sz ≡ ok v
    → stack_pop sz vm ≡ done v (popped sz e vm)
unfolding stack_pop popped
stack_pop_lem vm e sz v p q r = ground (arith, reg_set_lem vm.reg 4 4 (pos (e + sz)) four)

slot_in_memory : (b e sz limit : ℕ) → sz ≤ e → b + e ≤ limit → b + (e - sz) + sz ≤ limit
slot_in_memory b e sz limit p q = omega arith

pub get-pushed :
    (vm : Machine) (e : ℕ) (v : ℤ)
    → CanPush vm e
    → Memory.get (pushed v e vm).mem (pos (e - vm.operand_size)) vm.operand_size
      ≡ ok (v %ℤ modulus vm.operand_size)
unfolding pushed
get-pushed vm e v h =
    get-mem_stored vm.mem (e - vm.operand_size) vm.operand_size (v %ℤ modulus vm.operand_size)
      h.word (mod_range v vm.operand_size h.word)
      (slot_in_memory vm.mem.segment_base e vm.operand_size vm.mem.size h.room h.in_memory)

pub esp-pushed :
    (vm : Machine) (e : ℕ) (v : ℤ)
    → CanPush vm e
    → Registers.get (pushed v e vm).reg 4 4 ≡ ok (e - vm.operand_size)
unfolding pushed
esp-pushed vm e v h =
    let range = h.esp_range in get-reg_stored vm.reg 4 4 (e - vm.operand_size) four (omega arith)

pub esp-popped :
    (vm : Machine) (sz e : ℕ)
    → e + sz < 4294967296
    → Registers.get (popped sz e vm).reg 4 4 ≡ ok (e + sz)
unfolding popped
esp-popped vm sz e h =
    let same : (e + sz) % 4294967296 ≡ e + sz = omega arith in
    rw same (get-reg_stored vm.reg 4 4 (e + sz) four h)

other_register :
    (reg : Buffer) (r w : ℕ)
    → r ≢ 4
    → Registers.get (reg_stored reg 4 4 w) r 4 ≡ Registers.get reg r 4
other_register reg r w ne =
    get-reg_stored_ne reg 4 r 4 4 w four four (unfold first_byte in ground arith)

-- A pop behind a push, with room for the value, returns the value cut to the operand size. The stack
-- pointer has its old value again, the other registers are as they were, and so is every byte of the
-- memory outside the slot.
pub stack_pop-stack_push :
    (vm : Machine) (e : ℕ) (v : ℤ)
    → CanPush vm e
    → (vm' : Machine) × ((stack_push v >> stack_pop vm.operand_size) vm
        ≡ done (v %ℤ modulus vm.operand_size) vm')
      × (Registers.get vm'.reg 4 4 ≡ ok e)
      × ((r : ℕ) → r ≢ 4 → Registers.get vm'.reg r 4 ≡ Registers.get vm.reg r 4)
      × ((j : ℕ)
          → (j < vm.mem.segment_base + (e - vm.operand_size)) ⊎ (vm.mem.segment_base + e ≤ j)
          → vm'.mem.cells j ≡ vm.mem.cells j)
stack_pop-stack_push vm e v h = (
  popped vm.operand_size (e - vm.operand_size) (pushed v e vm),
  >>=-done (stack_push v) (λ _. stack_pop vm.operand_size) (stack_push_lem vm e v h)
      ∙ stack_pop_lem (pushed v e vm) (e - vm.operand_size) vm.operand_size _ (esp-pushed vm e v h)
          (unfold pushed in h.wide_stack) (get-pushed vm e v h),
  restored,
  λ r ne. unfold popped pushed in other_register _ r _ ne ∙ other_register _ r _ ne,
  λ j out.
      unfold popped pushed in
      mem_stored_outside vm.mem _ vm.operand_size _ j h.word (outside j out),
)
  where
    back : e - vm.operand_size + vm.operand_size ≡ e
    back = let room = h.room in omega arith

    range : e - vm.operand_size + vm.operand_size < 4294967296
    range = let r = h.esp_range in rw back r

    restored :
        Registers.get (popped vm.operand_size (e - vm.operand_size) (pushed v e vm)).reg 4 4 ≡ ok e
    restored = esp-popped (pushed v e vm) vm.operand_size (e - vm.operand_size) range ∙ ap ok back

    outside :
        (j : ℕ)
        → (j < vm.mem.segment_base + (e - vm.operand_size)) ⊎ (vm.mem.segment_base + e ≤ j)
        → (j < vm.mem.segment_base + (e - vm.operand_size))
          ⊎ (vm.mem.segment_base + (e - vm.operand_size) + vm.operand_size ≤ j)
    outside j (inl p) = inl p
    outside j (inr p) = let room = h.room in inr (omega arith)

-- A push that would go below the program break, or whose slot is not in the memory, raises and
-- changes nothing.
pub stack_push_refused :
    (vm : Machine) (e : ℕ) (v : ℤ)
    → Registers.get vm.reg 4 4 ≡ ok e
    → vm.stack_address_size ≡ 4
    → IsSize vm.operand_size
    → (ltb_ℤ (sub_ℕ e vm.operand_size) vm.mem.program_break ≡ true)
      ⊎ (in_bounds vm.mem.size vm.mem.segment_base (sub_ℕ e vm.operand_size) vm.operand_size
          ≡ false)
    → (x : Exn) × (stack_push v vm ≡ raised x vm)
unfolding stack_push
stack_push_refused vm e v p q w (inl below) = (runtime_error, ground arith)
stack_push_refused vm e v p q w (inr outside) =
    elim (Bool-cases (ltb_ℤ (sub_ℕ e vm.operand_size) vm.mem.program_break)) [
      | inl below ↦ (runtime_error, ground arith)
      | inr above ↦
          let checked = access_checked vm.mem (sub_ℕ e vm.operand_size) vm.operand_size 0 v 0 w in
          let (x, failed) =
            returned_cases (Memory.set vm.mem (sub_ℕ e vm.operand_size) vm.operand_size v)
              (checked.1 ∙ outside) in
          (x, ground (arith, failed))
    ]
