-- ===== src/Instructions/Call/Return.antt =====
-- VM/instructions/control.py: a return behind a call.
use py_vm.Prelude.{
  ℕ, ◌+◌, ◌-◌, ◌%◌, ◌<◌, ◌≡◌, refl, subst, ap, ◌∙◌, true, arith, ℤ, pos, ◌+ℤ◌, ◌%ℤ◌,
}
use py_vm.Outcome.{ok}
use py_vm.Misc.{modulus, to_signed}
use py_vm.Machine.{Machine, done, fetch_data_signed}
use py_vm.Stack.RoundTrip.{
  CanPush, pushed, stack_push_lem, popped, stack_pop_lem, get-pushed, esp-pushed, esp-popped,
}
use py_vm.Instructions.Call.{call_rel, ret_near}
use py_vm.Registers
use py_vm.Memory

-- The state after the call reads its operand and pushes the address behind it.
unfoldable pub called : ℕ → ℕ → ℤ → Machine → Machine
unfolding pushed
called o e dest vm = record (pushed (pos (o + 4)) e (record vm { eip = pos (o + 4) })) {
  eip = pos (o + 4) +ℤ dest;
}

moved : (o e : ℕ) (vm : Machine) → CanPush vm e → CanPush (record vm { eip = pos o }) e
moved o e vm h = record {
  esp_value = h.esp_value;
  esp_range = h.esp_range;
  wide_stack = h.wide_stack;
  word = h.word;
  room = h.room;
  above_break = h.above_break;
  in_memory = h.in_memory;
}

call_rel_lem :
    (vm : Machine) (o e : ℕ) (dest : ℤ)
    → CanPush vm e
    → vm.operand_size ≡ 4
    → vm.eip ≡ pos o
    → Memory.get_signed vm.mem (pos o) 4 ≡ ok dest
    → call_rel vm ≡ done true (called o e dest vm)
unfolding call_rel called fetch_data_signed
call_rel_lem vm o e dest h w p r =
    ground (
      arith,
      stack_push_lem (record vm { eip = pos (o + 4) }) e (pos (o + 4)) (moved (o + 4) e vm h),
    )

ret_near_lem :
    (vm : Machine) (e v : ℕ)
    → Registers.get vm.reg 4 4 ≡ ok e
    → vm.stack_address_size ≡ 4
    → vm.operand_size ≡ 4
    → Memory.get vm.mem (pos e) 4 ≡ ok v
    → v < 2147483648
    → ret_near vm ≡ done true (record (popped 4 e vm) { eip = pos v })
unfolding ret_near popped to_signed
ret_near_lem vm e v p q w r b = ground (arith, stack_pop_lem vm e 4 v p q r)

slot :
    (vm : Machine) (o e : ℕ) (dest : ℤ)
    → CanPush vm e
    → vm.operand_size ≡ 4
    → o + 4 < 2147483648
    → (Memory.get (called o e dest vm).mem (pos (e - 4)) 4 ≡ ok (o + 4))
      × (Registers.get (called o e dest vm).reg 4 4 ≡ ok (e - 4))
unfolding called
slot vm o e dest h w b =
    let read =
      get-pushed (record vm { eip = pos (o + 4) }) e (pos (o + 4)) (moved (o + 4) e vm h) in
    let top = esp-pushed (record vm { eip = pos (o + 4) }) e (pos (o + 4)) (moved (o + 4) e vm h) in
    let cut : (o + 4) % 4294967296 ≡ o + 4 = omega arith in
    (
      subst
            (λ (z : ℕ).
              Memory.get (called o e dest vm).mem (pos (e - z)) z ≡ ok (pos (o + 4) %ℤ modulus z))
            w read
          ∙ ap ok cut,
      subst (λ (z : ℕ). Registers.get (called o e dest vm).reg 4 4 ≡ ok (e - z)) w top,
    )

wide :
    (vm : Machine) (o e : ℕ) (dest : ℤ)
    → ((called o e dest vm).stack_address_size ≡ vm.stack_address_size)
      × ((called o e dest vm).operand_size ≡ vm.operand_size)
unfolding called pushed
wide vm o e dest = (refl, refl)

-- A near return behind a relative call, with room on the stack and a return address below 2 ^ 31,
-- continues behind the four bytes of the call's operand, with the stack pointer as before the call.
pub ret_near-call_rel :
    (vm : Machine) (o e : ℕ) (dest : ℤ)
    → CanPush vm e
    → vm.operand_size ≡ 4
    → vm.eip ≡ pos o
    → o + 4 < 2147483648
    → Memory.get_signed vm.mem (pos o) 4 ≡ ok dest
    → (vm₁ vm₂ : Machine) × (call_rel vm ≡ done true vm₁)
      × (vm₁.eip ≡ pos (o + 4) +ℤ dest)
      × (ret_near vm₁ ≡ done true vm₂)
      × (vm₂.eip ≡ pos (o + 4))
      × (Registers.get vm₂.reg 4 4 ≡ ok e)
ret_near-call_rel vm o e dest h w p b r = (
  called o e dest vm,
  record (popped 4 (e - 4) (called o e dest vm)) { eip = pos (o + 4) },
  call_rel_lem vm o e dest h w p r,
  unfold called in refl,
  ret_near_lem (called o e dest vm) (e - 4) (o + 4) at.1 (same.0 ∙ h.wide_stack) (same.1 ∙ w) at.0
      b,
  refl,
  esp-popped (called o e dest vm) 4 (e - 4) range ∙ ap ok back,
)
  where
    at :
        (Memory.get (called o e dest vm).mem (pos (e - 4)) 4 ≡ ok (o + 4))
        × (Registers.get (called o e dest vm).reg 4 4 ≡ ok (e - 4))
    at = slot vm o e dest h w b

    same :
        ((called o e dest vm).stack_address_size ≡ vm.stack_address_size)
        × ((called o e dest vm).operand_size ≡ vm.operand_size)
    same = wide vm o e dest

    back : e - 4 + 4 ≡ e
    back = let room = h.room in let room' = rw w at room in omega arith

    range : e - 4 + 4 < 4294967296
    range = let r = h.esp_range in rw back r
