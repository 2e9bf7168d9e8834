-- ===== src/Examples/Storage.antt =====
-- The theorems on the registers, the memory, the stack and the operand bytes at concrete inputs.
use py_vm.Prelude.{
  ℕ, ◌+◌, ◌-◌, ◌≤◌, ◌<◌, ◌≡◌, refl, ◌≢◌, ◌⊎◌, inr, true, List, [], ◌∷◌, arith, ◌==◌, if◌then◌else◌,
  pos, negsuc, ◌+ℤ◌, ◌%ℤ◌,
}
use py_vm.Outcome.{ok, returned}
use py_vm.Misc.{modulus}
use py_vm.Misc.Laws.{IsSize}
use py_vm.Machine.{Machine, done, ◌>>◌, fetch, fetch_signed}
use py_vm.Stack.{stack_push, stack_pop}
use py_vm.Stack.RoundTrip.{CanPush, stack_pop-stack_push}
use py_vm.Memory.Laws.{in_bounds, access_checked, get-set}
use py_vm.ModRm.{
  in_reg, in_mem, mod_field, reg_field, rm_field, displacement, scaled_index, add_base, process_sib,
  operands, process_modrm,
}
use py_vm.ModRm.Decoding.{modrm_length, effective_address, process_modrm_lem}
use py_vm.Instructions.Call.{call_rel, ret_near}
use py_vm.Instructions.Call.Return.{ret_near-call_rel}
use py_vm.Examples.{some_registers, machine}
use py_vm.Registers
use py_vm.Memory
use py_vm.Memory.{Memory}

four : IsSize 4
four = inr (inr refl)

abbrev start : Machine
start = machine []

abbrev small : Memory
small = (machine []).mem

-- `[ecx + 8 * eax + 16]`, with the SIB byte 0xC1.
abbrev sib_code : Machine
sib_code = machine (0x54 ∷ 0xc1 ∷ 16 ∷ [])

sib_read : Memory.get_eip sib_code.mem (pos 0) 1 ≡ ok 0x54
unfolding Memory.get_eip
sib_read = refl

sib_decoded : process_modrm sib_code ≡ done (in_mem (pos 2423), 2) (record sib_code { eip = pos 3 })
unfolding process_modrm operands process_sib displacement scaled_index add_base fetch fetch_signed
    Memory.get_eip Memory.get_eip_signed Registers.get_signed
sib_decoded = refl

process_modrm_lem_example :
    (record sib_code { eip = pos 3 } ≡ record sib_code { eip = pos (0 + modrm_length 0x54 0xc1) })
    × (2 ≡ reg_field 0x54)
    × (in_mem (pos 2423) ≡ (
        if mod_field 0x54 == 3
        then in_reg (rm_field 0x54)
        else in_mem (effective_address sib_code 0 0x54 0xc1)))
process_modrm_lem_example =
    process_modrm_lem sib_code (record sib_code { eip = pos 3 }) 0 0x54 0xc1 2 (in_mem (pos 2423))
      refl sib_read refl sib_decoded

get-set_example :
    (m' : Memory) × (Memory.set small (pos 20) 4 (negsuc 5) ≡ ok m')
    × (Memory.get m' (pos 20) 4 ≡ ok (negsuc 5 %ℤ modulus 4))
    × ((j : ℕ)
        → (j < small.segment_base + 20) ⊎ (small.segment_base + 20 + 4 ≤ j)
        → m'.cells j ≡ small.cells j)
get-set_example = get-set small 20 4 (negsuc 5) four (omega arith)

access_checked_example :
    (returned (Memory.get small (pos 253) 4) ≡ in_bounds small.size small.segment_base (pos 253) 4)
    × (returned (Memory.set small (pos 253) 4 (pos 1))
        ≡ in_bounds small.size small.segment_base (pos 253) 4)
    × (returned (Memory.get_eip small (pos 253) 4) ≡ in_bounds small.size 0 (pos 253) 4)
    × (returned (Memory.get_bytes small (pos 253) 3)
        ≡ in_bounds small.size small.segment_base (pos 253) 3)
    × (returned (Memory.memset small (pos 253) 9 3) ≡ in_bounds small.size 0 (pos 253) 3)
access_checked_example = access_checked small (pos 253) 4 3 (pos 1) 9 four

esp_is : Registers.get some_registers 4 4 ≡ ok 128
unfolding Registers.get
esp_is = refl

can_push : (code : List ℕ) → CanPush (machine code) 128
can_push code = record {
  esp_value = esp_is;
  esp_range = omega arith;
  wide_stack = refl;
  word = four;
  room = omega arith;
  above_break = refl;
  in_memory = omega arith;
}

stack_pop-stack_push_example :
    (vm' : Machine) × ((stack_push (pos 77) >> stack_pop start.operand_size) start
      ≡ done (pos 77 %ℤ modulus start.operand_size) vm')
    × (Registers.get vm'.reg 4 4 ≡ ok 128)
    × ((r : ℕ) → r ≢ 4 → Registers.get vm'.reg r 4 ≡ Registers.get start.reg r 4)
    × ((j : ℕ)
        → (j < start.mem.segment_base + (128 - start.operand_size))
          ⊎ (start.mem.segment_base + 128 ≤ j)
        → vm'.mem.cells j ≡ start.mem.cells j)
stack_pop-stack_push_example = stack_pop-stack_push start 128 (pos 77) (can_push [])

-- `call +11`, with its operand at address 2.
abbrev call_code : Machine
call_code = record (machine (0 ∷ 0xe8 ∷ 11 ∷ 0 ∷ 0 ∷ 0 ∷ [])) { eip = pos 2 }

call_operand : Memory.get_signed call_code.mem (pos 2) 4 ≡ ok (pos 11)
unfolding Memory.get_signed
call_operand = refl

call_room : CanPush call_code 128
call_room = record {
  esp_value = esp_is;
  esp_range = omega arith;
  wide_stack = refl;
  word = four;
  room = omega arith;
  above_break = refl;
  in_memory = omega arith;
}

ret_near-call_rel_example :
    (vm₁ vm₂ : Machine) × (call_rel call_code ≡ done true vm₁)
    × (vm₁.eip ≡ pos (2 + 4) +ℤ pos 11)
    × (ret_near vm₁ ≡ done true vm₂)
    × (vm₂.eip ≡ pos (2 + 4))
    × (Registers.get vm₂.reg 4 4 ≡ ok 128)
ret_near-call_rel_example =
    ret_near-call_rel call_code 2 128 (pos 11) call_room refl refl (omega arith) call_operand
