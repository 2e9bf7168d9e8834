-- ===== src/Safety/Operands.antt =====
-- VM/misc.py `process_ModRM`, VM/CPU.py and the reads at the instruction pointer: they change the RAM
-- only by checked writes.
use py_vm.Prelude.{ℕ, refl, Bool, ℤ}
use py_vm.Outcome.{Result, ok, err}
use py_vm.Segments.{SegmentRegister, get_sreg}
use py_vm.Machine.{
  Machine, Outcome, done, raised, fetch, fetch_signed, fetch_data, fetch_data_signed, operand_width,
  set_segment_override,
}
use py_vm.Stack.{stack_push, stack_pop}
use py_vm.ModRm.{
  Place, in_reg, in_mem, get_place, get_place_signed, set_place, displacement, scaled_index,
  add_base, process_sib, process_plain, operands, process_modrm,
}
use py_vm.Fpu.{Fpu}
use py_vm.Instructions.Floating.{set_fpu, lift_fpu}
use py_vm.Safety.{Confined, machine_of, IsConfined, Confined-refl, IsConfined-modify}
use py_vm.Safety.Writes.{confined_rules}

overridden :
    (vm : Machine) (r : Result SegmentRegister)
    → Confined vm (
        machine_of (elim r as (λ x. Outcome (Unit {0})) [
          | ok s ↦ done tt (record vm { mem = record vm.mem { segment_base = s.base } })
          | err e ↦ raised e vm
        ]))
overridden vm (ok s) = record { same_size = refl; untouched = λ j h. refl }
overridden vm (err e) = Confined-refl vm

pub set_segment_override-IsConfined : (n : ℕ) → IsConfined (set_segment_override n)
unfolding set_segment_override
set_segment_override-IsConfined n = record { at = λ vm. overridden vm (get_sreg vm.sreg n) }

stored :
    (vm : Machine) (r : Result Fpu)
    → Confined vm (
        machine_of (elim r as (λ x. Outcome (Unit {0})) [
          | ok u ↦ done tt (record vm { fpu = u })
          | err e ↦ raised e vm
        ]))
stored vm (ok u) = record { same_size = refl; untouched = λ j h. refl }
stored vm (err e) = Confined-refl vm

pub lift_fpu-IsConfined : (f : Fpu → Result Fpu) → IsConfined (lift_fpu f)
lift_fpu-IsConfined f = record { at = λ vm. stored vm (f vm.fpu) }

pub set_fpu-IsConfined : (f : Fpu → Fpu) → IsConfined (set_fpu f)
set_fpu-IsConfined f = IsConfined-modify _ (λ vm. refl)

pub fetch-IsConfined : (sz : ℕ) → IsConfined (fetch sz)
unfolding fetch
fetch-IsConfined sz = search confined_rules depth 60 fits 6000

pub fetch_signed-IsConfined : (sz : ℕ) → IsConfined (fetch_signed sz)
unfolding fetch_signed
fetch_signed-IsConfined sz = search confined_rules depth 60 fits 6000

pub fetch_data-IsConfined : (sz : ℕ) → IsConfined (fetch_data sz)
unfolding fetch_data
fetch_data-IsConfined sz = search confined_rules depth 60 fits 6000

pub fetch_data_signed-IsConfined : (sz : ℕ) → IsConfined (fetch_data_signed sz)
unfolding fetch_data_signed
fetch_data_signed-IsConfined sz = search confined_rules depth 60 fits 6000

pub operand_width-IsConfined : (b : Bool) → IsConfined (operand_width b)
operand_width-IsConfined b = search confined_rules depth 60 fits 6000

pub get_place-IsConfined : (p : Place) (sz : ℕ) → IsConfined (get_place p sz)
get_place-IsConfined (in_reg n) sz = search confined_rules
get_place-IsConfined (in_mem a) sz = search confined_rules

pub get_place_signed-IsConfined : (p : Place) (sz : ℕ) → IsConfined (get_place_signed p sz)
get_place_signed-IsConfined (in_reg n) sz = search confined_rules
get_place_signed-IsConfined (in_mem a) sz = search confined_rules

pub set_place-IsConfined : (p : Place) (sz : ℕ) (v : ℤ) → IsConfined (set_place p sz v)
set_place-IsConfined (in_reg n) sz v = search confined_rules
set_place-IsConfined (in_mem a) sz v = search confined_rules

pub ruleset fetch_rules = (
  confined_rules, fetch-IsConfined, fetch_signed-IsConfined, fetch_data-IsConfined,
  fetch_data_signed-IsConfined, operand_width-IsConfined,
)

displacement-IsConfined : (md : ℕ) → IsConfined (displacement md)
unfolding displacement
displacement-IsConfined md = search fetch_rules depth 60 fits 6000

scaled_index-IsConfined : (i s : ℕ) (a : ℤ) → IsConfined (scaled_index i s a)
unfolding scaled_index
scaled_index-IsConfined i s a = search fetch_rules depth 60 fits 6000

add_base-IsConfined : (b md : ℕ) (a : ℤ) → IsConfined (add_base b md a)
unfolding add_base
add_base-IsConfined b md a = search fetch_rules depth 60 fits 6000

ruleset address_rules =
    (fetch_rules, displacement-IsConfined, scaled_index-IsConfined, add_base-IsConfined)

process_sib-IsConfined : (md : ℕ) → IsConfined (process_sib md)
unfolding process_sib
process_sib-IsConfined md = search address_rules depth 60 fits 6000

process_plain-IsConfined : (md rm : ℕ) → IsConfined (process_plain md rm)
unfolding process_plain
process_plain-IsConfined md rm = search address_rules depth 60 fits 6000

operands-IsConfined : (m : ℕ) → IsConfined (operands m)
unfolding operands
operands-IsConfined m =
    search (address_rules, process_sib-IsConfined, process_plain-IsConfined) depth 60 fits 6000

pub process_modrm-IsConfined : IsConfined process_modrm
unfolding process_modrm
process_modrm-IsConfined = search (fetch_rules, operands-IsConfined) depth 60 fits 6000

pub stack_push-IsConfined : (v : ℤ) → IsConfined (stack_push v)
unfolding stack_push
stack_push-IsConfined v = search confined_rules depth 60 fits 6000

pub stack_pop-IsConfined : (sz : ℕ) → IsConfined (stack_pop sz)
unfolding stack_pop
stack_pop-IsConfined sz = search confined_rules depth 60 fits 6000

pub ruleset handler_rules = (
  fetch_rules, get_place-IsConfined, get_place_signed-IsConfined, set_place-IsConfined,
  process_modrm-IsConfined, stack_push-IsConfined, stack_pop-IsConfined, lift_fpu-IsConfined,
  set_fpu-IsConfined, set_segment_override-IsConfined,
)
