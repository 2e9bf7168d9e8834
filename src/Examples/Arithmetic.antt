-- ===== src/Examples/Arithmetic.antt =====
-- The theorems on VM/instructions at concrete operands.
use py_vm.Prelude.{
  ℕ, suc, ◌+◌, ◌-◌, ◌*◌, ◌/◌, ◌%◌, ◌^◌, ◌≤◌, ◌<◌, ◌≡◌, refl, inl, inr, true, false, not, List, [],
  ◌∷◌, arith, ltb, leb, ◌==◌, if◌then◌else◌, bit, pos, negsuc, ◌+ℤ◌, ◌>>ℤ◌, neg_ℤ,
}
use py_vm.Outcome.{runtime_error, zero_division_error, ok}
use py_vm.Misc.{maxval, modulus, as_signed}
use py_vm.Misc.Laws.{IsSize}
use py_vm.Machine.{Machine, done, raised, fetch}
use py_vm.ModRm.{in_reg, in_mem, get_place, reg_field, process_plain, operands, process_modrm}
use py_vm.Instructions.AddSub.{addsub_flags, addsub_result, addsub_rm_r}
use py_vm.Instructions.AddSub.Arithmetic.{IsArithmetic, add-IsArithmetic, sub-IsArithmetic}
use py_vm.Instructions.AddSub.Chain.{value_of, carry_chain, weight, lefts, rights, carry_chain-add}
use py_vm.Instructions.AddSub.Execution.{computed, addsub_rm_r_lem}
use py_vm.Instructions.MulDiv.{div}
use py_vm.Instructions.MulDiv.Handler.{IsDividend, IsDivided, div_instruction}
use py_vm.Instructions.Compare.{compares, cond_holds-compares}
use py_vm.Instructions.Condition.{cond_holds}
use py_vm.Instructions.Shift.{shl, shr, sar, shift_loop}
use py_vm.Instructions.Shift.Loop.{shift_loop_lem}
use py_vm.Examples.{no_flags, machine}
use py_vm.Registers
use py_vm.Instructions.MulDiv
use py_vm.Memory
use py_vm.Registers.{Flags}

four : IsSize 4
four = inr (inr refl)

one : IsSize 1
one = inl refl

-- `adc [ecx], eax`: memory at 7 holds 9.
abbrev adc_code : Machine
adc_code = machine (0x01 ∷ 0 ∷ 0 ∷ 0 ∷ 0 ∷ 0 ∷ 0 ∷ 9 ∷ [])

adc_decoded : process_modrm adc_code ≡ done (in_mem (pos 7), 0) (record adc_code { eip = pos 1 })
unfolding process_modrm operands process_plain fetch Memory.get_eip Registers.get_signed
adc_decoded = refl

adc_place :
    get_place (in_mem (pos 7)) 4 (record adc_code { eip = pos 1 })
    ≡ done 9 (record adc_code { eip = pos 1 })
unfolding Memory.get
adc_place = refl

adc_source : Registers.get adc_code.reg 0 4 ≡ ok 300
unfolding Registers.get
adc_source = refl

addsub_rm_r_lem_example :
    addsub_rm_r false false false true adc_code
    ≡ done true (
        computed false false 4
          (in_mem (pos 7))
          9
          (if true then 300 + (record adc_code { eip = pos 1 }).flags.cf else 300)
          (record adc_code { eip = pos 1 }))
addsub_rm_r_lem_example =
    addsub_rm_r_lem false false false true adc_code (record adc_code { eip = pos 1 })
      (in_mem (pos 7)) 0 9 300 4 adc_decoded refl four (omega arith) adc_place adc_source

add-IsArithmetic_example :
    IsArithmetic 1
      (addsub_result false 1 200 100)
      (bit (leb (modulus 1) (200 + 100)))
      (as_signed 1 200 +ℤ as_signed 1 100)
      (addsub_flags false 1 200 100 no_flags)
    × (addsub_result false 1 200 100 + modulus 1 * (addsub_flags false 1 200 100 no_flags).cf
        ≡ 200 + 100)
add-IsArithmetic_example = add-IsArithmetic 1 200 100 no_flags one (omega arith) (omega arith)

sub-IsArithmetic_example :
    IsArithmetic 1
      (addsub_result true 1 100 200)
      (bit (ltb 100 200))
      (as_signed 1 100 +ℤ neg_ℤ (as_signed 1 200))
      (addsub_flags true 1 100 200 no_flags)
    × (addsub_result true 1 100 200 + 200
        ≡ 100 + modulus 1 * (addsub_flags true 1 100 200 no_flags).cf)
sub-IsArithmetic_example = sub-IsArithmetic 1 100 200 no_flags one (omega arith) (omega arith)

cond_holds-compares_example :
    (cond_holds (2 * 6) (addsub_flags true 1 200 100 no_flags) ≡ compares 6 1 200 100)
    × (cond_holds (2 * 6 + 1) (addsub_flags true 1 200 100 no_flags) ≡ not (compares 6 1 200 100))
cond_holds-compares_example =
    cond_holds-compares 1 200 100 6 no_flags one (omega arith) (omega arith)
      (inr (inr (inr (inl refl))))

abbrev two_words : List (ℕ × ℕ)
two_words = (255, 1) ∷ (7, 8) ∷ []

carry_chain-add_example :
    value_of 1 (carry_chain false 1 two_words no_flags).0
      + weight 1 two_words * (carry_chain false 1 two_words no_flags).1.cf
    ≡ value_of 1 (lefts two_words) + value_of 1 (rights two_words) + no_flags.cf
carry_chain-add_example =
    carry_chain-add 1 two_words no_flags one
      (omega arith, omega arith, (omega arith, omega arith, tt)) (omega arith)

-- `div cl`, with 300 in AX and 7 in CL.
abbrev div_code : Machine
div_code = machine (0xf1 ∷ [])

modrm_of_code : Memory.get_eip div_code.mem div_code.eip 1 ≡ ok 0xf1
unfolding Memory.get_eip
modrm_of_code = refl

operands_of_code : process_modrm div_code ≡ done (in_reg 1, 6) (record div_code { eip = pos 1 })
unfolding process_modrm operands fetch Memory.get_eip
operands_of_code = refl

values_of_code :
    (get_place (in_reg 1) 1 (record div_code { eip = pos 1 })
      ≡ done 7 (record div_code { eip = pos 1 }))
    × IsDividend 1 div_code.reg 300
unfolding Registers.get
values_of_code = (refl, inl (refl, refl))

abbrev seven : ℕ
seven = 7

div_instruction_example :
    ((reg_field 0xf1 == 6) ≡ false → MulDiv.div true 6 div_code ≡ done false div_code)
    × ((reg_field 0xf1 == 6) ≡ true
        → (seven ≡ 0
            → MulDiv.div true 6 div_code
              ≡ raised zero_division_error (record div_code { eip = pos 1 }))
          × (0 < 7
              → maxval 1 < 300 / 7
              → MulDiv.div true 6 div_code ≡ raised runtime_error (record div_code { eip = pos 1 }))
          × (0 < 7
              → 300 / 7 ≤ maxval 1
              → (vm'' : Machine) × (MulDiv.div true 6 div_code ≡ done true vm'')
                × IsDivided 1 (300 / 7) (300 % 7) (record div_code { eip = pos 1 }) vm''))
div_instruction_example =
    div_instruction true div_code (record div_code { eip = pos 1 }) (in_reg 1) 0xf1 300 7 1
      modrm_of_code operands_of_code refl one values_of_code.0 (omega arith) values_of_code.1

shift_loop_lem_example :
    ((shift_loop shl 1 3 (pos 37) 0).0 ≡ pos (37 * 2 ^ 3))
    × ((shift_loop shr 1 3 (pos 37) 0).0 ≡ pos (37 / 2 ^ 3))
    × ((shift_loop sar 1 3 (negsuc 20) 0).0 ≡ negsuc 20 >>ℤ 3)
    × ((shift_loop shl 1 (suc 3) (pos 37) 0).1 ≡ 37 * 2 ^ 3 / 2 ^ (1 * 8 - 1) % 2)
    × ((shift_loop shr 1 (suc 3) (pos 37) 0).1 ≡ 37 / 2 ^ 3 % 2)
shift_loop_lem_example = shift_loop_lem 1 3 37 0 (negsuc 20)
