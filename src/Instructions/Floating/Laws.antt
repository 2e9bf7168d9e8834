-- ===== src/Instructions/Floating/Laws.antt =====
-- VM/instructions/floating.py, what single instructions do.
use py_vm.Prelude.{ℕ, ◌+◌, ◌≤◌, ◌<◌, ◌≡◌, refl, sym, ap, ◌∙◌, ◌↔◌, Bool, true, false, arith, ℤ}
use py_vm.Outcome.{ok}
use py_vm.Machine.{Machine, Outcome, done, raised, Exec, ◌>>=◌, lift, lift_mem, get_mem, set_mem}
use py_vm.ModRm.{process_modrm}
use py_vm.Binary80.{Binary80, gt, Floats, to_int}
use py_vm.Binary80.Ordering.{scaled, IsOrdinary, gt-compares}
use py_vm.Fpu.{write_register, st, store}
use py_vm.Instructions.Floating.{selected, location, fild, fst, fist, compared, fcom, fxch}
use py_vm.Instructions.Condition.{positive_cond, negative_cond, cond_holds}
use py_vm.Instructions.Move.{place_location}
use py_vm.Memory
use py_vm.Memory.Floats
use py_vm.Registers.{Flags}

-- FXCH on an index in range stores the number of ST(i) into ST(0) and leaves ST(i) as it was: the two
-- are not exchanged. The condition flag 1 is cleared and nothing else changes.
pub fxch_lem :
    (i : ℕ) (vm : Machine)
    → vm.fpu.top + i < 8
    → (vm' : Machine) × (fxch i vm ≡ done true vm')
      × (st vm'.fpu 0 ≡ st vm.fpu i)
      × (st vm'.fpu i ≡ st vm.fpu i)
      × (vm'.fpu.top ≡ vm.fpu.top)
      × (vm'.fpu.c1 ≡ 0)
unfolding fxch st store
fxch_lem i vm h =
    let copied =
      write_register vm.fpu.data_registers (vm.fpu.top + 0)
        (vm.fpu.data_registers (vm.fpu.top + i)) in
    let f = record vm.fpu {
      data_registers = write_register copied (vm.fpu.top + i) (copied (vm.fpu.top + 0));
      c1 = 0;
    } in
    (record vm { fpu = f }, ground arith, ground arith, ground arith, refl, refl)

-- An instruction that returned True.
abbrev pub completed : Outcome Bool → Bool
completed (done b vm) = b
completed (raised e vm) = false

after_stays :
    {A : Type 0} (o : Outcome A) (k : A → Exec Bool)
    → ((a : A) (vm : Machine) → completed (k a vm) ≡ false)
    → completed (elim o [ done a vm ↦ k a vm | raised e vm ↦ raised e vm ]) ≡ false
after_stays (done a vm) k never = never a vm
after_stays (raised e vm) k never = refl

refused_after :
    {A : Type 0} (o : Outcome A) (k : A → Exec Bool)
    → ((a : A) (vm : Machine) → o ≡ done a vm → ⊥)
    → completed (elim o [ done a vm ↦ k a vm | raised e vm ↦ raised e vm ]) ≡ false
refused_after (done a vm) k never = absurd (never a vm refl)
refused_after (raised e vm) k never = refl

stays :
    {A : Type 0} (m : Exec A) (k : A → Exec Bool)
    → ((a : A) (vm : Machine) → completed (k a vm) ≡ false)
    → (vm : Machine) → completed ((m >>= k) vm) ≡ false
stays m k never vm = after_stays (m vm) k never

refused :
    {A : Type 0} (m : Exec A) (k : A → Exec Bool)
    → ((vm vm' : Machine) (a : A) → m vm ≡ done a vm' → ⊥)
    → (vm : Machine) → completed ((m >>= k) vm) ≡ false
refused m k never vm = refused_after (m vm) k (λ a vm'. never vm vm' a)

selected_stays :
    (k : ℕ) (body : Exec Bool)
    → ((vm : Machine) → completed (body vm) ≡ false)
    → (vm : Machine) → completed (selected k body vm) ≡ false
selected_stays k body never vm = ground (arith, never vm)

no_get8 : (loc : ℤ) (vm vm' : Machine) (a : ℕ) → get_mem loc 8 vm ≡ done a vm' → ⊥
unfolding Memory.get
no_get8 loc vm vm' a h = ground arith

no_set8 :
    (loc value : ℤ) (vm vm' : Machine) (a : Unit {0}) → set_mem loc 8 value vm ≡ done a vm' → ⊥
unfolding Memory.set
no_set8 loc value vm vm' a h = ground arith

no_store80 :
    (floats : Floats) (loc : ℤ) (value : Binary80) (vm vm' : Machine) (a : Unit {0})
    → lift_mem (λ m. Memory.Floats.set_float floats m loc 10 value) vm ≡ done a vm'
    → ⊥
unfolding Memory.Floats.set_float
no_store80 floats loc value vm vm' a h = ground arith

-- FILD m64, FISTP m64 and FSTP m80 never complete, whatever the operand: the accesses to memory know
-- no such sizes.
pub wide_operands_refused :
    (floats : Floats) (vm : Machine)
    → (completed (fild floats false 5 vm) ≡ false)
      × (completed (fist floats 8 7 vm) ≡ false)
      × (completed (fst floats 80 7 vm) ≡ false)
unfolding fild fist fst
wide_operands_refused floats vm = (
  selected_stays 5 _ (stays location _ (λ loc. refused (get_mem loc 8) _ (no_get8 loc))) vm,
  selected_stays 7 _
      (stays location _ (λ loc. stays (lift (λ v. st v.fpu 0)) _ (λ value.
        stays (lift (λ v. to_int floats value)) _
          (λ src. refused (set_mem loc 8 src) _ (no_set8 loc src)))))
      vm,
  selected_stays 7 _
      (stays process_modrm _ (λ x. stays (lift (λ v. st v.fpu 0)) _ (λ value.
        refused (lift_mem (λ m. Memory.Floats.set_float floats m (place_location x.0) 10 value)) _
          (no_store80 floats (place_location x.0) value))))
      vm,
)

-- The condition "above" of the flags that a comparison sets.
above-compared :
    (f : Flags) (a b : Binary80)
    → cond_holds 7
        (record f { zf = (compared a b).0; pf = (compared a b).1; cf = (compared a b).2 })
      ≡ gt a b
unfolding cond_holds positive_cond negative_cond compared
above-compared f a b = ground arith

fcom_flags :
    (i : ℕ) (vm : Machine) (a b : Binary80)
    → st vm.fpu 0 ≡ ok a
    → st vm.fpu i ≡ ok b
    → fcom 0 i true vm
      ≡ done true (record vm {
        flags = record vm.flags {
          zf = (compared a b).0;
          pf = (compared a b).1;
          cf = (compared a b).2;
        };
      })
unfolding fcom
fcom_flags i vm a b p q = ground arith

-- The condition "above" where a handler returned.
abbrev cond_of : Outcome Bool → Bool
cond_of (done b vm) = cond_holds 7 vm.flags
cond_of (raised e vm) = false

-- FCOMI and JA: for positive numbers that are not special and whose leading bits are set, the first
-- with an exponent that is not the smaller one, the condition "above" holds of the flags that the
-- comparison sets exactly where ST(0) has the greater value.
pub fcom-compares :
    (i : ℕ) (vm vm' : Machine) (a b : Binary80)
    → st vm.fpu 0 ≡ ok a
    → st vm.fpu i ≡ ok b
    → IsOrdinary a
    → IsOrdinary b
    → b.exponent ≤ a.exponent
    → fcom 0 i true vm ≡ done true vm'
    → (cond_holds 7 vm'.flags ≡ true) ↔ (scaled b < scaled a)
fcom-compares i vm vm' a b p q ha hb e run =
    let g = gt-compares a b ha hb e in
    let above : cond_holds 7 vm'.flags ≡ gt a b =
      ap cond_of (sym run ∙ fcom_flags i vm a b p q) ∙ above-compared vm.flags a b in
    ((λ h. g.0 (sym above ∙ h)), λ h. above ∙ g.1 h)
