-- ===== src/Machine.antt =====
-- The state of the virtual machine (VM/CPU.py `CPU32`, VM/__init__.py `VM` and VM/kernel/kernel.py
-- `Kernel`) and its actions: state passing with Python's exceptions, which keep the changes made
-- before the raise. `trace` is not a field of the source: it lists what was asked of the host. Nor is
-- `torn_blocks`: it is the source's list of free blocks, with Nones, once the fusing of `munmap` has raised;
-- `free_memory_blocks` is that list as long as it has none. No call follows such an exception, which ends `run`.

use py_vm.Prelude.{ℕ, ◌≡◌, refl, ap, Bool, Option, List, if◌then◌else◌, ℤ, pos, ◌+ℤ◌}
use py_vm.Bytes.{Buffer}
use py_vm.Outcome.{Exn, Result, ok, err}
use py_vm.Segments.{Entry, Sreg, get_sreg}
use py_vm.Host.{Event}
use py_vm.Registers
use py_vm.Registers.{Flags}
use py_vm.Memory
use py_vm.Memory.{Memory}
use py_vm.Fpu.{Fpu}

pub record Machine : Type 0 where
  pub reg : Buffer
  pub flags : Flags
  pub sreg : Sreg
  pub mem : Memory
  pub eip : ℤ
  pub opcode : ℕ
  pub current_mode : ℕ
  pub operand_size : ℕ
  pub address_size : ℕ
  pub stack_address_size : ℕ
  pub code_segment_end : ℤ
  pub running : Bool
  pub gdt : List Entry
  pub free_memory_blocks : List (ℕ × ℕ)
  pub torn_blocks : Option (List (Option (ℕ × ℕ)))
  pub fpu : Fpu
  pub descriptors : List (Option ℕ)
  pub retcode : Option ℕ
  pub trace : List Event

-- How an action ends: with a value, or by an exception.
pub data Outcome (A : Type 0) : Type 0 where
  done : A → Machine → Outcome A
  raised : Exn → Machine → Outcome A

abbrev pub Exec : Type 0 → Type 0
Exec A = Machine → Outcome A

abbrev pub pure : {A : Type 0} → A → Exec A
pure a vm = done a vm

abbrev pub raise : {A : Type 0} → Exn → Exec A
raise e vm = raised e vm

infixl 5 ◌>>=◌ ◌>>◌
abbrev pub ◌>>=◌ : {A B : Type 0} → Exec A → (A → Exec B) → Exec B
◌>>=◌ m f vm = elim (m vm) [ done a vm' ↦ f a vm' | raised e vm' ↦ raised e vm' ]

abbrev pub ◌>>◌ : {B : Type 0} → Exec (Unit {0}) → Exec B → Exec B
m >> k = m >>= λ _. k

-- Where the first part of a chain returns, or raises.
pub >>=-done :
    {A B : Type 0} (m : Exec A) (f : A → Exec B) {vm vm' : Machine} {a : A}
    → m vm ≡ done a vm'
    → (m >>= f) vm ≡ f a vm'
>>=-done m f p = ap (λ o. elim o [ done a vm' ↦ f a vm' | raised e vm' ↦ raised e vm' ]) p

pub >>=-raised :
    {A B : Type 0} (m : Exec A) (f : A → Exec B) {vm vm' : Machine} {e : Exn}
    → m vm ≡ raised e vm'
    → (m >>= f) vm ≡ raised e vm'
>>=-raised m f p = ap (λ o. elim o [ done a vm' ↦ f a vm' | raised e vm' ↦ raised e vm' ]) p

after :
    {A B : Type 0} (o : Outcome A) (f : A → Exec B) {b : B} {vm' : Machine}
    → Path (Outcome B) (elim o [ done a vm₁ ↦ f a vm₁ | raised e vm₁ ↦ raised e vm₁ ]) (done b vm')
    → (a : A) × (vm₁ : Machine) × (o ≡ done a vm₁) × (f a vm₁ ≡ done b vm')
after (done a vm₁) f p = (a, vm₁, refl, p)
after (raised e vm₁) f p = cc

-- A chain that returned has two parts that returned.
pub >>=-eq-done :
    {A B : Type 0} (m : Exec A) (f : A → Exec B) (vm : Machine) {vm' : Machine} {b : B}
    → (m >>= f) vm ≡ done b vm'
    → (a : A) × (vm₁ : Machine) × (m vm ≡ done a vm₁) × (f a vm₁ ≡ done b vm')
>>=-eq-done m f vm p = after (m vm) f p

abbrev pub gets : {A : Type 0} → (Machine → A) → Exec A
gets f vm = done (f vm) vm

abbrev pub modify : (Machine → Machine) → Exec (Unit {0})
modify f vm = done tt (f vm)

-- A method of a part of the machine that returns or raises.
abbrev pub lift : {A : Type 0} → (Machine → Result A) → Exec A
lift f vm = elim (f vm) [ ok a ↦ done a vm | err e ↦ raised e vm ]

abbrev pub lift_reg : (Buffer → Result Buffer) → Exec (Unit {0})
lift_reg f vm = elim (f vm.reg) [ ok r ↦ done tt (record vm { reg = r }) | err e ↦ raised e vm ]

abbrev pub lift_mem : (Memory → Result Memory) → Exec (Unit {0})
lift_mem f vm = elim (f vm.mem) [ ok m ↦ done tt (record vm { mem = m }) | err e ↦ raised e vm ]

-- The calls `vm.reg.get`, `vm.reg.set`, `vm.mem.get` and `vm.mem.set`.
abbrev pub get_reg : ℕ → ℕ → Exec ℕ
get_reg offset size = lift (λ vm. Registers.get vm.reg offset size)

abbrev pub get_reg_signed : ℕ → ℕ → Exec ℤ
get_reg_signed offset size = lift (λ vm. Registers.get_signed vm.reg offset size)

abbrev pub set_reg : ℕ → ℕ → ℤ → Exec (Unit {0})
set_reg offset size value = lift_reg (λ r. Registers.set r offset size value)

abbrev pub get_mem : ℤ → ℕ → Exec ℕ
get_mem offset size = lift (λ vm. Memory.get vm.mem offset size)

abbrev pub get_mem_signed : ℤ → ℕ → Exec ℤ
get_mem_signed offset size = lift (λ vm. Memory.get_signed vm.mem offset size)

abbrev pub set_mem : ℤ → ℕ → ℤ → Exec (Unit {0})
set_mem offset size value = lift_mem (λ m. Memory.set m offset size value)

abbrev pub set_eip : ℤ → Exec (Unit {0})
set_eip e = modify (λ vm. record vm { eip = e })

abbrev pub set_flags : (Flags → Flags) → Exec (Unit {0})
set_flags f = modify (λ vm. record vm { flags = f vm.flags })

-- `vm.mem.get_eip(vm.eip, size)` and then `vm.eip += size`.
unfoldable pub fetch : ℕ → Exec ℕ
fetch size = do
  e ← gets (λ vm. vm.eip)
  v ← lift (λ vm. Memory.get_eip vm.mem e size)
  set_eip (e +ℤ pos size)
  pure v

unfoldable pub fetch_signed : ℕ → Exec ℤ
fetch_signed size = do
  e ← gets (λ vm. vm.eip)
  v ← lift (λ vm. Memory.get_eip_signed vm.mem e size)
  set_eip (e +ℤ pos size)
  pure v

-- `vm.mem.get(vm.eip, size)`, through the data segment, and then `vm.eip += size`.
unfoldable pub fetch_data : ℕ → Exec ℕ
fetch_data size = do e ← gets (λ vm. vm.eip); v ← get_mem e size; set_eip (e +ℤ pos size); pure v

unfoldable pub fetch_data_signed : ℕ → Exec ℤ
fetch_data_signed size = do
  e ← gets (λ vm. vm.eip)
  v ← get_mem_signed e size
  set_eip (e +ℤ pos size)
  pure v

-- `sz = 1 if _8bit else vm.operand_size`
abbrev pub operand_width : Bool → Exec ℕ
operand_width bits8 = gets (λ vm. if bits8 then 1 else vm.operand_size)

-- The setter of `Memory.segment_override`: it moves the segment base and stores no number, so the
-- getter always answers 3, the number of DS.
unfoldable pub set_segment_override : ℕ → Exec (Unit {0})
set_segment_override n vm = elim (get_sreg vm.sreg n) [
  | ok s ↦ done tt (record vm { mem = record vm.mem { segment_base = s.base } })
  | err e ↦ raised e vm
]

abbrev pub segment_override : ℕ
segment_override = 3
