-- ===== src/Instructions/Floating.antt =====
-- VM/instructions/floating.py: the x87 instructions, and their part of the opcode table. A handler
-- takes the location of an operand from `RM` without looking whether it is in memory, so that of a
-- register is its number.
pub mod Table
pub mod Laws
pub mod Groups
use py_vm.Prelude.{ℕ, zero, suc, ◌/◌, Bool, true, false, not, ◌==◌, if◌then◌else◌, ℤ, pos}
use py_vm.Outcome.{Result, ok, err}
use py_vm.Binary80.{Binary80, gt, lt, Floats, from_int, to_int}
use py_vm.Fpu.{Fpu, st, store, push, pop, fpu_add, fpu_mul, fpu_div}
use py_vm.Machine.{
  done, raised, Exec, pure, ◌>>=◌, ◌>>◌, gets, modify, lift, lift_mem, get_mem, set_mem, set_flags,
}
use py_vm.ModRm.{reg_field, process_modrm}
use py_vm.Instructions.Move.{place_location}
use py_vm.Binary80
use py_vm.Fpu
use py_vm.Memory
use py_vm.Memory.Floats
use py_vm.Registers.{Flags}

-- `_REG != REG`, on the ModRM byte that is read before the operands are decoded.
abbrev pub selected : ℕ → Exec Bool → Exec Bool
selected wanted body = do
  e ← gets (λ vm. vm.eip)
  modrm ← lift (λ vm. Memory.get_eip vm.mem e 1)
  if not (reg_field modrm == wanted) then pure false else body

-- `_, loc = RM`
abbrev pub location : Exec ℤ
location = do (rm, r) ← process_modrm; pure (place_location rm)

abbrev pub set_fpu : (Fpu → Fpu) → Exec (Unit {0})
set_fpu f = modify (λ vm. record vm { fpu = f vm.fpu })

abbrev pub lift_fpu : (Fpu → Result Fpu) → Exec (Unit {0})
lift_fpu f vm = elim (f vm.fpu) [ ok u ↦ done tt (record vm { fpu = u }) | err e ↦ raised e vm ]

abbrev pub pop_one : Fpu → Fpu
unfolding pop
pop_one f = (pop f).1

module _ (floats : Floats) where
  -- FLD m32fp, m64fp and m80fp.
  unfoldable pub fld : ℕ → ℕ → Exec Bool
  unfolding Fpu.push Memory.Floats.get_float
  fld bits wanted = selected wanted (do
    loc ← location
    value ← lift (λ vm. Memory.Floats.get_float floats vm.mem loc bits)
    set_fpu (λ f. Fpu.push f value)
    pure true)

  -- FILD; the dictionary of sizes has three keys.
  unfoldable pub fild : Bool → ℕ → Exec Bool
  unfolding Fpu.push from_int
  fild is32bit wanted = selected wanted (do
    let sz = if is32bit then 4 else if wanted == 0 then 2 else 8
    loc ← location
    imm ← get_mem loc sz
    set_fpu (λ f. Fpu.push f (from_int floats imm))
    pure true)

  -- FST and FSTP.
  unfoldable pub fst : ℕ → ℕ → Exec Bool
  unfolding pop st Memory.Floats.set_float
  fst bits wanted = selected wanted (do
    (rm, r) ← process_modrm
    value ← lift (λ vm. st vm.fpu 0)
    lift_mem (λ m. Memory.Floats.set_float floats m (place_location rm) (bits / 8) value)
    if r == 2 then pure true else do set_fpu pop_one; pure true)

  -- FIST and FISTP.
  unfoldable pub fist : ℕ → ℕ → Exec Bool
  unfolding pop st to_int
  fist size wanted = selected wanted (do
    loc ← location
    value ← lift (λ vm. st vm.fpu 0)
    src ← lift (λ vm. to_int floats value)
    set_mem loc size src
    if wanted == 2 then pure true else do set_fpu pop_one; pure true)

unfoldable pub fmulp : ℕ → Exec Bool
unfolding fpu_mul pop
fmulp i = do lift_fpu (λ f. fpu_mul f i 0); set_fpu pop_one; pure true

unfoldable pub faddp : ℕ → Exec Bool
unfolding fpu_add pop
faddp i = do lift_fpu (λ f. fpu_add f i 0); set_fpu pop_one; pure true

unfoldable pub fdiv : ℕ → Bool → Exec Bool
unfolding fpu_div
fdiv i reverse = do lift_fpu (λ f. if reverse then fpu_div f 0 i else fpu_div f i 0); pure true

unfoldable pub fdivp : ℕ → Exec Bool
unfolding fpu_div pop
fdivp i = do lift_fpu (λ f. fpu_div f i 0); set_fpu pop_one; pure true

-- How ST(0) stands to ST(i): the three flags ZF, PF and CF, or the condition flags 3, 2 and 0.
unfoldable pub compared : Binary80 → Binary80 → ℕ × ℕ × ℕ
unfolding gt lt Binary80.eq
compared a b =
    if gt a b
    then (0, 0, 0)
    else if lt a b
    then (0, 0, 1)
    else if Binary80.eq a b
    then (1, 0, 0)
    else (1, 1, 1)

abbrev pub set_compared : Bool → ℕ × ℕ × ℕ → Exec (Unit {0})
set_compared true (z, p, c) = set_flags (λ f. record f { zf = z; pf = p; cf = c })
set_compared false (z, p, c) = set_fpu (λ f. record f { c3 = z; c2 = p; c0 = c })

-- `for _ in range(pop)`
abbrev pub pop_times : ℕ → Fpu → Fpu
pop_times zero f = f
pop_times (suc n) f = pop_times n (pop_one f)

-- `fucom` and `fcom`, whose bodies are the same.
unfoldable pub fucom : ℕ → ℕ → Bool → Exec Bool
unfolding st pop compared
fucom pops i set_eflags = do
  a ← lift (λ vm. st vm.fpu 0)
  b ← lift (λ vm. st vm.fpu i)
  set_compared set_eflags (compared a b)
  set_fpu (pop_times pops)
  pure true

unfoldable pub fcom : ℕ → ℕ → Bool → Exec Bool
unfolding st pop compared
fcom pops i set_eflags = do
  a ← lift (λ vm. st vm.fpu 0)
  b ← lift (λ vm. st vm.fpu i)
  set_compared set_eflags (compared a b)
  set_fpu (pop_times pops)
  pure true

unfoldable pub fldcw : Exec Bool
fldcw = selected 5 (do
  loc ← location
  control ← get_mem loc 2
  set_fpu (λ f. record f { control = control })
  pure true)

-- The argument `check` chooses a debug message.
unfoldable pub fstcw : Exec Bool
fstcw = selected 7 (do
  loc ← location
  control ← gets (λ vm. vm.fpu.control)
  set_mem loc 2 (pos control)
  pure true)

-- `temp` is not a copy: it is the element of the array that the first `store` overwrites.
unfoldable pub fxch : ℕ → Exec Bool
unfolding st store
fxch i = do
  temp ← lift (λ vm. st vm.fpu 0)
  value ← lift (λ vm. st vm.fpu i)
  lift_fpu (λ f. store f 0 value)
  temp' ← lift (λ vm. st vm.fpu 0)
  lift_fpu (λ f. store f i temp')
  set_fpu (λ f. record f { c1 = 0 })
  pure true
