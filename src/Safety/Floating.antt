-- ===== src/Safety/Floating.antt =====
-- VM/instructions/floating.py: every handler changes the RAM only by checked writes.
use py_vm.Prelude.{ℕ, Bool, true, false, not, ◌==◌}
use py_vm.Machine.{Exec, pure, gets, lift}
use py_vm.ModRm.{reg_field}
use py_vm.Binary80.{Floats}
use py_vm.Instructions.Floating.{
  selected, location, fld, fild, fst, fist, fmulp, faddp, fdiv, fdivp, set_compared, fucom, fcom,
  fldcw, fstcw, fxch,
}
use py_vm.Safety.{
  IsConfined, IsConfined-pure, IsConfined-gets, IsConfined-lift, IsConfined->>=, IsConfined-if,
}
use py_vm.Safety.Writes.{IsConfined-set_float}
use py_vm.Safety.Operands.{handler_rules}
use py_vm.Memory

location-IsConfined : IsConfined location
location-IsConfined = search handler_rules

set_compared-IsConfined : (b : Bool) (t : ℕ × ℕ × ℕ) → IsConfined (set_compared b t)
set_compared-IsConfined true (z, p, c) = search handler_rules
set_compared-IsConfined false (z, p, c) = search handler_rules

selected-IsConfined : (k : ℕ) (body : Exec Bool) → IsConfined body → IsConfined (selected k body)
selected-IsConfined k body h = IsConfined->>= (gets (λ vm. vm.eip)) _ (IsConfined-gets _) (λ e.
    IsConfined->>= (lift (λ vm. Memory.get_eip vm.mem e 1)) _ (IsConfined-lift _)
      (λ m. IsConfined-if (not (reg_field m == k)) (pure false) _ (IsConfined-pure _) h))

ruleset float_rules = (
  selected-IsConfined, location-IsConfined, set_compared-IsConfined, IsConfined-set_float,
  handler_rules,
)

pub fmulp-IsConfined : (i : ℕ) → IsConfined (fmulp i)
unfolding fmulp
fmulp-IsConfined i = search float_rules depth 60 fits 6000

pub faddp-IsConfined : (i : ℕ) → IsConfined (faddp i)
unfolding faddp
faddp-IsConfined i = search float_rules depth 60 fits 6000

pub fdiv-IsConfined : (i : ℕ) (r : Bool) → IsConfined (fdiv i r)
unfolding fdiv
fdiv-IsConfined i r = search float_rules depth 60 fits 6000

pub fdivp-IsConfined : (i : ℕ) → IsConfined (fdivp i)
unfolding fdivp
fdivp-IsConfined i = search float_rules depth 60 fits 6000

pub fucom-IsConfined : (p i : ℕ) (e : Bool) → IsConfined (fucom p i e)
unfolding fucom
fucom-IsConfined p i e = search float_rules depth 60 fits 6000

pub fcom-IsConfined : (p i : ℕ) (e : Bool) → IsConfined (fcom p i e)
unfolding fcom
fcom-IsConfined p i e = search float_rules depth 60 fits 6000

pub fldcw-IsConfined : IsConfined fldcw
unfolding fldcw
fldcw-IsConfined = search float_rules depth 60 fits 6000

pub fstcw-IsConfined : IsConfined fstcw
unfolding fstcw
fstcw-IsConfined = search float_rules depth 60 fits 6000

pub fxch-IsConfined : (i : ℕ) → IsConfined (fxch i)
unfolding fxch
fxch-IsConfined i = search float_rules depth 60 fits 6000

pub fld-IsConfined : (floats : Floats) (b k : ℕ) → IsConfined (fld floats b k)
unfolding fld
fld-IsConfined floats b k = search float_rules depth 60 fits 6000

pub fst-IsConfined : (floats : Floats) (b k : ℕ) → IsConfined (fst floats b k)
unfolding fst
fst-IsConfined floats b k = search float_rules depth 60 fits 6000

pub fist-IsConfined : (floats : Floats) (b k : ℕ) → IsConfined (fist floats b k)
unfolding fist
fist-IsConfined floats b k = search float_rules depth 60 fits 6000

pub fild-IsConfined : (floats : Floats) (w : Bool) (k : ℕ) → IsConfined (fild floats w k)
unfolding fild
fild-IsConfined floats w k = search float_rules depth 60 fits 6000

pub ruleset float_set = (
  fmulp-IsConfined, faddp-IsConfined, fdiv-IsConfined, fdivp-IsConfined, fucom-IsConfined,
  fcom-IsConfined, fldcw-IsConfined, fstcw-IsConfined, fxch-IsConfined, fld-IsConfined,
  fst-IsConfined, fist-IsConfined, fild-IsConfined,
)
