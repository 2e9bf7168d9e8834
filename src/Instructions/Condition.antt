-- ===== src/Instructions/Condition.antt =====
-- VM/instructions/control.py, the sixteen conditions of `JUMPS`, by their place in the list.
use py_vm.Prelude.{ℕ, ◌/◌, ◌%◌, Bool, not, ◌&&◌, ◌||◌, ◌==◌, if◌then◌else◌}
use py_vm.Registers.{Flags}

-- The truth of a flag.
abbrev pub is_set : ℕ → Bool
is_set x = not (x == 0)

-- JO, JB, JZ, JBE, JS, JP, JL and JLE.
unfoldable pub positive_cond : ℕ → Flags → Bool
positive_cond n f =
    if n == 0
    then is_set f.of
    else if n == 1
    then is_set f.cf
    else if n == 2
    then is_set f.zf
    else if n == 3
    then is_set f.cf || is_set f.zf
    else if n == 4
    then is_set f.sf
    else if n == 5
    then is_set f.pf
    else if n == 6
    then not (f.sf == f.of)
    else is_set f.zf || not (f.sf == f.of)

-- JNO, JNB, JNZ, JNBE, JNS, JNP, JNL and JNLE.
unfoldable pub negative_cond : ℕ → Flags → Bool
negative_cond n f =
    if n == 0
    then not (is_set f.of)
    else if n == 1
    then not (is_set f.cf)
    else if n == 2
    then not (is_set f.zf)
    else if n == 3
    then not (is_set f.cf) && not (is_set f.zf)
    else if n == 4
    then not (is_set f.sf)
    else if n == 5
    then not (is_set f.pf)
    else if n == 6
    then f.sf == f.of
    else not (is_set f.zf) && (f.sf == f.of)

-- `eval(JUMPS[cc])`
unfoldable pub cond_holds : ℕ → Flags → Bool
unfolding positive_cond negative_cond
cond_holds cc f = if cc % 2 == 0 then positive_cond (cc / 2) f else negative_cond (cc / 2) f
