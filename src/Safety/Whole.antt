-- ===== src/Safety/Whole.antt =====
-- The opcode table, `execute_opcode`, the instruction cycle and `execute`: the whole machine changes
-- only bytes of its RAM.
use py_vm.Prelude.{
  ℕ, ◌≡◌, subst, Bool, true, false, Option, none, some, List, [], ◌∷◌, ◌==◌, if◌then◌else◌,
}
use py_vm.Host.{Host}
use py_vm.Binary80.{Floats}
use py_vm.Instructions.Control.{Syscalls, interrupt, int_imm}
use py_vm.Instructions.Trap.{int3}
use py_vm.Instructions.Floating.Table.{register_forms, fpu_table}
use py_vm.Dispatch.{Handler, try_all, or_else, low_table, middle_table, high_table, extended_table}
use py_vm.Main.{host_table}
use py_vm.Safety.{IsConfined, IsConfined-pure, IsConfined->>=, IsConfined-if}
use py_vm.Safety.Operands.{handler_rules}
use py_vm.Safety.Arithmetic.{math_set}
use py_vm.Safety.Moves.{move_set}
use py_vm.Safety.Floating.{float_set}
use py_vm.Safety.System.{call_rules, file_object-IsConfined}

-- The implementations of one opcode.
pub record AreConfined (hs : List Handler) : Type 0 where
  pub trial : IsConfined (try_all hs)

pub AreConfined-nil : AreConfined []
unfolding try_all
AreConfined-nil = record { trial = IsConfined-pure false }

pub AreConfined-cons :
    (h : Handler) (hs : List Handler) → IsConfined h → AreConfined hs → AreConfined (h ∷ hs)
unfolding try_all
AreConfined-cons h hs c cs = record {
  trial = IsConfined->>= h _ c (λ taken. IsConfined-if taken _ _ (IsConfined-pure true) cs.trial);
}

-- An entry of the table.
pub record IsEntry (entry : Option (List Handler)) : Type 0 where
  pub found : (hs : List Handler) → entry ≡ some hs → AreConfined hs

pub IsEntry-none : IsEntry none
IsEntry-none = record { found = λ hs h. cc }

pub IsEntry-some : (hs : List Handler) → AreConfined hs → IsEntry (some hs)
IsEntry-some hs c = record { found = λ hs' h. let same : hs ≡ hs' = cc in subst AreConfined same c }

pub IsEntry-if :
    (b : Bool) (x y : Option (List Handler)) → IsEntry x → IsEntry y → IsEntry (if b then x else y)
IsEntry-if true x y h k = h
IsEntry-if false x y h k = k

pub IsEntry-or_else : (x y : Option (List Handler)) → IsEntry x → IsEntry y → IsEntry (or_else x y)
IsEntry-or_else (some hs) y h k = h
IsEntry-or_else none y h k = k

pub int_imm-IsConfined :
    (calls : Syscalls) → ((n : ℕ) → IsConfined (calls n)) → IsConfined (int_imm calls)
unfolding int_imm interrupt
int_imm-IsConfined calls h = search (handler_rules, h) depth 30 fits 3000

pub ruleset entry_rules = (
  AreConfined-nil, AreConfined-cons, IsEntry-none, IsEntry-some, IsEntry-if, IsEntry-or_else,
  math_set, move_set, float_set, IsConfined-pure,
)

pub low_table-IsEntry : (o : ℕ) → IsEntry (low_table o)
unfolding low_table
low_table-IsEntry o = search entry_rules depth 40 fits 8000

pub middle_table-IsEntry : (o : ℕ) → IsEntry (middle_table o)
unfolding middle_table
middle_table-IsEntry o = search entry_rules depth 60 fits 8000

pub high_table-IsEntry : (o : ℕ) → IsEntry (high_table o)
unfolding high_table
high_table-IsEntry o = search entry_rules depth 80 fits 8000

pub extended_table-IsEntry : (o : ℕ) → IsEntry (extended_table o)
unfolding extended_table
extended_table-IsEntry o = search entry_rules depth 80 fits 8000

pub register_forms-IsEntry : (o k : ℕ) → IsEntry (register_forms o k)
unfolding register_forms
register_forms-IsEntry o k = search entry_rules depth 80 fits 8000

pub fpu_table-IsEntry : (floats : Floats) (o : ℕ) → IsEntry (fpu_table floats o)
unfolding fpu_table
fpu_table-IsEntry floats o = search (entry_rules, register_forms-IsEntry) depth 80 fits 8000

int3-IsConfined : (host : Host) → IsConfined (int3 host)
unfolding int3
int3-IsConfined host = search (call_rules, file_object-IsConfined) depth 60 fits 6000

pub host_table-IsEntry :
    (floats : Floats) (host : Host) (o : ℕ) → IsEntry (host_table floats host o)
unfolding host_table
host_table-IsEntry floats host o =
    IsEntry-if (o == 0xcc) _ _
      (IsEntry-some (int3 host ∷ [])
        (AreConfined-cons (int3 host) [] (int3-IsConfined host) AreConfined-nil))
      (fpu_table-IsEntry floats o)
