-- ===== src/FetchLoop/Single.antt =====
-- VM/fetchLoop.py, `execute_opcode` for an opcode of one byte with one implementation.
use py_vm.Prelude.{
  ℕ, ◌≡◌, ap, ◌∙◌, true, false, Option, some, List, [], ◌∷◌, arith, ◌==◌, pos, ◌+ℤ◌,
}
use py_vm.Machine.{Machine, done, ◌>>=◌, >>=-done}
use py_vm.Dispatch.{Handler, try_all}
use py_vm.FetchLoop.{try_opcode, after_first, execute_with, run}

tried :
    (table : ℕ → Option (List Handler)) (h : Handler) (vm vm' : Machine)
    → table vm.opcode ≡ some (h ∷ [])
    → h vm ≡ done true vm'
    → try_opcode table vm ≡ done (some true) vm'
unfolding try_all
tried table h vm vm' entry run = cc

pub one_opcode :
    (table : ℕ → Option (List Handler)) (h : Handler) (o : ℕ) (vm vm' : Machine)
    → (o == 0x0f) ≡ false
    → vm.opcode ≡ o
    → table o ≡ some (h ∷ [])
    → h (record vm { eip = vm.eip +ℤ pos 1 }) ≡ done true vm'
    → execute_with table vm ≡ done tt vm'
unfolding execute_with
one_opcode table h o vm vm' short p entry run =
    let vm₁ : Machine = record vm { eip = vm.eip +ℤ pos 1 } in
    let single : execute_with table vm ≡ (try_opcode table >>= after_first table) vm₁ =
      rw p (ground arith) in
    single
    ∙ >>=-done (try_opcode table) (after_first table) {vm = vm₁}
        (tried table h vm₁ vm' (ap table p ∙ entry) run)
