-- ===== src/Instructions/Trap.antt =====
-- VM/instructions/control.py, `INT._3`, which asks the host for a message.
use py_vm.Prelude.{ℕ, Bool, true, List, [], ◌∷◌, pos}
use py_vm.Host.{write_text, Host}
use py_vm.Machine.{Exec, pure, ◌>>=◌}
use py_vm.Kernel.Ask.{ask, file_object}

-- "[!] It's a trap! (literally)"
abbrev pub trap_message : List ℕ
trap_message =
    91 ∷ 33 ∷ 93 ∷ 32 ∷ 73 ∷ 116 ∷ 39 ∷ 115 ∷ 32 ∷ 97 ∷ 32 ∷ 116 ∷ 114 ∷ 97 ∷ 112 ∷ 33 ∷ 32 ∷ 40
    ∷ 108 ∷ 105 ∷ 116 ∷ 101 ∷ 114 ∷ 97 ∷ 108 ∷ 108 ∷ 121 ∷ 41 ∷ []

-- `vm.descriptors[2].write(...)`
unfoldable pub int3 : Host → Exec Bool
unfolding file_object
int3 host = do
  err_file ← file_object (pos 2)
  _ ← ask host.written (write_text err_file trap_message)
  pure true
