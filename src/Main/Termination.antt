-- ===== src/Main/Termination.antt =====
-- VM/fetchLoop.py `run`, with VM/__init__.py `VM.interrupt` and `sys_exit`: how a program ends.
use py_vm.Prelude.{
  ℕ, suc, ◌+◌, ◌%◌, ◌^◌, ◌≤◌, ◌<◌, ◌≡◌, refl, ap, ◌∙◌, inl, Bool, true, false, ◌&&◌, Option, some,
  List, [], ◌∷◌, arith, ℤ, pos, ◌+ℤ◌, ◌%ℤ◌, ltb_ℤ,
}
use py_vm.Bytes.{read32, write32}
use py_vm.Bytes.Laws.{read32-write32}
use py_vm.Host.{Event, write_text, Host}
use py_vm.Misc.{as_signed}
use py_vm.Misc.Laws.{mod_range}
use py_vm.Machine.{Machine, done, Exec, pure, ◌>>=◌, >>=-done, get_reg, set_reg, fetch}
use py_vm.Instructions.Control.{Syscalls, interrupt, int_imm}
use py_vm.Dispatch.{high_table, top_table, instr}
use py_vm.Binary80.{Floats}
use py_vm.Kernel.Process.{exit_message, sys_exit}
use py_vm.Kernel.Process.Exit.{AnswersAll, sys_exit_lem}
use py_vm.Kernel.Table.{process_calls, syscalls}
use py_vm.FetchLoop.{
  execute_opcode, read_prefixes, apply_overrides, undo_overrides, goes_on, step, cycles, run,
}
use py_vm.FetchLoop.Cycles.{next, goes, stops}
use py_vm.FetchLoop.Single.{one_opcode}
use py_vm.Main.{host_table, vm_instruction}
use py_vm.Memory
use py_vm.Registers

-- The next instruction, at the address `o`, is `int 0x80` with the number of `exit` in EAX.
abbrev pub IsExitCall : Machine → ℕ → Type 0
IsExitCall vm o =
    (vm.eip ≡ pos o)
    × (vm.mem.segment_base ≡ 0)
    × (o + 2 ≤ vm.mem.size)
    × (vm.mem.cells o ≡ 0xcd)
    × (vm.mem.cells (o + 1) ≡ 0x80)
    × (read32 vm.reg 0 ≡ 1)

-- The low eight bits of EBX.
abbrev pub exit_status : Machine → ℕ
exit_status vm = as_signed 4 (read32 vm.reg 12) %ℤ 256

small : (n : ℕ) → n < 256 → n % 2 ^ 32 % 2 ^ 32 ≡ n
small n h = ground arith

fetched :
    (vm : Machine) (e : ℕ)
    → vm.eip ≡ pos e
    → e + 1 ≤ vm.mem.size
    → fetch 1 vm ≡ done (vm.mem.cells e) (record vm { eip = pos (e + 1) })
unfolding fetch Memory.get_eip
fetched vm e p h = ground arith

no_prefixes :
    (vm : Machine) (o n : ℕ)
    → IsExitCall vm o
    → read_prefixes (suc n) [] vm ≡ done [] (record vm { opcode = 0xcd })
unfolding read_prefixes Memory.get
no_prefixes vm o n h = ground (arith, h)

module _ (floats : Floats) (is_flags is_prot : ℤ → Bool) (host : Host) (depth : ℕ) where
  abbrev calls : Syscalls
  calls = syscalls is_flags is_prot host

  is_call_exit : (vm : Machine) → calls 1 vm ≡ sys_exit host (as_signed 4 (read32 vm.reg 12)) vm
  unfolding syscalls process_calls Registers.get_signed
  is_call_exit vm = refl

  -- A call and its result in EAX.
  abbrev answered : ℕ → Exec (Unit {0})
  answered number = do result ← calls number; set_reg 0 4 result

  interrupted :
      (vm vm' : Machine) (r : ℕ)
      → read32 vm.reg 0 ≡ 1
      → sys_exit host (as_signed 4 (read32 vm.reg 12)) vm ≡ done (pos r) vm'
      → interrupt calls 0x80 vm ≡ done tt (record vm' { reg = write32 vm'.reg 0 (r % 2 ^ 32) })
  unfolding interrupt Registers.get Registers.set
  interrupted vm vm' r one run =
      >>=-done (get_reg 0 4) answered {vm = vm} (ap (λ (n : ℕ). done n vm) one)
      ∙ >>=-done (calls 1) (set_reg 0 4) {vm = vm} (is_call_exit vm ∙ run)

  table_cd :
      (exec : Exec (Unit {0}))
      → instr (host_table floats host) calls exec 0xcd ≡ some (int_imm calls ∷ [])
  unfolding instr high_table top_table
  table_cd exec = refl

  int_taken :
      (vm vm' : Machine) (o : ℕ)
      → vm.eip ≡ pos o
      → o + 1 ≤ vm.mem.size
      → vm.mem.cells o ≡ 0x80
      → interrupt calls 0x80 (record vm { eip = pos (o + 1) }) ≡ done tt vm'
      → int_imm calls vm ≡ done true vm'
  unfolding int_imm
  int_taken vm vm' o p h b run =
      >>=-done (fetch 1) (λ imm. interrupt calls imm >>= λ x. pure true) {vm = vm}
        (fetched vm o p h)
      ∙ ap (λ (imm : ℕ). (interrupt calls imm >>= λ x. pure true) (record vm { eip = pos (o + 1) }))
          b
      ∙ >>=-done (interrupt calls 0x80) (λ x. pure true) {vm = record vm { eip = pos (o + 1) }} run

  executed :
      (vm vm' : Machine)
      → vm.opcode ≡ 0xcd
      → int_imm calls (record vm { eip = vm.eip +ℤ pos 1 }) ≡ done true vm'
      → vm_instruction floats is_flags is_prot host (suc depth) vm ≡ done tt vm'
  unfolding vm_instruction execute_opcode
  executed vm vm' p run =
      one_opcode
        (instr (host_table floats host) calls (execute_opcode (host_table floats host) calls depth))
        (int_imm calls) 0xcd vm vm' refl p
        (table_cd (execute_opcode (host_table floats host) calls depth)) run

  abbrev exec : Exec (Unit {0})
  exec = vm_instruction floats is_flags is_prot host (suc depth)

  exit_step :
      (vm : Machine) (o a b c : ℕ) (ds : List (Option ℕ))
      → IsExitCall vm o
      → AnswersAll host
      → vm.descriptors ≡ some a ∷ some b ∷ some c ∷ ds
      → (vm' : Machine) × (step exec vm ≡ done tt vm')
        × (vm'.running ≡ false)
        × (read32 vm'.reg 0 ≡ exit_status vm)
        × (vm'.retcode ≡ some (exit_status vm))
        × (vm'.descriptors ≡ some a ∷ some b ∷ some c ∷ [])
        × ((t : List Event) × (vm'.trace ≡ write_text c (exit_message (exit_status vm)) ∷ t))
  unfolding step apply_overrides undo_overrides
  exit_step vm o a b c ds at answers table =
      let (p, base, room, first, second, one) = at in
      let vm₁ : Machine = record vm { opcode = 0xcd } in
      let vm₂ : Machine = record vm₁ { eip = vm.eip +ℤ pos 1 } in
      let vm₃ : Machine = record vm₂ { eip = pos (o + 1 + 1) } in
      let (vm', exited, code, stopped, files, last, _) =
        sys_exit_lem host exec (as_signed 4 (read32 vm.reg 12)) vm₃ a b c ds answers table in
      let status : exit_status vm < 256 = mod_range (as_signed 4 (read32 vm.reg 12)) 1 (inl refl) in
      let taken =
        int_taken vm₂ _ (o + 1) (ap (λ (e : ℤ). e +ℤ pos 1) p) (omega arith) second
          (interrupted vm₃ vm' (exit_status vm) one exited) in
      (
        record vm' { reg = write32 vm'.reg 0 (exit_status vm % 2 ^ 32) },
        >>=-done (read_prefixes (suc vm.mem.size) []) _ {vm = vm} (no_prefixes vm o vm.mem.size at)
            ∙ >>=-done exec (λ x. undo_overrides []) {vm = vm₁} (executed vm₁ _ refl taken),
        stopped,
        read32-write32 vm'.reg 0 (exit_status vm % 2 ^ 32) ∙ small (exit_status vm) status,
        code,
        files,
        last,
      )

  one_round :
      (vm : Machine) (n : ℕ)
      → goes_on vm ≡ true
      → (vm' : Machine) → step exec vm ≡ done tt vm'
      → vm'.running ≡ false
      → cycles exec (suc (suc n)) vm ≡ done true vm'
  one_round vm n on vm' run stopped =
      goes exec (suc n) vm on
      ∙ ap (next exec (suc n)) run
      ∙ stops exec n vm'
          (ap (λ (b : Bool). b && ltb_ℤ (vm'.eip +ℤ pos 1) (pos vm'.mem.size)) stopped)

  -- A program that reaches `exit` ends. With `int 0x80` as the next instruction, the segment base 0, the
  -- number of `exit` in EAX, the standard files open and a host that answers, `run` returns with any fuel of two rounds or
  -- more. Its result is the low eight bits of EBX, which are the return code too; only the standard
  -- files stay open, and the last request to the host is the message on the standard error file.
  pub run_exits :
      (vm : Machine) (o a b c n : ℕ) (ds : List (Option ℕ))
      → IsExitCall vm o
      → AnswersAll host
      → vm.descriptors ≡ some a ∷ some b ∷ some c ∷ ds
      → (vm' : Machine) × (run exec (suc (suc n)) vm ≡ done (some (exit_status vm)) vm')
        × (vm'.retcode ≡ some (exit_status vm))
        × (vm'.descriptors ≡ some a ∷ some b ∷ some c ∷ [])
        × ((t : List Event) × (vm'.trace ≡ write_text c (exit_message (exit_status vm)) ∷ t))
  unfolding run Registers.get
  run_exits vm o a b c n ds at answers table =
      let vm₀ : Machine = record vm { running = true } in
      let (vm', stepped, stopped, eax, code, files, last) =
        exit_step vm₀ o a b c ds at answers table in
      let on : goes_on vm₀ ≡ true = ground (arith, at) in
      (
        vm',
        >>=-done (cycles exec (suc (suc n))) _ {vm = vm₀} (one_round vm₀ n on vm' stepped stopped)
            ∙ ap (λ (r : ℕ). done (some r) vm') eax,
        code,
        files,
        last,
      )
