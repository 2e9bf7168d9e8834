-- ===== src/Instructions/Control.antt =====
-- VM/instructions/control.py, `NOP`, `BT`, `INT`, `CPUID` and `HLT`, and VM/__init__.py
-- `VM.interrupt`.
use py_vm.Prelude.{ℕ, ◌*◌, ◌/◌, ◌%◌, ◌^◌, Bool, true, false, not, ◌==◌, if◌then◌else◌, ℤ, pos}
use py_vm.Outcome.{runtime_error}
use py_vm.Machine.{Exec, pure, raise, ◌>>=◌, ◌>>◌, gets, get_reg, set_reg, set_flags, fetch}
use py_vm.ModRm.{Place, in_reg, in_mem, get_place, operands, process_modrm}

unfoldable pub nop : Exec Bool
nop = pure true

unfoldable pub nop_rm : Exec Bool
nop_rm = do operands ← process_modrm; pure true

-- `vm.reg.eflags.CF = (base >> offset) & 1`
abbrev set_bit_test : ℕ → ℕ → Exec (Unit {0})
set_bit_test base offset = set_flags (λ f. record f { cf = base / 2 ^ offset % 2 })

-- The bit offset into a register is taken modulo its width; into memory it is not.
abbrev bit_offset : Place → ℕ → ℕ → ℕ
bit_offset (in_reg n) sz offset = offset % (sz * 8)
bit_offset (in_mem a) sz offset = offset

unfoldable pub bt_rm_r : Exec Bool
bt_rm_r = do
  sz ← gets (λ vm. vm.operand_size)
  (rm, r) ← process_modrm
  base ← get_place rm sz
  offset ← get_reg r sz
  set_bit_test base (bit_offset rm sz offset)
  pure true

-- `base` is one byte if the operand is in memory.
abbrev bt_width : Place → ℕ → ℕ
bt_width (in_reg n) sz = sz
bt_width (in_mem a) sz = 1

unfoldable pub bt_rm_imm : Exec Bool
bt_rm_imm = do
  sz ← gets (λ vm. vm.operand_size)
  (rm, r) ← process_modrm
  if not (r == 4) then pure false else do
    base ← get_place rm (bt_width rm sz)
    offset ← fetch 1
    set_bit_test base (bit_offset rm sz offset)
    pure true

-- The system calls of the kernel, by their number.
abbrev pub Syscalls : Type 0
Syscalls = ℕ → Exec ℤ

unfoldable pub interrupt : Syscalls → ℕ → Exec (Unit {0})
interrupt syscalls code =
    if code == 0x80
    then (do number ← get_reg 0 4; result ← syscalls number; set_reg 0 4 result)
    else raise runtime_error

unfoldable pub int_imm : Syscalls → Exec Bool
unfolding interrupt
int_imm syscalls = do imm ← fetch 1; interrupt syscalls imm; pure true

-- `vm.reg.eax = ...` and so on for EBX, ECX and EDX.
abbrev set_four : ℕ → ℕ → ℕ → ℕ → Exec (Unit {0})
set_four a b c d = do
  set_reg 0 4 (pos a)
  set_reg 3 4 (pos b)
  set_reg 1 4 (pos c)
  set_reg 2 4 (pos d)

-- The vendor string in leaf 0 is `int.from_bytes(b'Genu', 'little')` and so on.
unfoldable pub cpuid : Exec Bool
cpuid = do
  leaf ← get_reg 0 4
  if leaf == 0
      then set_four 1 0x756e6547 0x6c65746e 0x49656e69
      else if leaf == 1
      then set_four 0x410 0 0 0x8001
      else raise runtime_error
  pure true

unfoldable pub hlt : Exec Bool
hlt = raise runtime_error
