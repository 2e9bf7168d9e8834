-- ===== src/Registers.antt =====
-- VM/Registers.py: `Reg32` is a 32-byte buffer that is read and written as bytes, words and double
-- words, and `eflags` a set of one-bit fields.
pub mod Laws
use py_vm.Prelude.{ℕ, ◌+◌, ◌*◌, ◌/◌, ◌%◌, ◌==◌, if◌then◌else◌, ℤ, ◌%ℤ◌}
use py_vm.Bytes.{Buffer, read16, read32, write8, write16, write32}
use py_vm.Outcome.{value_error, Result, ok, err}
use py_vm.Misc.{as_signed}

-- The fields of `eflags` that are not padding; each holds 0 or 1.
pub record Flags : Type 0 where
  pub cf : ℕ
  pub pf : ℕ
  pub af : ℕ
  pub zf : ℕ
  pub sf : ℕ
  pub tf : ℕ
  pub intf : ℕ
  pub df : ℕ
  pub of : ℕ

-- Where the 8-bit register `offset` lies: 0 to 3 are the low bytes of EAX, ECX, EDX, EBX and 4 to 7
-- their second bytes.
abbrev pub index8 : ℕ → ℕ
index8 offset = 4 * (offset % 4) + offset / 4

-- `get` with signed=False: `ptr32[offset]`, `ptr16[2 * offset]`, `ptr8[...]`.
unfoldable pub get : Buffer → ℕ → ℕ → Result ℕ
get reg offset size =
    if size == 4
    then ok (read32 reg (4 * offset))
    else if size == 2
    then ok (read16 reg (2 * (2 * offset)))
    else if size == 1
    then ok (reg (index8 offset))
    else err value_error

-- `get` with signed=True.
unfoldable pub get_signed : Buffer → ℕ → ℕ → Result ℤ
get_signed reg offset size =
    if size == 4
    then ok (as_signed 4 (read32 reg (4 * offset)))
    else if size == 2
    then ok (as_signed 2 (read16 reg (2 * (2 * offset))))
    else if size == 1
    then ok (as_signed 1 (reg (index8 offset)))
    else err value_error

-- ctypes keeps the low bits of what is assigned.
unfoldable pub set : Buffer → ℕ → ℕ → ℤ → Result Buffer
set reg offset size value =
    if size == 4
    then ok (write32 reg (4 * offset) (value %ℤ 4294967296))
    else if size == 2
    then ok (write16 reg (2 * (2 * offset)) (value %ℤ 65536))
    else if size == 1
    then ok (write8 reg (index8 offset) (value %ℤ 256))
    else err value_error
