-- ===== src/Memory/Floats.antt =====
-- VM/Memory.py, the accesses to floating-point numbers: `get_float`, `get_float_eip` and `set_float`.
use py_vm.Prelude.{ℕ, ◌+◌, ◌*◌, ◌/◌, ◌%◌, ◌==◌, if◌then◌else◌, ℤ}
use py_vm.Bytes.{Buffer, read16, read32, write32}
use py_vm.Outcome.{key_error, Result, ok, err}
use py_vm.Binary80.{Binary80, from_float, to_double, Floats}
use py_vm.Memory
use py_vm.Memory.{Memory}

abbrev pub read64 : Buffer → ℕ → ℕ
read64 b i = read32 b i + 4294967296 * read32 b (i + 4)

abbrev pub write64 : Buffer → ℕ → ℕ → Buffer
write64 b i v = write32 (write32 b i (v % 4294967296)) (i + 4) (v / 4294967296 % 4294967296)

-- `binary80.from_address`
abbrev pub read80 : Buffer → ℕ → Binary80
read80 b i = record {
  significand = read64 b i;
  exponent = read16 b (i + 8) % 32768;
  sign = read16 b (i + 8) / 32768 == 1;
}

module _ (floats : Floats) where
  -- What is read at an address that was checked: the sizes 32 and 64 go through `from_float`.
  abbrev pub float_at : Buffer → ℕ → ℕ → Result Binary80
  float_at cells size a =
      if size == 80
      then ok (read80 cells a)
      else if size == 64
      then ok (from_float (floats.narrow (read64 cells a)))
      else if size == 32
      then ok (from_float (floats.narrow (floats.widen (read32 cells a))))
      else err key_error

  -- The check counts bytes.
  unfoldable pub get_float : Memory → ℤ → ℕ → Result Binary80
  unfolding Memory.asan from_float
  get_float m offset size =
      Memory.with_address (Memory.asan m offset (size / 8)) (float_at m.cells size)

  -- The check counts bits.
  unfoldable pub get_float_eip : Memory → ℤ → ℕ → Result Binary80
  unfolding Memory.asan_raw from_float
  get_float_eip m offset size =
      Memory.with_address (Memory.asan_raw m offset size) (float_at m.cells size)

  abbrev pub float_into : Memory → ℕ → Binary80 → ℕ → Result Memory
  float_into m size value a =
      if size == 4
      then ok (record m { cells = write32 m.cells a (floats.narrow (to_double value)) })
      else if size == 8
      then ok (record m { cells = write64 m.cells a (to_double value) })
      else err key_error

  unfoldable pub set_float : Memory → ℤ → ℕ → Binary80 → Result Memory
  unfolding Memory.asan to_double
  set_float m offset size value =
      Memory.with_address (Memory.asan m offset size) (float_into m size value)
