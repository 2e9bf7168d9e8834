-- ===== src/Bytes.antt =====
-- A buffer of bytes with little-endian access, which both the register file (VM/Registers.py) and
-- the RAM (VM/Memory.py) are: ctypes reads and writes at `base + offset` in such a buffer.
pub mod Laws
use py_vm.Prelude.{ℕ, zero, suc, ◌+◌, ◌*◌, ◌/◌, ◌%◌, List, [], ◌∷◌, ◌==◌, if◌then◌else◌}

-- The byte at each index.
abbrev pub Buffer : Type 0
Buffer = ℕ → ℕ

abbrev pub put : Buffer → ℕ → ℕ → Buffer
put b i v j = if j == i then v else b j

-- Two and four bytes as one number, the lowest first.
abbrev pub read16 : Buffer → ℕ → ℕ
read16 b i = b i + 256 * b (i + 1)

abbrev pub read32 : Buffer → ℕ → ℕ
read32 b i = b i + 256 * b (i + 1) + 65536 * b (i + 2) + 16777216 * b (i + 3)

unfoldable pub write8 : Buffer → ℕ → ℕ → Buffer
write8 b i v = put b i (v % 256)

unfoldable pub write16 : Buffer → ℕ → ℕ → Buffer
write16 b i v = put (put b i (v % 256)) (i + 1) (v / 256 % 256)

unfoldable pub write32 : Buffer → ℕ → ℕ → Buffer
write32 b i v =
    put (put (put (put b i (v % 256)) (i + 1) (v / 256 % 256)) (i + 2) (v / 65536 % 256)) (i + 3)
      (v / 16777216 % 256)

-- A run of bytes.
unfoldable pub read_bytes : Buffer → ℕ → ℕ → List ℕ
read_bytes b i zero = []
read_bytes b i (suc n) = b i ∷ read_bytes b (i + 1) n

unfoldable pub write_bytes : Buffer → ℕ → List ℕ → Buffer
write_bytes b i [] = b
write_bytes b i (x ∷ xs) = write_bytes (put b i (x % 256)) (i + 1) xs

-- The same byte into each of `n` places.
unfoldable pub fill : Buffer → ℕ → ℕ → ℕ → Buffer
fill b i v zero = b
fill b i v (suc n) = fill (put b i (v % 256)) (i + 1) v n
