-- ===== src/Bytes/Laws.antt =====
-- Reads after writes in a byte buffer.
use py_vm.Prelude.{
  length, ℕ, zero, suc, ◌+◌, ◌%◌, ◌^◌, ◌≤◌, ◌<◌, ◌≡◌, refl, ◌⊎◌, List, [], ◌∷◌, arith,
}
use py_vm.Bytes.{Buffer, put, read16, read32, write8, write16, write32, write_bytes, fill}

-- Every cell holds a byte.
abbrev pub IsBuffer : Buffer → Type 0
IsBuffer b = (i : ℕ) → b i < 256

pub write8_self : (b : Buffer) (i v : ℕ) → write8 b i v i ≡ v % 256
unfolding write8
write8_self b i v = ground arith

pub read16-write16 : (b : Buffer) (i v : ℕ) → read16 (write16 b i v) i ≡ v % 65536
unfolding write16
read16-write16 b i v = ground arith

pub read32-write32 : (b : Buffer) (i v : ℕ) → read32 (write32 b i v) i ≡ v % 2 ^ 32
unfolding write32
read32-write32 b i v = ground arith

-- A write leaves every byte outside its range alone.
pub write8_outside : (b : Buffer) (i v j : ℕ) → (j < i) ⊎ (i + 1 ≤ j) → write8 b i v j ≡ b j
unfolding write8
write8_outside b i v j h = ground arith

pub write16_outside : (b : Buffer) (i v j : ℕ) → (j < i) ⊎ (i + 2 ≤ j) → write16 b i v j ≡ b j
unfolding write16
write16_outside b i v j h = ground arith

pub write32_outside : (b : Buffer) (i v j : ℕ) → (j < i) ⊎ (i + 4 ≤ j) → write32 b i v j ≡ b j
unfolding write32
write32_outside b i v j h = ground arith

pub write8-IsBuffer : (b : Buffer) (i v : ℕ) → IsBuffer b → IsBuffer (write8 b i v)
unfolding write8
write8-IsBuffer b i v h j = ground (arith, h j)

pub write16-IsBuffer : (b : Buffer) (i v : ℕ) → IsBuffer b → IsBuffer (write16 b i v)
unfolding write16
write16-IsBuffer b i v h j = ground (arith, h j)

pub write32-IsBuffer : (b : Buffer) (i v : ℕ) → IsBuffer b → IsBuffer (write32 b i v)
unfolding write32
write32-IsBuffer b i v h j = ground (arith, h j)

pub write_bytes_outside :
    (b : Buffer) (i : ℕ) (xs : List ℕ) (j : ℕ)
    → (j < i) ⊎ (i + length xs ≤ j)
    → write_bytes b i xs j ≡ b j
unfolding write_bytes
write_bytes_outside b i [] j h = refl
write_bytes_outside b i (x ∷ xs) j h =
    ground (arith, write_bytes_outside (put b i (x % 256)) (i + 1) xs j)

pub fill_outside : (b : Buffer) (i v n j : ℕ) → (j < i) ⊎ (i + n ≤ j) → fill b i v n j ≡ b j
unfolding fill
fill_outside b i v zero j h = refl
fill_outside b i v (suc n) j h = ground (arith, fill_outside (put b i (v % 256)) (i + 1) v n j)

pub fill_inside : (b : Buffer) (i v n j : ℕ) → i ≤ j → j < i + n → fill b i v n j ≡ v % 256
unfolding fill
fill_inside b i v zero j p q = absurd (omega arith)
fill_inside b i v (suc n) j p q = ground (
  arith,
  fill_outside (put b i (v % 256)) (i + 1) v n j,
  fill_inside (put b i (v % 256)) (i + 1) v n j,
)
