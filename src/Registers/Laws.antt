-- ===== src/Registers/Laws.antt =====
-- The register file: reads after writes, and how the 8-, 16- and 32-bit names overlap.
use py_vm.Prelude.{
  ℕ, ◌+◌, ◌*◌, ◌/◌, ◌%◌, ◌≤◌, ◌<◌, ◌≡◌, refl, ◌⊎◌, arith, ◌==◌, if◌then◌else◌, ℤ, ◌%ℤ◌,
}
use py_vm.Bytes.{Buffer, read32, write8, write16, write32}
use py_vm.Bytes.Laws.{
  IsBuffer, write8_self, read16-write16, read32-write32, write8_outside, write16_outside,
  write32_outside,
}
use py_vm.Outcome.{ok}
use py_vm.Misc.{modulus}
use py_vm.Misc.Laws.{IsSize, by_size}
use py_vm.Registers.{index8, get, set}

-- The buffer after a write.
unfoldable pub reg_stored : Buffer → ℕ → ℕ → ℕ → Buffer
reg_stored reg offset size w =
    if size == 4
    then write32 reg (4 * offset) w
    else if size == 2
    then write16 reg (2 * (2 * offset)) w
    else write8 reg (index8 offset) w

pub reg_set_lem :
    (reg : Buffer) (offset size : ℕ) (v : ℤ)
    → IsSize size
    → set reg offset size v ≡ ok (reg_stored reg offset size (v %ℤ modulus size))
unfolding set reg_stored
reg_set_lem reg offset size v =
    by_size (λ s. set reg offset s v ≡ ok (reg_stored reg offset s (v %ℤ modulus s))) refl refl refl

pub get-reg_stored :
    (reg : Buffer) (offset size w : ℕ)
    → IsSize size
    → w < modulus size
    → get (reg_stored reg offset size w) offset size ≡ ok w
unfolding get reg_stored
get-reg_stored reg offset size w h =
    by_size (λ s. w < modulus s → get (reg_stored reg offset s w) offset s ≡ ok w)
      (λ b. ground (arith, write8_self reg (index8 offset) w))
      (λ b. ground (arith, read16-write16 reg (2 * (2 * offset)) w))
      (λ b. ground (arith, read32-write32 reg (4 * offset) w)) h

-- The bytes that the register `offset` of a size takes.
unfoldable pub first_byte : ℕ → ℕ → ℕ
first_byte offset size = if size == 1 then index8 offset else 4 * offset

pub reg_stored_outside :
    (reg : Buffer) (offset size w j : ℕ)
    → IsSize size
    → (j < first_byte offset size) ⊎ (first_byte offset size + size ≤ j)
    → reg_stored reg offset size w j ≡ reg j
unfolding reg_stored first_byte
reg_stored_outside reg offset size w j h =
    by_size
      (λ s.
        (j < first_byte offset s) ⊎ (first_byte offset s + s ≤ j)
        → reg_stored reg offset s w j ≡ reg j)
      (write8_outside reg (index8 offset) w j)
      (λ p. write16_outside reg (2 * (2 * offset)) w j (ground arith))
      (write32_outside reg (4 * offset) w j) h

-- A write does not change what is read of a register that shares no byte with the one written.
pub get-reg_stored_ne :
    (reg : Buffer) (i j size size' w : ℕ)
    → IsSize size
    → IsSize size'
    → (first_byte j size' + size' ≤ first_byte i size)
      ⊎ (first_byte i size + size ≤ first_byte j size')
    → get (reg_stored reg i size w) j size' ≡ get reg j size'
unfolding get first_byte
get-reg_stored_ne reg i j size size' w h k apart =
    by_size
      (λ s.
        (first_byte j s + s ≤ first_byte i size) ⊎ (first_byte i size + size ≤ first_byte j s)
        → get (reg_stored reg i size w) j s ≡ get reg j s)
      (λ p. ground (arith, reg_stored_outside reg i size w (index8 j)))
      (λ p. ground (
        arith,
        reg_stored_outside reg i size w (2 * (2 * j)),
        reg_stored_outside reg i size w (2 * (2 * j) + 1),
      ))
      (λ p. ground (
        arith,
        reg_stored_outside reg i size w (4 * j),
        reg_stored_outside reg i size w (4 * j + 1),
        reg_stored_outside reg i size w (4 * j + 2),
        reg_stored_outside reg i size w (4 * j + 3),
      ))
      k apart

-- Writing AL changes the low byte of EAX and nothing else of it, writing AH its second byte, and
-- writing AX its low word, and so for ECX, EDX and EBX;
-- reading AL, AH and AX gives those parts of EAX.
pub sub_registers :
    (reg : Buffer) (r w : ℕ)
    → r < 4
    → IsBuffer reg
    → (get (reg_stored reg r 1 (w % 256)) r 4 ≡ ok (read32 reg (4 * r) / 256 * 256 + w % 256))
      × (get (reg_stored reg (r + 4) 1 (w % 256)) r 4
          ≡ ok (read32 reg (4 * r) / 65536 * 65536 + w % 256 * 256 + read32 reg (4 * r) % 256))
      × (get (reg_stored reg r 2 (w % 65536)) r 4
          ≡ ok (read32 reg (4 * r) / 65536 * 65536 + w % 65536))
      × (get reg r 1 ≡ ok (read32 reg (4 * r) % 256))
      × (get reg (r + 4) 1 ≡ ok (read32 reg (4 * r) / 256 % 256))
      × (get reg r 2 ≡ ok (read32 reg (4 * r) % 65536))
unfolding get reg_stored write8 write16
sub_registers reg r w h b =
    let b0 = b (4 * r) in
    let b1 = b (4 * r + 1) in
    let b2 = b (4 * r + 2) in
    let b3 = b (4 * r + 3) in
    let low : index8 r ≡ 4 * r = omega arith in
    let high : index8 (r + 4) ≡ 4 * r + 1 = omega arith in
    (
      rw low (ground arith),
      rw high (ground arith),
      ground arith,
      rw low (ground arith),
      rw high (ground arith),
      ground arith,
    )
