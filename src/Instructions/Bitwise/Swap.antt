-- ===== src/Instructions/Bitwise/Swap.antt =====
-- VM/instructions/bitwise.py, `BSWAP`.
use py_vm.Prelude.{ℕ, ◌/◌, ◌%◌, ◌<◌, ◌≡◌, arith}
use py_vm.Instructions.Bitwise.{reverse_bytes}

-- BSWAP twice gives back a double word, and its result is a double word whose bytes are those of the
-- operand in the opposite order.
pub reverse_bytes_twice :
    (n : ℕ)
    → n < 4294967296
    → (reverse_bytes (reverse_bytes n) ≡ n)
      × (reverse_bytes n < 4294967296)
      × (reverse_bytes n % 256 ≡ n / 16777216)
      × (reverse_bytes n / 16777216 ≡ n % 256)
      × (reverse_bytes n / 256 % 256 ≡ n / 65536 % 256)
unfolding reverse_bytes
reverse_bytes_twice n h = ground arith
