-- ===== src/Memory.antt =====
-- VM/Memory.py: the RAM, with a segment base that is added to the address of every data access.
pub mod Floats
pub mod Laws
use py_vm.Prelude.{
  length, ℕ, zero, ◌+◌, ◌||◌, List, ◌==◌, if◌then◌else◌, ℤ, pos, negsuc, ◌+ℤ◌, ◌%ℤ◌, ltb_ℤ,
}
use py_vm.Bytes.{Buffer, read16, read32, write8, write16, write32, read_bytes, write_bytes, fill}
use py_vm.Outcome.{
  Exn, memory_error, assertion_error, value_error, runtime_error, type_error, Result, ok, err,
  map_result,
}
use py_vm.Misc.{as_signed}

-- `size` is `__size`, `segment_base` is `__segment_base` and `program_break` is `__program_break`.
pub record Memory : Type 0 where
  pub cells : Buffer
  pub size : ℕ
  pub segment_base : ℕ
  pub program_break : ℤ

-- The check of each access of `n` bytes at `offset` from `base`, with the address if it passes.
-- Python runs with assertions on.
abbrev pub asan_at : ℕ → ℕ → ℤ → ℕ → Result ℕ
asan_at limit base (pos o) n =
    if ltb_ℤ (pos limit) (pos base +ℤ pos o) || ltb_ℤ (pos limit) (pos base +ℤ pos o +ℤ pos n)
    then err memory_error
    else ok (base + o)
asan_at limit base (negsuc o) n =
    if ltb_ℤ (pos limit) (pos base +ℤ negsuc o) || ltb_ℤ (pos limit) (pos base +ℤ negsuc o +ℤ pos n)
    then err memory_error
    else err assertion_error

unfoldable pub asan : Memory → ℤ → ℕ → Result ℕ
asan m offset n = asan_at m.size m.segment_base offset n

unfoldable pub asan_raw : Memory → ℤ → ℕ → Result ℕ
asan_raw m offset n = asan_at m.size 0 offset n

-- The little-endian number of `size` bytes at an address that was checked, or the exception `e`.
abbrev read_at : Exn → Buffer → ℕ → ℕ → Result ℕ
read_at e cells size a =
    if size == 4
    then ok (read32 cells a)
    else if size == 2
    then ok (read16 cells a)
    else if size == 1
    then ok (cells a)
    else err e

-- What an access does with the address that the check lets through.
abbrev pub with_address : {A : Type 0} → Result ℕ → (ℕ → Result A) → Result A
with_address (err failure) access = err failure
with_address (ok address) access = access address

-- `get` with signed=False, then with signed=True.
unfoldable pub get : Memory → ℤ → ℕ → Result ℕ
unfolding asan
get m offset size = with_address (asan m offset size) (read_at value_error m.cells size)

unfoldable pub get_signed : Memory → ℤ → ℕ → Result ℤ
unfolding get
get_signed m offset size = map_result (as_signed size) (get m offset size)

-- `get_eip`, for the sizes 1, 2 and 4. For another size it returns `bytes`, in which every use as a
-- number fails.
unfoldable pub get_eip : Memory → ℤ → ℕ → Result ℕ
unfolding asan_raw
get_eip m offset size = with_address (asan_raw m offset size) (read_at type_error m.cells size)

unfoldable pub get_eip_signed : Memory → ℤ → ℕ → Result ℤ
unfolding get_eip
get_eip_signed m offset size = map_result (as_signed size) (get_eip m offset size)

unfoldable pub get_bytes : Memory → ℤ → ℕ → Result (List ℕ)
unfolding asan
get_bytes m offset n = with_address (asan m offset n) (λ a. ok (read_bytes m.cells a n))

abbrev pub write_at : Memory → ℕ → ℤ → ℕ → Result Memory
write_at m size val a =
    if size == 4
    then ok (record m { cells = write32 m.cells a (val %ℤ 4294967296) })
    else if size == 2
    then ok (record m { cells = write16 m.cells a (val %ℤ 65536) })
    else if size == 1
    then ok (record m { cells = write8 m.cells a (val %ℤ 256) })
    else err runtime_error

unfoldable pub set : Memory → ℤ → ℕ → ℤ → Result Memory
unfolding asan
set m offset size val = with_address (asan m offset size) (write_at m size val)

-- `set_bytes` with `size` the length of `val`, as all callers pass it.
unfoldable pub set_bytes : Memory → ℤ → List ℕ → Result Memory
unfolding asan
set_bytes m offset val =
    with_address (asan m offset (length val))
      (λ a. ok (record m { cells = write_bytes m.cells a val }))

-- `memset` returns the address that it filled, less the base: the offset.
unfoldable pub memset : Memory → ℤ → ℕ → ℕ → Result (Memory × ℤ)
unfolding asan_raw
memset m offset value n =
    with_address (asan_raw m offset n)
      (λ a. ok (record m { cells = fill m.cells a value n }, offset))

unfoldable pub set_size : Memory → ℕ → Result Memory
set_size m zero = err assertion_error
set_size m memsz = ok (record m { cells = λ _. 0; size = memsz })
