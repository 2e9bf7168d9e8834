-- ===== src/Kernel/ThreadArea.antt =====
-- VM/kernel/kernel_memory.py, `structUserDesc` and `sys_set_thread_area`.
pub mod Descriptor
use py_vm.Prelude.{ℕ, ◌+◌, ◌/◌, ◌%◌, Bool, List, [], ◌∷◌, ◌==◌, if◌then◌else◌, ℤ, pos}
use py_vm.Outcome.{Result, map_result}
use py_vm.Bytes.{read32}
use py_vm.Segments.{SegmentDescriptor, Entry, decode, encode}
use py_vm.Machine.{Exec, pure, ◌>>=◌, ◌>>◌, gets, modify, lift, set_mem}
use py_vm.Memory
use py_vm.Memory.{Memory}

-- The fields of `struct user_desc` that the call uses; the structure has 16 bytes.
pub record UserDesc : Type 0 where
  pub entry_number : ℕ
  pub base_addr : ℕ
  pub limit : ℕ

-- `structUserDesc.from_buffer_copy(kernel.cpu.mem.get_bytes(address, 16))`
unfoldable pub read_user_desc : Memory → ℕ → Result UserDesc
read_user_desc m address =
    map_result
      (λ a. record {
        entry_number = read32 m.cells a;
        base_addr = read32 m.cells (a + 4);
        limit = read32 m.cells (a + 8);
      })
      (Memory.asan m (pos address) 16)

-- The assignments to a descriptor: base, limit and the present bit.
unfoldable pub fill_descriptor : UserDesc → SegmentDescriptor → SegmentDescriptor
fill_descriptor u d = record d {
  base_1 = u.base_addr % 65536;
  base_2 = u.base_addr / 65536 % 256;
  base_3 = u.base_addr / 16777216 % 256;
  limit_1 = u.limit % 65536;
  limit_2 = u.limit / 65536 % 16;
  present = 1;
}

unfoldable pub allocate_entry : UserDesc → Entry → Entry
unfolding decode encode fill_descriptor
allocate_entry u e = encode (fill_descriptor u (decode e))

abbrev pub is_present : Entry → Bool
is_present e = e.b5 / 128 % 2 == 1

-- `for selector_index, entry in enumerate(GDT[1:], 1)`: the entries from `index` on, and the last
-- value of the index, which is the free one if there is any. `last` is its value before.
unfoldable pub search_gdt : UserDesc → ℕ → ℕ → List Entry → List Entry × ℕ
unfolding allocate_entry
search_gdt u last index [] = ([], last)
search_gdt u last index (e ∷ es) =
    let rest = search_gdt u index (index + 1) es in
    if is_present e then (e ∷ rest.0, rest.1) else (allocate_entry u e ∷ es, index)

-- The table after the call, and the selector index that it writes.
unfoldable pub choose_entry : UserDesc → List Entry → List Entry × ℕ
unfolding search_gdt
choose_entry u [] = ([], 0)
choose_entry u (e ∷ es) =
    let r = search_gdt u 0 1 es in
    if u.entry_number == 0xffffffff then (e ∷ r.0, r.1) else (e ∷ es, 0)

unfoldable pub sys_set_thread_area : ℕ → Exec ℤ
unfolding read_user_desc choose_entry
sys_set_thread_area address = do
  u ← lift (λ vm. read_user_desc vm.mem address)
  r ← gets (λ vm. choose_entry u vm.gdt)
  modify (λ vm. record vm { gdt = r.0 })
  set_mem (pos address) 4 (pos r.1)
  pure (pos 0)
