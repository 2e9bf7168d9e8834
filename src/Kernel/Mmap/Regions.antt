-- ===== src/Kernel/Mmap/Regions.antt =====
-- VM/kernel/kernel_memory.py, the regions that `sys_mmap` hands out.
use py_vm.Prelude.{
  ℕ, ◌+◌, ◌≤◌, ◌<◌, ◌≡◌, refl, sym, subst, ap, ◌∙◌, ◌⊎◌, inl, inr, true, List, arith, ℤ, pos,
}
use py_vm.Bytes.{Buffer, fill}
use py_vm.Bytes.Laws.{fill_inside}
use py_vm.Machine.{Machine, done}
use py_vm.Kernel.Blocks.{Block, Found, no_block, found}
use py_vm.Kernel.Blocks.Search.{AreBlocks, IsTaken, all_smaller, find_block_lem}
use py_vm.Kernel.Mmap.{after_search, map_anonymous}
use py_vm.Memory
use py_vm.Memory.{Memory}

-- The bytes of a region are zeros.
abbrev pub IsCleared : Memory → ℕ → ℕ → Type 0
IsCleared m start n = (j : ℕ) → start ≤ j → j < start + n → m.cells j ≡ 0

from_list :
    (n start : ℕ) (rest : List Block) (vm vm' : Machine) (addr : ℤ)
    → after_search n (found start rest) vm ≡ done addr vm'
    → (addr ≡ pos start)
      × (vm'.mem ≡ record vm.mem { cells = fill vm.mem.cells start 0 n })
      × (vm'.free_memory_blocks ≡ rest)
unfolding Memory.memset
from_list n start rest vm vm' addr q = ground arith

from_break :
    (n brk : ℕ) (vm vm' : Machine) (addr : ℤ)
    → vm.mem.program_break ≡ pos brk
    → after_search n no_block vm ≡ done addr vm'
    → (addr ≡ pos brk)
      × (vm'.mem
          ≡ record vm.mem { cells = fill vm.mem.cells brk 0 n; program_break = pos (brk + n) })
      × (vm'.free_memory_blocks ≡ vm.free_memory_blocks)
unfolding Memory.memset
from_break n brk vm vm' addr p q = ground arith

cleared : (m m' : Memory) (start n : ℕ) → m'.cells ≡ fill m.cells start 0 n → IsCleared m' start n
cleared m m' start n e j p q = ap (λ (c : Buffer). c j) e ∙ fill_inside m.cells start 0 n j p q

-- An anonymous mapping that succeeds, from a list of blocks none of which ends before it starts and a
-- program break that is not negative, returns the start of a region of zeros. It is either taken
-- out of the free blocks, with the program break as it was and every other address as free as
-- before; or no free block was large enough, it starts at the old program break, and the
-- new break is its end.
pub map_anonymous_lem :
    (n brk : ℕ) (vm vm' : Machine) (addr : ℤ)
    → AreBlocks vm.free_memory_blocks
    → vm.mem.program_break ≡ pos brk
    → map_anonymous n vm ≡ done addr vm'
    → (start : ℕ) × (addr ≡ pos start)
      × IsCleared vm'.mem start n
      × (((vm'.mem.program_break ≡ vm.mem.program_break)
            × IsTaken n vm.free_memory_blocks start vm'.free_memory_blocks)
          ⊎ ((all_smaller n vm.free_memory_blocks ≡ true)
              × (start ≡ brk)
              × (vm'.mem.program_break ≡ pos (brk + n))
              × (vm'.free_memory_blocks ≡ vm.free_memory_blocks)))
unfolding map_anonymous
map_anonymous_lem n brk vm vm' addr b p q = elim (find_block_lem n vm.free_memory_blocks b) [
  | inl (e, small) ↦
      let r =
        from_break n brk vm vm' addr p (ap (λ (f : Found). after_search n f vm) (sym e) ∙ q) in
      (
        brk,
        r.0,
        cleared vm.mem vm'.mem brk n (ap (λ (m : Memory). m.cells) r.1),
        inr (small, refl, ap (λ (m : Memory). m.program_break) r.1, r.2),
      )
  | inr (start, rest, e, t) ↦
      let r =
        from_list n start rest vm vm' addr (ap (λ (f : Found). after_search n f vm) (sym e) ∙ q) in
      (
        start,
        r.0,
        cleared vm.mem vm'.mem start n (ap (λ (m : Memory). m.cells) r.1),
        inl (
          ap (λ (m : Memory). m.program_break) r.1,
          subst (λ (bs : List Block). IsTaken n vm.free_memory_blocks start bs) (sym r.2) t,
        ),
      )
]
