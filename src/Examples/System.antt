-- ===== src/Examples/System.antt =====
-- The theorems on VM/kernel at concrete inputs.
use py_vm.Prelude.{
  ℕ, ◌+◌, ◌≡◌, refl, ◌⊎◌, true, false, List, [], ◌∷◌, arith, if◌then◌else◌, ℤ, pos, ltb_ℤ,
}
use py_vm.Bytes.{fill}
use py_vm.Outcome.{type_error, ok, err}
use py_vm.Segments.{zero_entry, decode, set_sreg}
use py_vm.Machine.{Machine, done}
use py_vm.Kernel.Blocks.{Block, no_block, found, find_block, sort_blocks, fuse_blocks}
use py_vm.Kernel.Blocks.Search.{AreBlocks, IsTaken, all_smaller, find_block_lem}
use py_vm.Kernel.Blocks.Fuse.{touching, fuse_blocks_lem}
use py_vm.Kernel.Brk.{sys_brk}
use py_vm.Kernel.Brk.Cutoff.{straddled, sys_brk_lem}
use py_vm.Kernel.Mmap.{map_anonymous}
use py_vm.Kernel.Mmap.Regions.{IsCleared, map_anonymous_lem}
use py_vm.Kernel.ThreadArea.{UserDesc, allocate_entry, is_present}
use py_vm.Kernel.ThreadArea.Descriptor.{set_sreg-allocate_entry}
use py_vm.Examples.{machine}
use py_vm.Memory

abbrev start : Machine
start = machine []

are_blocks : AreBlocks start.free_memory_blocks
are_blocks = (omega arith, (omega arith, tt))

find_block_lem_example :
    ((find_block 9 start.free_memory_blocks ≡ no_block)
      × (all_smaller 9 start.free_memory_blocks ≡ true))
    ⊎ ((at : ℕ) × (rest : List Block) × (find_block 9 start.free_memory_blocks ≡ found at rest)
        × IsTaken 9 start.free_memory_blocks at rest)
find_block_lem_example = find_block_lem 9 start.free_memory_blocks are_blocks

-- Nine bytes from the second block.
abbrev mapped : Machine
mapped = record start {
  mem = record start.mem { cells = fill start.mem.cells 50 0 9 };
  free_memory_blocks = (40, 48) ∷ (59, 60) ∷ [];
}

mapping : map_anonymous 9 start ≡ done (pos 50) mapped
unfolding map_anonymous find_block Memory.memset
mapping = refl

map_anonymous_lem_example :
    (at : ℕ) × (pos 50 ≡ pos at)
    × IsCleared mapped.mem at 9
    × (((mapped.mem.program_break ≡ start.mem.program_break)
          × IsTaken 9 start.free_memory_blocks at mapped.free_memory_blocks)
        ⊎ ((all_smaller 9 start.free_memory_blocks ≡ true)
            × (at ≡ 64)
            × (mapped.mem.program_break ≡ pos (64 + 9))
            × (mapped.free_memory_blocks ≡ start.free_memory_blocks)))
map_anonymous_lem_example = map_anonymous_lem 9 64 start mapped (pos 50) are_blocks refl mapping

abbrev neighbours : List Block
neighbours = (50, 60) ∷ (40, 50) ∷ []

fuse_blocks_lem_example :
    fuse_blocks neighbours
    ≡ (if touching (sort_blocks neighbours) then err type_error else ok (sort_blocks neighbours))
fuse_blocks_lem_example = fuse_blocks_lem neighbours

sys_brk_lem_example :
    (result : ℤ) × (vm' : Machine) × (sys_brk 62 start ≡ done result vm')
    × (vm'.mem.program_break ≡ result)
    × (vm'.mem.cells ≡ start.mem.cells)
    × (vm'.mem.size ≡ start.mem.size)
    × ((ltb_ℤ (pos 62) start.code_segment_end ≡ true) → vm' ≡ start)
    × ((ltb_ℤ (pos 62) start.code_segment_end ≡ false) → result ≡ pos 62)
    × ((ltb_ℤ (pos 62) start.mem.program_break ≡ false)
        → vm'.free_memory_blocks ≡ start.free_memory_blocks)
    × ((ltb_ℤ (pos 62) start.code_segment_end ≡ false)
        → (ltb_ℤ (pos 62) start.mem.program_break ≡ true)
        → (straddled 62 start.free_memory_blocks ≡ false)
        → vm'.free_memory_blocks ≡ [])
sys_brk_lem_example = sys_brk_lem 62 start

abbrev thread_area : UserDesc
thread_area = record { entry_number = 4294967295; base_addr = 305419896; limit = 1048575 }

set_sreg-allocate_entry_example :
    ((set_sreg start.sreg 5 51 (allocate_entry thread_area zero_entry) 5).base
      ≡ thread_area.base_addr)
    × ((set_sreg start.sreg 5 51 (allocate_entry thread_area zero_entry) 5).limit
        ≡ thread_area.limit)
    × ((set_sreg start.sreg 5 51 (allocate_entry thread_area zero_entry) 5).visible ≡ 51)
    × (is_present (allocate_entry thread_area zero_entry) ≡ true)
    × ((decode (allocate_entry thread_area zero_entry)).type ≡ (decode zero_entry).type)
    × ((decode (allocate_entry thread_area zero_entry)).dpl ≡ (decode zero_entry).dpl)
    × ((decode (allocate_entry thread_area zero_entry)).granularity
        ≡ (decode zero_entry).granularity)
    × ((decode (allocate_entry thread_area zero_entry)).system ≡ (decode zero_entry).system)
    × ((decode (allocate_entry thread_area zero_entry)).avl ≡ (decode zero_entry).avl)
    × ((decode (allocate_entry thread_area zero_entry)).long ≡ (decode zero_entry).long)
    × ((decode (allocate_entry thread_area zero_entry)).db ≡ (decode zero_entry).db)
set_sreg-allocate_entry_example =
    set_sreg-allocate_entry thread_area zero_entry start.sreg 5 51 (omega arith) (omega arith)
