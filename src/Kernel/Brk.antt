-- ===== src/Kernel/Brk.antt =====
-- VM/kernel/kernel_memory.py, `sys_brk` and `sys_set_tid_address`.
pub mod Cutoff
use py_vm.Prelude.{ℕ, if◌then◌else◌, ℤ, pos, ltb_ℤ, eqb_ℤ}
use py_vm.Machine.{Machine, done, Exec, pure, ◌>>=◌, get_mem}
use py_vm.Kernel.Blocks.{cut_blocks}

abbrev set_brk : ℤ → Machine → Machine
set_brk b vm = record vm { mem = record vm.mem { program_break = b } }

unfoldable pub sys_brk : ℕ → Exec ℤ
unfolding cut_blocks
sys_brk brk vm =
    if ltb_ℤ (pos brk) vm.code_segment_end
    then done vm.mem.program_break vm
    else if eqb_ℤ vm.mem.program_break (pos brk)
    then done vm.mem.program_break vm
    else if ltb_ℤ (pos brk) vm.mem.program_break
    then done (pos brk) (
        set_brk (pos brk) (record vm { free_memory_blocks = cut_blocks brk vm.free_memory_blocks }))
    else done (pos brk) (set_brk (pos brk) vm)

unfoldable pub sys_set_tid_address : ℕ → Exec ℤ
sys_set_tid_address tidptr = do tid ← get_mem (pos tidptr) 4; pure (pos tid)
