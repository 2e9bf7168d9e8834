-- ===== src/Kernel/Mmap.antt =====
-- VM/kernel/kernel_memory.py, `sys_mmap` and `sys_munmap`.
pub mod Regions
use py_vm.Prelude.{
  ℕ, ◌+◌, Bool, not, ◌||◌, none, some, [], ◌∷◌, ◌++◌, ◌==◌, if◌then◌else◌, ℤ, pos, negsuc, ◌+ℤ◌,
  neg_ℕ, ◌%ℤ◌, ◌/ℤ◌, ltb_ℤ, eqb_ℤ,
}
use py_vm.Outcome.{assertion_error, value_error, ok, err}
use py_vm.Machine.{Machine, done, raised, Exec, pure, raise, ◌>>=◌, ◌>>◌, gets, modify}
use py_vm.Kernel.Blocks.{
  Found, no_block, bad_block, found, find_block, fuse_blocks, torn_list, last_block, drop_last,
}
use py_vm.Memory

-- `kernel.cpu.mem.memset(offset, 0, length)`
abbrev pub clear : ℤ → ℕ → Exec ℤ
clear offset n vm = elim (Memory.memset vm.mem offset 0 n) [
  | ok (m, a) ↦ done a (record vm { mem = m })
  | err e ↦ raised e vm
]

-- Past the end of the list: the region starts at the program break, which moves up.
abbrev pub extend_break : ℕ → Exec ℤ
extend_break n = do
  brk ← gets (λ vm. vm.mem.program_break)
  old_brk ← clear brk n
  modify (λ vm. record vm { mem = record vm.mem { program_break = vm.mem.program_break +ℤ pos n } })
  pure old_brk

abbrev pub after_search : ℕ → Found → Exec ℤ
after_search n no_block = extend_break n
after_search n bad_block = raise assertion_error
after_search n (found start blocks) = do
  modify (λ vm. record vm { free_memory_blocks = blocks })
  clear (pos start) n

-- An anonymous mapping.
unfoldable pub map_anonymous : ℕ → Exec ℤ
unfolding find_block
map_anonymous n vm = after_search n (find_block n vm.free_memory_blocks) vm

-- `enum.Flag` decides which numbers are flags and protections; another raises a ValueError.
module _ (is_flags is_prot : ℤ → Bool) where
  unfoldable pub sys_mmap : ℕ → ℕ → ℤ → ℤ → ℤ → Exec ℤ
  unfolding map_anonymous
  sys_mmap addr n prot flags fd =
      if not (is_flags flags) || not (is_prot prot)
      then raise value_error
      else if (flags /ℤ 32) %ℤ 2 == 1
      then map_anonymous n
      else pure (negsuc 0)

-- `program_break -= length`, or the block joins the list. An exception in the fusing leaves the list as
-- it is then, with the Nones.
unfoldable pub release : ℕ → ℕ → Exec (Unit {0})
unfolding fuse_blocks torn_list
release addr n vm =
    if eqb_ℤ (pos (addr + n)) vm.mem.program_break
    then done tt
        (record vm { mem = record vm.mem { program_break = vm.mem.program_break +ℤ neg_ℕ n } })
    else elim (fuse_blocks (vm.free_memory_blocks ++ (addr, addr + n) ∷ [])) [
      | ok blocks ↦ done tt (record vm { free_memory_blocks = blocks })
      | err e ↦ raised e (record vm {
        torn_blocks = some (torn_list (vm.free_memory_blocks ++ (addr, addr + n) ∷ []));
      })
    ]

-- A last block that reaches the program break is given back.
unfoldable pub give_back : Machine → Machine
unfolding last_block drop_last
give_back vm = elim (last_block vm.free_memory_blocks) [
  | none ↦ vm
  | some (s, e) ↦ if ltb_ℤ (pos e) vm.mem.program_break then vm else record vm {
    mem = record vm.mem { program_break = pos s };
    free_memory_blocks = drop_last vm.free_memory_blocks;
  }
]

unfoldable pub sys_munmap : ℕ → ℕ → Exec ℤ
unfolding release give_back
sys_munmap addr n = do release addr n; modify give_back; pure (pos 0)
