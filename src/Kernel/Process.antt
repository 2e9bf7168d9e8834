-- ===== src/Kernel/Process.antt =====
-- VM/kernel/kernel_sys.py: the system calls that are not about files or memory.
pub mod Exit
use py_vm.Prelude.{
  length, ℕ, zero, suc, ◌+◌, ◌-◌, ◌/◌, ◌%◌, ◌^◌, false, ◌&&◌, Option, none, some, List, [], ◌∷◌,
  ◌++◌, ltb, leb, ◌==◌, if◌then◌else◌, ℤ, pos, negsuc, ◌%ℤ◌, ltb_ℤ, eqb_ℤ,
}
use py_vm.Outcome.{attribute_error, struct_error, ok, err}
use py_vm.Host.{write_text, close, is_closed, clock, Host}
use py_vm.Machine.{done, Exec, pure, raise, ◌>>=◌, ◌>>◌, gets, modify, lift_mem}
use py_vm.Kernel.Ask.{ask, attempt, descriptor, file_object, set_descriptor}
use py_vm.Kernel.Brk.{sys_brk}
use py_vm.Memory

-- `kernel.sys_brk(kernel.cpu.code_segment_end)`. A negative end lies in no free block, so it empties
-- the list.
unfoldable pub release_from : ℤ → Exec (Unit {0})
unfolding sys_brk
release_from (pos n) vm = (sys_brk n >>= λ b. pure tt) vm
release_from (negsuc n) vm =
    if eqb_ℤ vm.mem.program_break (negsuc n)
    then done tt vm
    else done tt (record vm {
      mem = record vm.mem { program_break = negsuc n };
      free_memory_blocks =
          if ltb_ℤ (negsuc n) vm.mem.program_break then [] else vm.free_memory_blocks;
    })

abbrev pub release_memory : Exec (Unit {0})
unfolding release_from
release_memory vm = release_from vm.code_segment_end vm

-- `list(filter(None, descriptors))`; a file object counts as true.
unfoldable pub filter_open : List (Option ℕ) → List (Option ℕ)
filter_open [] = []
filter_open (none ∷ ds) = filter_open ds
filter_open (some h ∷ ds) = some h ∷ filter_open ds

unfoldable pub drop_first : {A : Type 0} → ℕ → List A → List A
drop_first zero xs = xs
drop_first (suc n) [] = []
drop_first (suc n) (x ∷ xs) = drop_first n xs

-- The digits of a number below 1000.
abbrev pub decimal : ℕ → List ℕ
decimal n =
    if ltb n 10
    then (48 + n) ∷ []
    else if ltb n 100
    then (48 + n / 10) ∷ (48 + n % 10) ∷ []
    else (48 + n / 100) ∷ (48 + n / 10 % 10) ∷ (48 + n % 10) ∷ []

-- '[!] Process exited with code ' and a line end.
unfoldable pub exit_message : ℕ → List ℕ
exit_message code =
    (91 ∷ 33 ∷ 93 ∷ 32 ∷ 80 ∷ 114 ∷ 111 ∷ 99 ∷ 101 ∷ 115 ∷ 115 ∷ 32 ∷ 101 ∷ 120 ∷ 105 ∷ 116 ∷ 101
      ∷ 100 ∷ 32 ∷ 119 ∷ 105 ∷ 116 ∷ 104 ∷ 32 ∷ 99 ∷ 111 ∷ 100 ∷ 101 ∷ 32 ∷ [])
    ++ decimal code
    ++ 10 ∷ []

-- The fields of `StructNewUtsname`, 65 bytes each.
abbrev pub padding : ℕ → List ℕ
padding zero = []
padding (suc n) = 0 ∷ padding n

abbrev pub name_field : List ℕ → List ℕ
name_field name = name ++ padding (65 - length name)

abbrev pub system_name : List ℕ
system_name = 80 ∷ 121 ∷ 86 ∷ 77 ∷ 95 ∷ 76 ∷ 105 ∷ 110 ∷ 117 ∷ 120 ∷ []

abbrev pub release_name : List ℕ
release_name = 51 ∷ 46 ∷ 49 ∷ 52 ∷ []

abbrev pub machine_name : List ℕ
machine_name =
    80 ∷ 121 ∷ 86 ∷ 77 ∷ 32 ∷ 45 ∷ 32 ∷ 73 ∷ 110 ∷ 116 ∷ 101 ∷ 108 ∷ 32 ∷ 73 ∷ 65 ∷ 45 ∷ 51 ∷ 50
    ∷ 32 ∷ 111 ∷ 110 ∷ 32 ∷ 80 ∷ 121 ∷ 116 ∷ 104 ∷ 111 ∷ 110 ∷ []

abbrev pub domain_name : List ℕ
domain_name =
    80 ∷ 121 ∷ 86 ∷ 77 ∷ 95 ∷ 76 ∷ 105 ∷ 110 ∷ 117 ∷ 120 ∷ 46 ∷ 108 ∷ 111 ∷ 99 ∷ 97 ∷ 108 ∷ []

unfoldable pub uname : List ℕ
uname =
    name_field system_name
    ++ name_field system_name
    ++ name_field release_name
    ++ name_field release_name
    ++ name_field machine_name
    ++ name_field domain_name

unfoldable pub sys_newuname : ℕ → Exec ℤ
unfolding uname
sys_newuname buf_addr = do lift_mem (λ m. Memory.set_bytes m (pos buf_addr) uname); pure (pos 0)

-- Four bytes, the lowest first.
abbrev pub pack32 : ℕ → List ℕ
pack32 n = (n % 256) ∷ (n / 256 % 256) ∷ (n / 65536 % 256) ∷ (n / 16777216 % 256) ∷ []

-- Only TIOCGWINSZ (the type 'T', the number 19, no direction) is known, with the answer of 256 rows and
-- columns. Where no descriptor has the number, the source calls an attribute that does not exist.
unfoldable pub sys_ioctl : ℤ → ℕ → ℕ → Exec ℤ
unfolding descriptor
sys_ioctl fd request data_addr =
    if (request / 256 % 256 == 84) && (request % 256 == 19) && (request / 2 ^ 30 % 4 == 0)
    then (do
      found ← attempt (descriptor fd)
      elim found [
        | err e ↦ raise attribute_error
        | ok d ↦ do
          lift_mem (λ m. Memory.set_bytes m (pos data_addr) (0 ∷ 1 ∷ 0 ∷ 1 ∷ 0 ∷ 0 ∷ 0 ∷ 0 ∷ []))
          pure (pos 0)
      ])
    else pure (negsuc 0)

-- `sys_sigaction`, `sys_sigprocmask` and `sys_sigaltstack`.
abbrev pub not_supported : Exec ℤ
not_supported = pure (negsuc 0)

module _ (host : Host) where
  unfoldable pub sys_clock_gettime : ℕ → ℕ → Exec ℤ
  sys_clock_gettime clk_id tp_addr = do
    now ← ask host.number clock
    let sec = now / 1000000000
    if leb (2 ^ 32) sec then raise struct_error else do
      lift_mem (λ m. Memory.set_bytes m (pos tp_addr) (pack32 sec ++ pack32 (now % 1000000000)))
      pure (pos 0)

  -- `for i, descr in enumerate(kernel.cpu.descriptors[3:], 3)`
  unfoldable pub close_all : ℕ → List (Option ℕ) → Exec (Unit {0})
  close_all i [] = pure tt
  close_all i (none ∷ ds) = close_all (i + 1) ds
  close_all i (some h ∷ ds) = do
    closed ← ask host.number (is_closed h)
    if closed == 0 then (do _ ← ask host.number (close h); pure tt) else pure tt
    set_descriptor i none
    close_all (i + 1) ds

  unfoldable pub sys_exit : ℤ → Exec ℤ
  unfolding release_from drop_first close_all filter_open file_object exit_message
  sys_exit code = do
    release_memory
    later ← gets (λ vm. drop_first 3 vm.descriptors)
    close_all 3 later
    modify (λ vm. record vm { descriptors = filter_open vm.descriptors })
    let status = code %ℤ 256
    err_file ← file_object (pos 2)
    _ ← ask host.written (write_text err_file (exit_message status))
    modify (λ vm. record vm { retcode = some status; running = false })
    pure (pos status)
