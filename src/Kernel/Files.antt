-- ===== src/Kernel/Files.antt =====
-- VM/kernel/kernel_filesystem.py: the system calls that open, close and remove files, and `llseek`.
pub mod Descriptors
use py_vm.Prelude.{
  length, ℕ, ◌+◌, ◌*◌, ◌%◌, ◌^◌, Bool, true, false, not, ◌&&◌, Option, none, some, List, [], ◌∷◌,
  ◌++◌, leb, ◌==◌, if◌then◌else◌, ℤ, pos, negsuc, eqb_ℤ, and_ℤ,
}
use py_vm.Outcome.{Exn, attribute_error, unsupported_operation, os_error, ok, err}
use py_vm.Host.{fileno, open_file, path_exists, unlink, lseek, close, Host}
use py_vm.Machine.{Exec, pure, raise, ◌>>=◌, ◌>>◌, gets, modify, set_mem}
use py_vm.Kernel.Ask.{ask, attempt, descriptor, file_object, set_descriptor, read_path}

-- `flags & O_MODE.x`
abbrev pub has_flag : ℤ → ℕ → Bool
has_flag flags mask = not (eqb_ℤ (and_ℤ flags (pos mask)) (pos 0))

-- The first None of the list, from the index `i` on.
unfoldable pub free_slot : ℕ → List (Option ℕ) → Option ℕ
free_slot i [] = none
free_slot i (none ∷ ds) = some i
free_slot i (some h ∷ ds) = free_slot (i + 1) ds

abbrev pub starts_with : List ℕ → List ℕ → Bool
starts_with [] s = true
starts_with (c ∷ cs) [] = false
starts_with (c ∷ cs) (d ∷ s) = (c == d) && starts_with cs s

abbrev pub same_bytes : List ℕ → List ℕ → Bool
same_bytes a b = starts_with a b && (length a == length b)

-- '/dev/tty' and '/etc'
abbrev pub dev_tty : List ℕ
dev_tty = 47 ∷ 100 ∷ 101 ∷ 118 ∷ 47 ∷ 116 ∷ 116 ∷ 121 ∷ []

abbrev pub etc : List ℕ
etc = 47 ∷ 101 ∷ 116 ∷ 99 ∷ []

-- The modes 'r', 'w', 'x' and 'r+'.
abbrev pub mode_r : List ℕ
mode_r = 114 ∷ []

abbrev pub mode_w : List ℕ
mode_w = 119 ∷ []

abbrev pub mode_x : List ℕ
mode_x = 120 ∷ []

abbrev pub mode_rw : List ℕ
mode_rw = 114 ∷ 43 ∷ []

-- UnsupportedOperation is an OSError too.
abbrev pub is_os_error : Exn → Bool
is_os_error os_error = true
is_os_error unsupported_operation = true
is_os_error e = false

module _ (host : Host) where
  -- `open_file`: the first empty place takes the new file object, or the list grows.
  unfoldable pub open_descriptor : List ℕ → List ℕ → Exec ℤ
  unfolding free_slot
  open_descriptor name mode = do
    h ← ask host.number (open_file name mode)
    ds ← gets (λ vm. vm.descriptors)
    elim (free_slot 0 ds) [
      | some i ↦ do set_descriptor i (some h); pure (pos i)
      | none ↦ do
        modify (λ vm. record vm { descriptors = vm.descriptors ++ some h ∷ [] })
        pure (pos (length ds))
    ]

  -- The flags O_RDONLY, O_WRONLY, O_TRUNC, O_RDWR and O_LARGEFILE are 0, 1, 512, 2 and 32768.
  unfoldable pub sys_open : ℕ → ℤ → ℕ → Exec ℤ
  unfolding open_descriptor read_path
  sys_open pathname_addr flags mode = do
    path ← read_path host pathname_addr
    if has_flag flags 0
        then (do
          there ← ask host.number (path_exists path)
          if there == 0 then pure (negsuc 0) else open_descriptor path mode_r)
        else if has_flag flags 1
        then open_descriptor path (if has_flag flags 512 then mode_w else mode_x)
        else if has_flag flags 2
        then (if same_bytes path dev_tty then pure (pos 0) else open_descriptor path mode_rw)
        else if has_flag flags 32768
        then (if starts_with etc path then pure (negsuc 0) else open_descriptor path mode_r)
        else pure (negsuc 0)

  unfoldable pub sys_close : ℕ → Exec ℤ
  unfolding descriptor
  sys_close fd = do
    count ← gets (λ vm. length vm.descriptors)
    if leb count fd then pure (negsuc 0) else do
      d ← descriptor (pos fd)
      elim d [
        | none ↦ pure (negsuc 0)
        | some h ↦ do _ ← ask host.number (close h); set_descriptor fd none; pure (pos 0)
      ]

  unfoldable pub sys_unlink : ℕ → Exec ℤ
  unfolding read_path
  sys_unlink pathname_addr = do
    path ← read_path host pathname_addr
    answer ← attempt (ask host.number (unlink path))
    elim answer [ ok a ↦ pure (pos 0) | err e ↦ if is_os_error e then pure (negsuc 0) else raise e ]

  -- `kernel.cpu.descriptors[fd].fileno()`
  abbrev pub file_number : ℤ → Exec ℕ
  unfolding file_object
  file_number fd = do h ← file_object fd; ask host.number (fileno h)

  -- What `llseek` stores at `result`, and returns.
  abbrev pub store_result : ℕ → ℤ → Exec ℤ
  store_result result_addr r = do set_mem (pos result_addr) 4 r; pure r

  -- `offset & 0xFFFFFFFF` is the low half of the offset; the result that is stored is 0 or -1.
  unfoldable pub sys_llseek : ℕ → ℕ → ℕ → ℕ → ℕ → Exec ℤ
  unfolding file_object
  sys_llseek fd offset_high offset_low result_addr whence = do
    answer ← attempt (file_number (pos fd))
    elim answer [
      | err attribute_error ↦ store_result result_addr (pos 0)
      | err e ↦ raise e
      | ok number ↦ do
        let offset = (offset_high * 2 ^ 32 + offset_low) % 2 ^ 32
        moved ← attempt (ask host.number (lseek number offset whence))
        elim moved [
          | ok position ↦ store_result result_addr (pos 0)
          | err e ↦ if is_os_error e then store_result result_addr (negsuc 0) else raise e
        ]
    ]
