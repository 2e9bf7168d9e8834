-- ===== src/Kernel/Streams.antt =====
-- VM/kernel/kernel_filesystem.py: the system calls that read from and write to file objects.
pub mod Vectors
use py_vm.Prelude.{
  length, ℕ, zero, suc, ◌+◌, none, some, List, [], ◌∷◌, ◌++◌, ◌==◌, if◌then◌else◌, ℤ, pos, negsuc,
}
use py_vm.Outcome.{unicode_error, ok, err}
use py_vm.Bytes.{read32}
use py_vm.Host.{os_read, read_text, os_write, write_text, flush, Host}
use py_vm.Machine.{Exec, pure, raise, ◌>>=◌, ◌>>◌, gets, lift, lift_mem}
use py_vm.Kernel.Ask.{ask, attempt, is_unsupported, file_object}
use py_vm.Kernel.Files.{file_number}
use py_vm.Memory

module _ (host : Host) where
  -- `os.read(kernel.cpu.descriptors[fd].fileno(), count)`
  unfoldable pub read_descriptor : ℤ → ℕ → Exec (List ℕ)
  unfolding file_object
  read_descriptor fd count = do number ← file_number host fd; ask host.string (os_read number count)

  -- `(kernel.cpu.descriptors[fd].read(count) + '\n').encode('ascii')`
  unfoldable pub read_line : ℤ → ℕ → Exec (List ℕ)
  unfolding file_object
  read_line fd count = do
    h ← file_object fd
    text ← ask host.string (read_text h count)
    if host.is_ascii text then pure (text ++ 10 ∷ []) else raise unicode_error

  abbrev pub store_data : ℕ → List ℕ → Exec ℤ
  store_data data_addr chunk = do
    lift_mem (λ m. Memory.set_bytes m (pos data_addr) chunk)
    pure (pos (length chunk))

  unfoldable pub sys_read : ℕ → ℕ → ℕ → Exec ℤ
  unfolding read_descriptor read_line
  sys_read fd data_addr count = do
    answer ← attempt (read_descriptor (pos fd) count)
    elim answer [
      | ok chunk ↦ store_data data_addr chunk
      | err e ↦
          if is_unsupported e
          then (do chunk ← read_line (pos fd) count; store_data data_addr chunk)
          else pure (negsuc 0)
    ]

  -- `os.write(kernel.cpu.descriptors[fd].fileno(), buf)`
  unfoldable pub write_descriptor : ℤ → List ℕ → Exec ℕ
  unfolding file_object
  write_descriptor fd buf = do number ← file_number host fd; ask host.number (os_write number buf)

  -- `write(buf.decode('ascii'))` and `flush()`; the length of `buf` where `write` returns None.
  unfoldable pub write_line : ℤ → List ℕ → Exec ℕ
  unfolding file_object
  write_line fd buf = do
    h ← file_object fd
    ret ← (if host.is_ascii buf then ask host.written (write_text h buf) else raise unicode_error)
    _ ← ask host.number (flush h)
    elim ret [ some n ↦ pure n | none ↦ pure (length buf) ]

  -- The part that `sys_write` and `sys_writev` have in common.
  unfoldable pub write_buffer : ℤ → List ℕ → Exec ℕ
  unfolding write_descriptor write_line
  write_buffer fd buf = do
    answer ← attempt (write_descriptor fd buf)
    elim answer [ ok n ↦ pure n | err e ↦ if is_unsupported e then write_line fd buf else raise e ]

  unfoldable pub sys_write : ℕ → ℕ → ℕ → Exec ℤ
  unfolding write_buffer
  sys_write fd buf_addr count = do
    buf ← lift (λ vm. Memory.get_bytes vm.mem (pos buf_addr) count)
    n ← write_buffer (pos fd) buf
    pure (pos n)

  -- One round of `sys_writev`: what it adds to the size. The structure is read at `calc_address`
  -- without a check.
  unfoldable pub write_vector : ℤ → ℕ → Exec ℕ
  unfolding write_buffer
  write_vector fd iov_addr = do
    at ← gets (λ vm. vm.mem.segment_base + iov_addr)
    iov_base ← gets (λ vm. read32 vm.mem.cells at)
    iov_len ← gets (λ vm. read32 vm.mem.cells (at + 4))
    if iov_len == 0 then pure 0 else do
      buf ← lift (λ vm. Memory.get_bytes vm.mem (pos iov_base) iov_len)
      write_buffer fd buf

  -- The rounds that are left, the address of the next structure and the size so far.
  unfoldable pub writev_loop : ℤ → ℕ → ℕ → ℕ → Exec ℕ
  unfolding write_vector
  writev_loop fd zero iov_addr size = pure size
  writev_loop fd (suc n) iov_addr size = do
    ret ← write_vector fd iov_addr
    writev_loop fd n (iov_addr + 8) (size + ret)

  -- A negative count is an empty range.
  unfoldable pub sys_writev : ℤ → ℕ → ℤ → Exec ℤ
  unfolding writev_loop
  sys_writev fd iov_addr iovcnt = do
    size ← writev_loop fd (elim iovcnt [ pos n ↦ n | negsuc n ↦ 0 ]) iov_addr 0
    pure (pos size)
