-- ===== src/Kernel/Table.antt =====
-- VM/kernel/kernel.py, `Kernel.__getitem__`: the arguments of a system call come from EBX, ECX, EDX,
-- ESI and EDI, as signed or unsigned numbers.
use py_vm.Prelude.{ℕ, Bool, ◌||◌, ◌==◌, if◌then◌else◌, ℤ}
use py_vm.Outcome.{key_error}
use py_vm.Host.{Host}
use py_vm.Machine.{Exec, raise, ◌>>=◌, get_reg, get_reg_signed}
use py_vm.Instructions.Control.{Syscalls}
use py_vm.Kernel.Brk.{sys_brk, sys_set_tid_address}
use py_vm.Kernel.Mmap.{sys_mmap, sys_munmap}
use py_vm.Kernel.ThreadArea.{sys_set_thread_area}
use py_vm.Kernel.Files.{sys_open, sys_close, sys_unlink, sys_llseek}
use py_vm.Kernel.Streams.{sys_read, sys_write, sys_writev}
use py_vm.Kernel.Process.{sys_newuname, sys_ioctl, not_supported, sys_clock_gettime, sys_exit}

-- Where no call is registered under the number.
abbrev pub no_syscall : Syscalls
no_syscall number = raise key_error

-- The arguments, the first in EBX.
abbrev pub with_one : (ℕ → Exec ℤ) → Exec ℤ
with_one call = do a ← get_reg 3 4; call a

abbrev pub with_two : (ℕ → ℕ → Exec ℤ) → Exec ℤ
with_two call = do a ← get_reg 3 4; b ← get_reg 1 4; call a b

abbrev pub with_three : (ℕ → ℕ → ℕ → Exec ℤ) → Exec ℤ
with_three call = do a ← get_reg 3 4; b ← get_reg 1 4; c ← get_reg 2 4; call a b c

module _ (host : Host) where
  -- The calls of kernel_filesystem.py.
  abbrev pub call_open : Exec ℤ
  call_open = do
    path ← get_reg 3 4
    flags ← get_reg_signed 1 4
    mode ← get_reg 2 4
    sys_open host path flags mode

  abbrev pub call_writev : Exec ℤ
  call_writev = do
    fd ← get_reg_signed 3 4
    iov ← get_reg 1 4
    count ← get_reg_signed 2 4
    sys_writev host fd iov count

  abbrev pub call_llseek : Exec ℤ
  call_llseek = do
    fd ← get_reg 3 4
    high ← get_reg 1 4
    low ← get_reg 2 4
    result ← get_reg 6 4
    whence ← get_reg 7 4
    sys_llseek host fd high low result whence

  unfoldable pub file_calls : Syscalls
  file_calls number =
      if number == 0x03
      then with_three (sys_read host)
      else if number == 0x04
      then with_three (sys_write host)
      else if number == 0x05
      then call_open
      else if number == 0x06
      then with_one (sys_close host)
      else if number == 0x0a
      then with_one (sys_unlink host)
      else if number == 0x8c
      then call_llseek
      else if number == 0x92
      then call_writev
      else no_syscall number

  -- The calls of kernel_sys.py; the arguments that a call ignores are left out.
  abbrev pub call_exit : Exec ℤ
  call_exit = do code ← get_reg_signed 3 4; sys_exit host code

  abbrev pub call_ioctl : Exec ℤ
  call_ioctl = do
    fd ← get_reg_signed 3 4
    request ← get_reg 1 4
    address ← get_reg 2 4
    sys_ioctl fd request address

  unfoldable pub process_calls : Syscalls
  unfolding file_calls
  process_calls number =
      if number == 0x01 || number == 0xfc
      then call_exit
      else if number == 0x36
      then call_ioctl
      else if number == 0x7a
      then with_one sys_newuname
      else if number == 0xae || number == 0xaf || number == 0xba
      then not_supported
      else if number == 0x109
      then with_two (sys_clock_gettime host)
      else file_calls number

module _ (is_flags is_prot : ℤ → Bool) (host : Host) where
  abbrev call_mmap : Exec ℤ
  call_mmap = do
    addr ← get_reg 3 4
    n ← get_reg 1 4
    prot ← get_reg_signed 2 4
    flags ← get_reg_signed 6 4
    fd ← get_reg_signed 7 4
    sys_mmap is_flags is_prot addr n prot flags fd

  unfoldable pub syscalls : Syscalls
  unfolding process_calls
  syscalls number =
      if number == 0xf3
      then with_one sys_set_thread_area
      else if number == 0x102
      then with_one sys_set_tid_address
      else if number == 0x2d
      then with_one sys_brk
      else if number == 0xc0
      then call_mmap
      else if number == 0x5b
      then with_two sys_munmap
      else process_calls host number
