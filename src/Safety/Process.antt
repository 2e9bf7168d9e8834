-- ===== src/Safety/Process.antt =====
-- VM/kernel/kernel_sys.py and the table of kernel.py: the system calls change the RAM only by checked
-- writes.
use py_vm.Prelude.{
  ℕ, ◌+◌, refl, Bool, false, Option, none, some, List, [], ◌∷◌, ◌==◌, if◌then◌else◌, ℤ, pos, negsuc,
  eqb_ℤ,
}
use py_vm.Host.{close, is_closed, Host}
use py_vm.Machine.{pure, ◌>>=◌, modify}
use py_vm.Kernel.Ask.{ask, set_descriptor}
use py_vm.Kernel.Brk.{sys_brk}
use py_vm.Kernel.Process.{
  release_from, release_memory, filter_open, sys_newuname, sys_ioctl, sys_clock_gettime, close_all,
  sys_exit,
}
use py_vm.Kernel.Table.{
  call_open, call_writev, call_llseek, file_calls, call_exit, call_ioctl, process_calls, syscalls,
}
use py_vm.Safety.{IsConfined, Confined-refl, IsConfined-pure, IsConfined->>=, IsConfined-modify}
use py_vm.Safety.System.{
  ask-IsConfined, set_descriptor-IsConfined, either, call_rules, file_object-IsConfined, same_ram,
  sys_brk-IsConfined, sys_set_tid_address-IsConfined, sys_mmap-IsConfined, sys_munmap-IsConfined,
  sys_set_thread_area-IsConfined,
}
use py_vm.Safety.Files.{
  sys_open-IsConfined, sys_close-IsConfined, sys_unlink-IsConfined, sys_llseek-IsConfined,
  sys_read-IsConfined, sys_write-IsConfined, sys_writev-IsConfined,
}

release_from-IsConfined : (e : ℤ) → IsConfined (release_from e)
unfolding release_from
release_from-IsConfined (pos n) =
    IsConfined->>= (sys_brk n) _ (sys_brk-IsConfined n) (λ b. IsConfined-pure tt)
release_from-IsConfined (negsuc n) = record {
  at = λ vm.
      either vm (eqb_ℤ vm.mem.program_break (negsuc n)) _ _ (Confined-refl vm)
        (same_ram vm _ refl refl);
}

release_memory-IsConfined : IsConfined release_memory
unfolding release_from
release_memory-IsConfined = record {
  at = λ vm. (release_from-IsConfined vm.code_segment_end).at vm;
}

kept-IsConfined : IsConfined (modify (λ vm. record vm { descriptors = filter_open vm.descriptors }))
kept-IsConfined = IsConfined-modify _ (λ vm. refl)

ended-IsConfined :
    (r : ℕ) → IsConfined (modify (λ vm. record vm { retcode = some r; running = false }))
ended-IsConfined r = IsConfined-modify _ (λ vm. refl)

sys_newuname-IsConfined : (a : ℕ) → IsConfined (sys_newuname a)
unfolding sys_newuname
sys_newuname-IsConfined a = search call_rules depth 60 fits 6000

sys_ioctl-IsConfined : (fd : ℤ) (r a : ℕ) → IsConfined (sys_ioctl fd r a)
unfolding sys_ioctl
sys_ioctl-IsConfined fd r a = search call_rules depth 60 fits 6000

module _ (host : Host) where
  sys_clock_gettime-IsConfined : (c p : ℕ) → IsConfined (sys_clock_gettime host c p)
  unfolding sys_clock_gettime
  sys_clock_gettime-IsConfined c p = search call_rules depth 60 fits 6000

  closed-IsConfined :
      (h c : ℕ)
      → IsConfined (if c == 0 then (do x ← ask host.number (close h); pure tt) else pure tt)
  closed-IsConfined h c = search call_rules

  close_all-IsConfined : (i : ℕ) (ds : List (Option ℕ)) → IsConfined (close_all host i ds)
  unfolding close_all
  close_all-IsConfined i [] = IsConfined-pure tt
  close_all-IsConfined i (none ∷ ds) = close_all-IsConfined (i + 1) ds
  close_all-IsConfined i (some h ∷ ds) =
      IsConfined->>= (ask host.number (is_closed h)) _ (ask-IsConfined host.number (is_closed h))
        (λ c. IsConfined->>= _ _ (closed-IsConfined h c) (λ x.
          IsConfined->>= (set_descriptor i none) _ (set_descriptor-IsConfined i none)
            (λ y. close_all-IsConfined (i + 1) ds)))

  sys_exit-IsConfined : (code : ℤ) → IsConfined (sys_exit host code)
  unfolding sys_exit
  sys_exit-IsConfined code =
      search
        (
          call_rules, release_memory-IsConfined, close_all-IsConfined, kept-IsConfined,
          ended-IsConfined, file_object-IsConfined,
        )
        depth 60 fits 6000

  call_open-IsConfined : IsConfined (call_open host)
  call_open-IsConfined = search (call_rules, sys_open-IsConfined) depth 60 fits 6000

  call_writev-IsConfined : IsConfined (call_writev host)
  call_writev-IsConfined = search (call_rules, sys_writev-IsConfined) depth 60 fits 6000

  call_llseek-IsConfined : IsConfined (call_llseek host)
  call_llseek-IsConfined = search (call_rules, sys_llseek-IsConfined) depth 60 fits 6000

  call_exit-IsConfined : IsConfined (call_exit host)
  call_exit-IsConfined = search (call_rules, sys_exit-IsConfined) depth 60 fits 6000

  call_ioctl-IsConfined : IsConfined (call_ioctl host)
  call_ioctl-IsConfined = search (call_rules, sys_ioctl-IsConfined) depth 20 fits 3000

  file_calls-IsConfined : (n : ℕ) → IsConfined (file_calls host n)
  unfolding file_calls
  file_calls-IsConfined n =
      search
        (
          call_rules, sys_read-IsConfined, sys_write-IsConfined, call_open-IsConfined,
          sys_close-IsConfined, sys_unlink-IsConfined, call_llseek-IsConfined,
          call_writev-IsConfined,
        )
        depth 60 fits 6000

  process_calls-IsConfined : (n : ℕ) → IsConfined (process_calls host n)
  unfolding process_calls
  process_calls-IsConfined n =
      search
        (
          call_rules, call_exit-IsConfined, call_ioctl-IsConfined, sys_newuname-IsConfined,
          sys_clock_gettime-IsConfined, file_calls-IsConfined,
        )
        depth 60 fits 6000

pub syscalls-IsConfined :
    (is_flags is_prot : ℤ → Bool) (host : Host) (n : ℕ)
    → IsConfined (syscalls is_flags is_prot host n)
unfolding syscalls
syscalls-IsConfined is_flags is_prot host n =
    search
      (
        call_rules, sys_set_thread_area-IsConfined, sys_set_tid_address-IsConfined,
        sys_brk-IsConfined, sys_mmap-IsConfined, sys_munmap-IsConfined, process_calls-IsConfined,
      )
      depth 60 fits 6000
