-- ===== src/Safety/Files.antt =====
-- VM/kernel/kernel_filesystem.py: its system calls change the RAM only by checked writes.
use py_vm.Prelude.{
  length, ℕ, zero, suc, ◌+◌, ◌*◌, ◌%◌, ◌^◌, refl, Option, none, some, List, [], ◌∷◌, ◌++◌,
  if◌then◌else◌, ℤ, pos, negsuc,
}
use py_vm.Outcome.{Exn, attribute_error, unicode_error, ok, err}
use py_vm.Host.{fileno, write_text, flush, open_file, lseek, Host}
use py_vm.Machine.{Exec, pure, raise, ◌>>=◌, ◌>>◌, gets, modify}
use py_vm.Kernel.Ask.{ask, attempt, file_object, set_descriptor}
use py_vm.Kernel.Files.{
  free_slot, is_os_error, open_descriptor, sys_open, sys_close, sys_unlink, file_number,
  store_result, sys_llseek,
}
use py_vm.Kernel.Streams.{
  read_descriptor, read_line, sys_read, write_descriptor, write_line, write_buffer, sys_write,
  write_vector, writev_loop, sys_writev,
}
use py_vm.Safety.{
  IsConfined, IsConfined-pure, IsConfined-raise, IsConfined-gets, IsConfined->>=, IsConfined-modify,
}
use py_vm.Safety.System.{
  case_result, case_option, ask-IsConfined, attempt-IsConfined, call_rules, file_object-IsConfined,
}

appended-IsConfined :
    (h : ℕ) → IsConfined (modify (λ vm. record vm { descriptors = vm.descriptors ++ some h ∷ [] }))
appended-IsConfined h = IsConfined-modify _ (λ vm. refl)

module _ (host : Host) where
  placed-IsConfined :
      (h : ℕ) (ds : List (Option ℕ))
      → IsConfined (elim (free_slot 0 ds) as (λ x. Exec ℤ) [
        | some i ↦ set_descriptor i (some h) >> pure (pos i)
        | none ↦
            modify (λ vm. record vm { descriptors = vm.descriptors ++ some h ∷ [] })
            >> pure (pos (length ds))
      ])
  placed-IsConfined h ds =
      case_option (free_slot 0 ds) _ _ (λ i. search call_rules)
        (search (call_rules, appended-IsConfined))

  open_descriptor-IsConfined : (p m : List ℕ) → IsConfined (open_descriptor host p m)
  unfolding open_descriptor
  open_descriptor-IsConfined p m =
      IsConfined->>= (ask host.number (open_file p m)) _
        (ask-IsConfined host.number (open_file p m))
        (λ h.
          IsConfined->>= (gets (λ vm. vm.descriptors)) _ (IsConfined-gets _)
            (λ ds. placed-IsConfined h ds))

  pub sys_open-IsConfined : (p : ℕ) (f : ℤ) (m : ℕ) → IsConfined (sys_open host p f m)
  unfolding sys_open
  sys_open-IsConfined p f m = search (call_rules, open_descriptor-IsConfined) depth 60 fits 6000

  pub sys_close-IsConfined : (fd : ℕ) → IsConfined (sys_close host fd)
  unfolding sys_close
  sys_close-IsConfined fd = search call_rules depth 60 fits 6000

  pub sys_unlink-IsConfined : (p : ℕ) → IsConfined (sys_unlink host p)
  unfolding sys_unlink
  sys_unlink-IsConfined p = search call_rules depth 60 fits 6000

  file_number-IsConfined : (fd : ℤ) → IsConfined (file_number host fd)
  unfolding file_object
  file_number-IsConfined fd =
      IsConfined->>= (file_object fd) _ (file_object-IsConfined fd)
        (λ h. ask-IsConfined host.number (fileno h))

  store_result-IsConfined : (a : ℕ) (r : ℤ) → IsConfined (store_result host a r)
  store_result-IsConfined a r = search call_rules

  sought-IsConfined :
      (number offset w a : ℕ)
      → IsConfined (
          attempt (ask host.number (lseek number offset w)) >>= λ moved.
          elim moved as (λ x. Exec ℤ) [
            | ok position ↦ store_result host a (pos 0)
            | err e ↦ if is_os_error e then store_result host a (negsuc 0) else raise e
          ])
  sought-IsConfined number offset w a =
      search (call_rules, store_result-IsConfined) depth 30 fits 3000

  unsupported-IsConfined :
      (a : ℕ) (e : Exn)
      → IsConfined (elim e as (λ x. Exec ℤ) [
        | attribute_error ↦ store_result host a (pos 0)
        | e' ↦ raise e'
      ])
  unsupported-IsConfined a attribute_error = store_result-IsConfined a (pos 0)
  unsupported-IsConfined a e = IsConfined-raise e

  pub sys_llseek-IsConfined : (fd h l r w : ℕ) → IsConfined (sys_llseek host fd h l r w)
  unfolding sys_llseek
  sys_llseek-IsConfined fd h l r w =
      IsConfined->>= (attempt (file_number host (pos fd))) _
        (attempt-IsConfined _ (file_number-IsConfined (pos fd)))
        (λ answer.
          case_result answer _ _
            (λ number. sought-IsConfined number ((h * 2 ^ 32 + l) % 2 ^ 32) w r)
            (unsupported-IsConfined r))

  read_descriptor-IsConfined : (fd : ℤ) (n : ℕ) → IsConfined (read_descriptor host fd n)
  unfolding read_descriptor
  read_descriptor-IsConfined fd n = search (call_rules, file_number-IsConfined) depth 60 fits 6000

  read_line-IsConfined : (fd : ℤ) (n : ℕ) → IsConfined (read_line host fd n)
  unfolding read_line
  read_line-IsConfined fd n = search (call_rules, file_object-IsConfined) depth 60 fits 6000

  pub sys_read-IsConfined : (fd a n : ℕ) → IsConfined (sys_read host fd a n)
  unfolding sys_read
  sys_read-IsConfined fd a n =
      search (call_rules, read_descriptor-IsConfined, read_line-IsConfined) depth 60 fits 6000

  write_descriptor-IsConfined : (fd : ℤ) (b : List ℕ) → IsConfined (write_descriptor host fd b)
  unfolding write_descriptor
  write_descriptor-IsConfined fd b = search (call_rules, file_number-IsConfined) depth 60 fits 6000

  write_line-IsConfined : (fd : ℤ) (b : List ℕ) → IsConfined (write_line host fd b)
  unfolding write_line
  write_line-IsConfined fd b = IsConfined->>= (file_object fd) _ (file_object-IsConfined fd) (λ h.
      IsConfined->>=
        (if host.is_ascii b then ask host.written (write_text h b) else raise unicode_error) _
        (search call_rules)
        (λ r.
          IsConfined->>= (ask host.number (flush h)) _ (ask-IsConfined host.number (flush h)) (λ x.
            case_option r pure (pure (length b)) (λ n. IsConfined-pure n) (IsConfined-pure _))))

  write_buffer-IsConfined : (fd : ℤ) (b : List ℕ) → IsConfined (write_buffer host fd b)
  unfolding write_buffer
  write_buffer-IsConfined fd b =
      search (call_rules, write_descriptor-IsConfined, write_line-IsConfined) depth 60 fits 6000

  pub sys_write-IsConfined : (fd a n : ℕ) → IsConfined (sys_write host fd a n)
  unfolding sys_write
  sys_write-IsConfined fd a n = search (call_rules, write_buffer-IsConfined) depth 60 fits 6000

  write_vector-IsConfined : (fd : ℤ) (a : ℕ) → IsConfined (write_vector host fd a)
  unfolding write_vector
  write_vector-IsConfined fd a = search (call_rules, write_buffer-IsConfined) depth 60 fits 6000

  writev_loop-IsConfined : (fd : ℤ) (n a size : ℕ) → IsConfined (writev_loop host fd n a size)
  unfolding writev_loop
  writev_loop-IsConfined fd zero a size = IsConfined-pure size
  writev_loop-IsConfined fd (suc n) a size =
      IsConfined->>= (write_vector host fd a) _ (write_vector-IsConfined fd a)
        (λ r. writev_loop-IsConfined fd n (a + 8) (size + r))

  pub sys_writev-IsConfined : (fd : ℤ) (a : ℕ) (n : ℤ) → IsConfined (sys_writev host fd a n)
  unfolding sys_writev
  sys_writev-IsConfined fd a n = search (call_rules, writev_loop-IsConfined) depth 60 fits 6000
