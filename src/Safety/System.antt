-- ===== src/Safety/System.antt =====
-- VM/kernel: every system call changes the RAM only by checked writes.
use py_vm.Prelude.{
  ℕ, ◌+◌, ◌≡◌, refl, ap, Bool, true, false, Option, none, some, List, [], ◌∷◌, ◌++◌, if◌then◌else◌,
  ℤ, pos, ◌+ℤ◌, ltb_ℤ, eqb_ℤ,
}
use py_vm.Bytes.{Buffer}
use py_vm.Outcome.{Exn, assertion_error, index_error, Result, ok, err}
use py_vm.Host.{Event, Host}
use py_vm.Segments.{Entry}
use py_vm.Machine.{Machine, Outcome, done, raised, Exec, ◌>>=◌, modify}
use py_vm.Kernel.Ask.{
  record_event, ask, attempt, item, descriptor, file_object, set_descriptor, read_path,
}
use py_vm.Kernel.Blocks.{
  Found, no_block, bad_block, found, find_block, fuse_blocks, torn_list, last_block, drop_last,
}
use py_vm.Kernel.Brk.{sys_brk, sys_set_tid_address}
use py_vm.Kernel.Mmap.{
  clear, extend_break, after_search, map_anonymous, sys_mmap, release, give_back, sys_munmap,
}
use py_vm.Kernel.ThreadArea.{sys_set_thread_area}
use py_vm.Safety.{
  Confined, machine_of, IsConfined, Confined-refl, IsConfined-raise, IsConfined->>=,
  IsConfined-modify,
}
use py_vm.Safety.Writes.{IsConfined-set_bytes, IsConfined-memset}
use py_vm.Safety.Operands.{handler_rules}
use py_vm.Memory.{Memory}

-- Another machine with the same RAM.
shares : (vm vm' : Machine) → vm'.mem ≡ vm.mem → Confined vm vm'
shares vm vm' h = record {
  same_size = ap (λ (m : Memory). m.size) h;
  untouched = λ j le. ap (λ (m : Memory). m.cells j) h;
}

module _ {A B : Type 0} where
  pub case_result :
      (r : Result A) (f : A → Exec B) (g : Exn → Exec B)
      → ((a : A) → IsConfined (f a))
      → ((e : Exn) → IsConfined (g e))
      → IsConfined (elim r as (λ x. Exec B) [ ok a ↦ f a | err e ↦ g e ])
  case_result (ok a) f g h k = h a
  case_result (err e) f g h k = k e

  pub case_option :
      (r : Option A) (f : A → Exec B) (g : Exec B)
      → ((a : A) → IsConfined (f a))
      → IsConfined g
      → IsConfined (elim r as (λ x. Exec B) [ some a ↦ f a | none ↦ g ])
  case_option (some a) f g h k = h a
  case_option none f g h k = k

  -- A case split on what the action before returned.
  pub IsConfined-bind_result :
      (m : Exec (Result A)) (f : A → Exec B) (g : Exn → Exec B)
      → IsConfined m
      → ((a : A) → IsConfined (f a))
      → ((e : Exn) → IsConfined (g e))
      → IsConfined (m >>= λ r. elim r as (λ x. Exec B) [ ok a ↦ f a | err e ↦ g e ])
  IsConfined-bind_result m f g h k l = IsConfined->>= m _ h (λ r. case_result r f g k l)

  pub IsConfined-bind_option :
      (m : Exec (Option A)) (f : A → Exec B) (g : Exec B)
      → IsConfined m
      → ((a : A) → IsConfined (f a))
      → IsConfined g
      → IsConfined (m >>= λ r. elim r as (λ x. Exec B) [ some a ↦ f a | none ↦ g ])
  IsConfined-bind_option m f g h k l = IsConfined->>= m _ h (λ r. case_option r f g k l)

module _ {A : Type 0} where
  answered :
      (vm vm' : Machine) (r : Result A)
      → vm'.mem ≡ vm.mem
      → Confined vm
          (machine_of (elim r as (λ x. Outcome A) [ ok a ↦ done a vm' | err e ↦ raised e vm' ]))
  answered vm vm' (ok a) h = shares vm vm' h
  answered vm vm' (err e) h = shares vm vm' h

  pub ask-IsConfined :
      (answer : List Event → Event → Result A) (ev : Event) → IsConfined (ask answer ev)
  ask-IsConfined answer ev = record {
    at = λ vm. answered vm (record_event ev vm) (answer vm.trace ev) refl;
  }

  attempted :
      (vm : Machine) (o : Outcome A)
      → Confined vm (machine_of o)
      → Confined vm (
          machine_of (elim o as (λ x. Outcome (Result A)) [
            | done a vm' ↦ done (ok a) vm'
            | raised e vm' ↦ done (err e) vm'
          ]))
  attempted vm (done a vm') h = h
  attempted vm (raised e vm') h = h

  pub attempt-IsConfined : (m : Exec A) → IsConfined m → IsConfined (attempt m)
  attempt-IsConfined m h = record { at = λ vm. attempted vm (m vm) (h.at vm) }

opened :
    (vm : Machine) (o : Option (Option ℕ))
    → Confined vm (
        machine_of (elim o as (λ x. Outcome (Option ℕ)) [
          | some d ↦ done d vm
          | none ↦ raised index_error vm
        ]))
opened vm (some d) = Confined-refl vm
opened vm none = Confined-refl vm

pub descriptor-IsConfined : (fd : ℤ) → IsConfined (descriptor fd)
unfolding descriptor
descriptor-IsConfined fd = record { at = λ vm. opened vm (item vm.descriptors fd) }

pub set_descriptor-IsConfined : (fd : ℕ) (d : Option ℕ) → IsConfined (set_descriptor fd d)
set_descriptor-IsConfined fd d = IsConfined-modify _ (λ vm. refl)

pub either :
    {A : Type 0} (vm : Machine) (b : Bool) (x y : Outcome A)
    → Confined vm (machine_of x)
    → Confined vm (machine_of y)
    → Confined vm (machine_of (if b then x else y))
either vm true x y h k = h
either vm false x y h k = k

pub read_path-IsConfined : (host : Host) (a : ℕ) → IsConfined (read_path host a)
unfolding read_path
read_path-IsConfined host a = record { at = λ vm. search (either, Confined-refl) }

pub ruleset call_rules = (
  handler_rules, IsConfined-bind_result, IsConfined-bind_option, ask-IsConfined, attempt-IsConfined,
  descriptor-IsConfined, set_descriptor-IsConfined, read_path-IsConfined, IsConfined-set_bytes,
)

pub file_object-IsConfined : (fd : ℤ) → IsConfined (file_object fd)
unfolding file_object
file_object-IsConfined fd = search call_rules depth 60 fits 6000

-- The same bytes, whatever else has changed.
pub same_ram :
    (vm vm' : Machine) → vm'.mem.size ≡ vm.mem.size → vm'.mem.cells ≡ vm.mem.cells → Confined vm vm'
same_ram vm vm' p q = record { same_size = p; untouched = λ j le. ap (λ (b : Buffer). b j) q }

pub sys_brk-IsConfined : (n : ℕ) → IsConfined (sys_brk n)
unfolding sys_brk
sys_brk-IsConfined n = record { at = λ vm. search (either, same_ram) depth 12 }

pub sys_set_tid_address-IsConfined : (p : ℕ) → IsConfined (sys_set_tid_address p)
unfolding sys_set_tid_address
sys_set_tid_address-IsConfined p = search call_rules depth 60 fits 6000

clear-IsConfined : (o : ℤ) (n : ℕ) → IsConfined (clear o n)
clear-IsConfined o n = IsConfined-memset o 0 n

ruleset map_rules = (call_rules, clear-IsConfined)

grown-IsConfined :
    (n : ℕ)
    → IsConfined (
        modify (λ vm. record vm {
          mem = record vm.mem { program_break = vm.mem.program_break +ℤ pos n };
        }))
grown-IsConfined n = record { at = λ vm. same_ram vm _ refl refl }

extend_break-IsConfined : (n : ℕ) → IsConfined (extend_break n)
extend_break-IsConfined n = search (map_rules, grown-IsConfined) depth 20

after_search-IsConfined : (n : ℕ) (f : Found) → IsConfined (after_search n f)
after_search-IsConfined n no_block = extend_break-IsConfined n
after_search-IsConfined n bad_block = IsConfined-raise assertion_error
after_search-IsConfined n (found start blocks) =
    IsConfined->>= (modify (λ vm. record vm { free_memory_blocks = blocks })) _
      (IsConfined-modify _ (λ vm. refl)) (λ x. clear-IsConfined (pos start) n)

map_anonymous-IsConfined : (n : ℕ) → IsConfined (map_anonymous n)
unfolding map_anonymous
map_anonymous-IsConfined n = record {
  at = λ vm. (after_search-IsConfined n (find_block n vm.free_memory_blocks)).at vm;
}

pub sys_mmap-IsConfined :
    (is_flags is_prot : ℤ → Bool) (a n : ℕ) (p f fd : ℤ)
    → IsConfined (sys_mmap is_flags is_prot a n p f fd)
unfolding sys_mmap
sys_mmap-IsConfined is_flags is_prot a n p f fd =
    search (map_rules, map_anonymous-IsConfined) depth 20

fused :
    (vm : Machine) (r : Result (List (ℕ × ℕ))) (torn : List (Option (ℕ × ℕ)))
    → Confined vm (
        machine_of (elim r as (λ x. Outcome (Unit {0})) [
          | ok blocks ↦ done tt (record vm { free_memory_blocks = blocks })
          | err e ↦ raised e (record vm { torn_blocks = some torn })
        ]))
fused vm (ok blocks) torn = same_ram vm _ refl refl
fused vm (err e) torn = same_ram vm _ refl refl

release-IsConfined : (a n : ℕ) → IsConfined (release a n)
unfolding release
release-IsConfined a n = record {
  at = λ vm. either vm (eqb_ℤ (pos (a + n)) vm.mem.program_break) _ _ (same_ram vm _ refl refl) (
      fused vm (fuse_blocks (vm.free_memory_blocks ++ (a, a + n) ∷ []))
        (torn_list (vm.free_memory_blocks ++ (a, a + n) ∷ [])));
}

returned_machine :
    (vm : Machine) (b : Bool) (x y : Machine)
    → Confined vm x
    → Confined vm y
    → Confined vm (if b then x else y)
returned_machine vm true x y h k = h
returned_machine vm false x y h k = k

last_given :
    (vm : Machine) (o : Option (ℕ × ℕ))
    → Confined vm (elim o as (λ x. Machine) [
      | none ↦ vm
      | some (s, e) ↦ if ltb_ℤ (pos e) vm.mem.program_break then vm else record vm {
        mem = record vm.mem { program_break = pos s };
        free_memory_blocks = drop_last vm.free_memory_blocks;
      }
    ])
last_given vm none = Confined-refl vm
last_given vm (some (s, e)) =
    returned_machine vm (ltb_ℤ (pos e) vm.mem.program_break) _ _ (Confined-refl vm)
      (same_ram vm _ refl refl)

give_back-IsConfined : IsConfined (modify give_back)
unfolding give_back
give_back-IsConfined = record { at = λ vm. last_given vm (last_block vm.free_memory_blocks) }

pub sys_munmap-IsConfined : (a n : ℕ) → IsConfined (sys_munmap a n)
unfolding sys_munmap
sys_munmap-IsConfined a n = search (call_rules, release-IsConfined, give_back-IsConfined) depth 20

gdt-IsConfined : (g : List Entry) → IsConfined (modify (λ vm. record vm { gdt = g }))
gdt-IsConfined g = IsConfined-modify _ (λ vm. refl)

pub sys_set_thread_area-IsConfined : (a : ℕ) → IsConfined (sys_set_thread_area a)
unfolding sys_set_thread_area
sys_set_thread_area-IsConfined a = search (call_rules, gdt-IsConfined) depth 30 fits 3000
