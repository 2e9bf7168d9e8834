-- ===== src/Safety.antt =====
-- Which bytes an action may change: those of the RAM. Memory.py reads and writes through `ctypes` at
-- addresses of the process itself, so that only its checks keep a program inside the RAM.
pub mod Writes
pub mod Operands
pub mod Arithmetic
pub mod Moves
pub mod Floating
pub mod System
pub mod Files
pub mod Process
pub mod Whole
pub mod Cycle
pub mod Run
use py_vm.Prelude.{ℕ, ◌≤◌, ◌≡◌, refl, sym, subst, ap, ◌∙◌, Bool, true, false, if◌then◌else◌}
use py_vm.Outcome.{Exn, Result, ok, err}
use py_vm.Machine.{Machine, Outcome, done, raised, Exec, pure, raise, ◌>>=◌, gets, modify, lift}
use py_vm.Memory.{Memory}

-- The RAM has the same size as before, and no byte behind its end has changed.
pub record Confined (vm vm' : Machine) : Type 0 where
  pub same_size : vm'.mem.size ≡ vm.mem.size
  pub untouched : (j : ℕ) → vm.mem.size ≤ j → vm'.mem.cells j ≡ vm.mem.cells j

-- The machine behind an action, however it ended.
abbrev pub machine_of : {A : Type 0} → Outcome A → Machine
machine_of (done a vm) = vm
machine_of (raised e vm) = vm

-- Whatever machine it starts from, and whether it returns or raises.
pub record IsConfined {A : Type 0} (m : Exec A) : Type 0 where
  pub at : (vm : Machine) → Confined vm (machine_of (m vm))

pub Confined-refl : (vm : Machine) → Confined vm vm
Confined-refl vm = record { same_size = refl; untouched = λ j h. refl }

pub Confined-trans : {a b c : Machine} → Confined a b → Confined b c → Confined a c
Confined-trans f g = record {
  same_size = g.same_size ∙ f.same_size;
  untouched = λ j h. g.untouched j (subst (λ (n : ℕ). n ≤ j) (sym f.same_size) h) ∙ f.untouched j h;
}

pub IsConfined-pure : {A : Type 0} (a : A) → IsConfined (pure a)
IsConfined-pure a = record { at = λ vm. Confined-refl vm }

pub IsConfined-raise : {A : Type 0} (e : Exn) → IsConfined (raise {A = A} e)
IsConfined-raise e = record { at = λ vm. Confined-refl vm }

pub IsConfined-gets : {A : Type 0} (f : Machine → A) → IsConfined (gets f)
IsConfined-gets f = record { at = λ vm. Confined-refl vm }

lifted :
    {A : Type 0} (r : Result A) (vm : Machine)
    → Confined vm
        (machine_of (elim r as (λ x. Outcome A) [ ok a ↦ done a vm | err e ↦ raised e vm ]))
lifted (ok a) vm = Confined-refl vm
lifted (err e) vm = Confined-refl vm

pub IsConfined-lift : {A : Type 0} (f : Machine → Result A) → IsConfined (lift f)
IsConfined-lift f = record { at = λ vm. lifted (f vm) vm }

continued :
    {A B : Type 0} (vm : Machine) (o : Outcome A) (f : A → Exec B)
    → Confined vm (machine_of o)
    → ((a : A) → IsConfined (f a))
    → Confined vm (
        machine_of
          (elim o as (λ x. Outcome B) [ done a vm' ↦ f a vm' | raised e vm' ↦ raised e vm' ]))
continued vm (done a vm') f c h = Confined-trans c ((h a).at vm')
continued vm (raised e vm') f c h = c

pub IsConfined->>= :
    {A B : Type 0} (m : Exec A) (f : A → Exec B)
    → IsConfined m
    → ((a : A) → IsConfined (f a))
    → IsConfined (m >>= f)
IsConfined->>= m f h k = record { at = λ vm. continued vm (m vm) f (h.at vm) k }

pub IsConfined-if :
    {A : Type 0} (b : Bool) (m n : Exec A)
    → IsConfined m
    → IsConfined n
    → IsConfined (if b then m else n)
IsConfined-if true m n h k = h
IsConfined-if false m n h k = k

-- A change of another part of the machine.
pub IsConfined-modify :
    (f : Machine → Machine) → ((vm : Machine) → (f vm).mem ≡ vm.mem) → IsConfined (modify f)
IsConfined-modify f h = record {
  at = λ vm. record {
    same_size = ap (λ (m : Memory). m.size) (h vm);
    untouched = λ j le. ap (λ (m : Memory). m.cells j) (h vm);
  };
}
