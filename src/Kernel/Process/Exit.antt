-- ===== src/Kernel/Process/Exit.antt =====
-- VM/kernel/kernel_sys.py, `sys_exit`: the process ends.
use py_vm.Prelude.{
  length, length-append, ℕ, zero, suc, ◌+◌, ◌≡◌, refl, sym, ap, ◌∙◌, inl, inr, Bool, true, false,
  Option, none, some, List, [], ◌∷◌, ◌++◌, arith, ◌==◌, if◌then◌else◌, Bool-cases, ℤ, pos, negsuc,
  ◌%ℤ◌, ltb_ℤ, eqb_ℤ,
}
use py_vm.Outcome.{Result, ok, err, returned}
use py_vm.Host.{Event, write_text, close, is_closed, Host}
use py_vm.Machine.{Machine, Outcome, done, Exec, pure, >>=-done}
use py_vm.Kernel.Ask.{record_event, ask, item, descriptor, file_object}
use py_vm.Kernel.Brk.{sys_brk}
use py_vm.Kernel.Process.{
  release_from, release_memory, filter_open, drop_first, exit_message, close_all, sys_exit,
}
use py_vm.FetchLoop.{cycles, run}
use py_vm.FetchLoop.Cycles.{stops}
use py_vm.Prelude.Lists

-- A host that answers each request to a file object.
abbrev pub AnswersAll : Host → Type 0
AnswersAll host =
    ((t : List Event) (e : Event) → returned (host.number t e) ≡ true)
    × ((t : List Event) (e : Event) → returned (host.written t e) ≡ true)

-- An action that returned and left the table of file objects as it was.
abbrev Keeps : {A : Type 0} → Outcome A → List (Option ℕ) → Type 0
Keeps {A = A} o ds = (a : A) × (vm' : Machine) × (o ≡ done a vm') × (vm'.descriptors ≡ ds)

keep_either :
    {A : Type 0} (t : Bool) (o p : Outcome A) (ds : List (Option ℕ))
    → Keeps o ds
    → Keeps p ds
    → Keeps (if t then o else p) ds
keep_either true o p ds h k = h
keep_either false o p ds h k = k

brk-Keeps : (n : ℕ) (vm : Machine) → Keeps (sys_brk n vm) vm.descriptors
unfolding sys_brk
brk-Keeps n vm =
    keep_either (ltb_ℤ (pos n) vm.code_segment_end) _ _ _ (_, _, refl, refl)
      (keep_either (eqb_ℤ vm.mem.program_break (pos n)) _ _ _ (_, _, refl, refl)
        (keep_either (ltb_ℤ (pos n) vm.mem.program_break) _ _ _ (_, _, refl, refl)
          (_, _, refl, refl)))

release-Keeps : (e : ℤ) (vm : Machine) → Keeps (release_from e vm) vm.descriptors
unfolding release_from
release-Keeps (pos n) vm =
    let (a, vm', run, same) = brk-Keeps n vm in
    (tt, vm', >>=-done (sys_brk n) (λ x. pure tt) {vm = vm} run, same)
release-Keeps (negsuc n) vm =
    keep_either (eqb_ℤ vm.mem.program_break (negsuc n)) _ _ _ (_, _, refl, refl) (_, _, refl, refl)

-- Empty places.
abbrev nones : ℕ → List (Option ℕ)
nones zero = []
nones (suc n) = none ∷ nones n

answered : {A : Type 0} (r : Result A) → returned r ≡ true → (a : A) × (r ≡ ok a)
answered (ok a) h = (a, refl)
answered (err e) h = cc

returns :
    {A : Type 0} (answer : List Event → Event → Result A)
    → ((t : List Event) (e : Event) → returned (answer t e) ≡ true)
    → (e : Event) (vm : Machine) → (a : A) × (ask answer e vm ≡ done a (record_event e vm))
returns answer h e vm =
    let (a, p) = answered (answer vm.trace e) (h vm.trace e) in (a, grind (arith, p))

append_one : (pre ds : List (Option ℕ)) (x : Option ℕ) → (pre ++ x ∷ []) ++ ds ≡ pre ++ x ∷ ds
append_one [] ds x = refl
append_one (p ∷ pre) ds x = ap (λ (l : List (Option ℕ)). p ∷ l) (append_one pre ds x)

set_at :
    (pre ds : List (Option ℕ)) (x y : Option ℕ)
    → Lists.set (pre ++ x ∷ ds) (length pre) y ≡ pre ++ y ∷ ds
set_at [] ds x y = refl
set_at (p ∷ pre) ds x y = ap (λ (l : List (Option ℕ)). p ∷ l) (set_at pre ds x y)

filter_nones : (n : ℕ) → filter_open (nones n) ≡ []
unfolding filter_open
filter_nones zero = refl
filter_nones (suc n) = filter_nones n

module _ (host : Host) (answers : AnswersAll host) where
  close_one :
      (i h : ℕ) (ds : List (Option ℕ)) (vm : Machine)
      → (vm' : Machine) × (close_all host i (some h ∷ ds) vm ≡ close_all host (i + 1) ds vm')
        × (vm'.descriptors ≡ Lists.set vm.descriptors i none)
  unfolding close_all
  close_one i h ds vm =
      let (closed, p) = returns host.number answers.0 (is_closed h) vm in
      let vm₁ = record_event (is_closed h) vm in
      let (n, q) = returns host.number answers.0 (close h) vm₁ in
      elim (Bool-cases (closed == 0)) [
        | inl still ↦ (set_in i (record_event (close h) vm₁), grind (arith, p, q, still), refl)
        | inr shut ↦ (set_in i vm₁, grind (arith, p, shut), refl)
      ]
    where
      set_in : ℕ → Machine → Machine
      set_in i vm = record vm { descriptors = Lists.set vm.descriptors i none }

  close_all_lem :
      (pre ds : List (Option ℕ)) (vm : Machine)
      → vm.descriptors ≡ pre ++ ds
      → (vm' : Machine) × (close_all host (length pre) ds vm ≡ done tt vm')
        × (vm'.descriptors ≡ pre ++ nones (length ds))
  unfolding close_all
  close_all_lem pre [] vm h = (vm, refl, h)
  close_all_lem pre (none ∷ ds) vm h =
      let (vm', run, left) =
        close_all_lem (pre ++ none ∷ []) ds vm (h ∙ sym (append_one pre ds none)) in
      (
        vm',
        ap (λ (i : ℕ). close_all host i ds vm) (sym (length-append pre (none ∷ []))) ∙ run,
        left ∙ append_one pre (nones (length ds)) none,
      )
  close_all_lem pre (some x ∷ ds) vm h =
      let (vm₁, one, emptied) = close_one (length pre) x ds vm in
      let (vm', run, left) = close_all_lem (pre ++ none ∷ []) ds vm₁ (
        emptied
        ∙ ap (λ (l : List (Option ℕ)). Lists.set l (length pre) none) h
        ∙ set_at pre ds (some x) none
        ∙ sym (append_one pre ds none)) in
      (
        vm',
        one ∙ ap (λ (i : ℕ). close_all host i ds vm₁) (sym (length-append pre (none ∷ []))) ∙ run,
        left ∙ append_one pre (nones (length ds)) none,
      )

only_standard :
    (a b c n : ℕ) (vm : Machine)
    → vm.descriptors ≡ some a ∷ some b ∷ some c ∷ nones n
    → filter_open vm.descriptors ≡ some a ∷ some b ∷ some c ∷ []
unfolding filter_open
only_standard a b c n vm h =
    ap filter_open h ∙ ap (λ (l : List (Option ℕ)). some a ∷ some b ∷ some c ∷ l) (filter_nones n)

third_file :
    (a b c : ℕ) (vm : Machine)
    → vm.descriptors ≡ some a ∷ some b ∷ some c ∷ []
    → file_object (pos 2) vm ≡ done c vm
unfolding file_object descriptor
third_file a b c vm h =
    let e : item vm.descriptors (pos 2) ≡ some (some c) =
      ap (λ (l : List (Option ℕ)). item l (pos 2)) h in
    grind (arith, e)

-- `sys_exit` ends the process where the standard files are open and the host answers: it returns the
-- low eight bits of the code, which are the return code, the processor stops running, and all file objects but the standard ones
-- are gone from the table. The last request to the host is the message on the standard error file.
-- The instruction cycle then ends before another instruction, whatever the fuel.
pub sys_exit_lem :
    (host : Host) (exec : Exec (Unit {0})) (code : ℤ) (vm : Machine) (a b c : ℕ)
    (ds : List (Option ℕ))
    → AnswersAll host
    → vm.descriptors ≡ some a ∷ some b ∷ some c ∷ ds
    → (vm' : Machine) × (sys_exit host code vm ≡ done (pos (code %ℤ 256)) vm')
      × (vm'.retcode ≡ some (code %ℤ 256))
      × (vm'.running ≡ false)
      × (vm'.descriptors ≡ some a ∷ some b ∷ some c ∷ [])
      × ((t : List Event) × (vm'.trace ≡ write_text c (exit_message (code %ℤ 256)) ∷ t))
      × ((n : ℕ) → cycles exec (suc n) vm' ≡ done true vm')
unfolding sys_exit drop_first
sys_exit_lem host exec code vm a b c ds answers table =
    let (_, vm₁, run₁, same) = release-Keeps vm.code_segment_end vm in
    let (vm₂, run₂, left) =
      close_all_lem host answers (some a ∷ some b ∷ some c ∷ []) ds vm₁ (same ∙ table) in
    let vm₃ = record vm₂ { descriptors = filter_open vm₂.descriptors } in
    let standard = only_standard a b c (length ds) vm₂ left in
    let ev = write_text c (exit_message (code %ℤ 256)) in
    let (_, run₄) = returns host.written answers.1 ev vm₃ in
    (
      record (record_event ev vm₃) { retcode = some (code %ℤ 256); running = false },
      >>=-done release_memory _ {vm = vm} run₁
          ∙ >>=-done (close_all host 3 (drop_first 3 vm₁.descriptors)) _ {vm = vm₁} (
              ap (λ (l : List (Option ℕ)). close_all host 3 (drop_first 3 l) vm₁) (same ∙ table)
              ∙ run₂)
          ∙ >>=-done (file_object (pos 2)) _ {vm = vm₃} (third_file a b c vm₃ standard)
          ∙ >>=-done (ask host.written ev) _ {vm = vm₃} run₄,
      refl,
      refl,
      standard,
      (vm₃.trace, refl),
      (λ n. stops exec n _ refl),
    )
