-- ===== src/Loader/Arguments.antt =====
-- VM/fetchLoop.py, `ExecuteELF`: the strings of the arguments and the environment, which system calls
-- read again.
use py_vm.Prelude.{
  length, length-append, ℕ, zero, suc, ◌+◌, ◌-◌, ◌%◌, ◌^◌, ◌≤◌, ◌<◌, ◌≡◌, refl, ap, ◌∙◌, inl, inr,
  List, [], ◌∷◌, ◌++◌, arith, ◌==◌, if◌then◌else◌, pos, sub_ℕ,
}
use py_vm.Bytes.{Buffer, put, write_bytes}
use py_vm.Bytes.Laws.{write_bytes_outside}
use py_vm.Outcome.{ok}
use py_vm.Machine.{Machine, done}
use py_vm.Stack.{esp}
use py_vm.Registers.Laws.{reg_stored, reg_set_lem, get-reg_stored}
use py_vm.Kernel.Ask.{c_string}
use py_vm.Loader.{push_string}
use py_vm.Loader.Segment.{set_bytes_lem}
use py_vm.Registers
use py_vm.Memory
use py_vm.Memory.{Memory}

-- Bytes that a C string can hold.
abbrev pub IsText : List ℕ → Type 0
IsText [] = Unit
IsText (x ∷ xs) = (0 < x) × (x < 256) × IsText xs

first_char :
    (c x : ℕ) (tail text : List ℕ)
    → c ≡ x
    → 0 < x
    → tail ≡ text
    → (if c == 0 then [] else c ∷ tail) ≡ x ∷ text
first_char c x tail text p h q = grind (arith, p, q)

c_string-write_bytes :
    (b : Buffer) (i n : ℕ) (text past : List ℕ)
    → IsText text
    → length text < n
    → c_string (write_bytes b i (text ++ 0 ∷ [])) i n past ≡ text
unfolding c_string write_bytes
c_string-write_bytes b i zero text past t h = absurd (omega arith)
c_string-write_bytes b i (suc n) [] past t h = ground arith
c_string-write_bytes b i (suc n) (x ∷ text) past t h =
    let head : write_bytes (put b i (x % 256)) (i + 1) (text ++ 0 ∷ []) i ≡ x =
      write_bytes_outside (put b i (x % 256)) (i + 1) (text ++ 0 ∷ []) i (inl (omega arith))
      ∙ ground arith in
    let rest = c_string-write_bytes (put b i (x % 256)) (i + 1) n text past t.2 (omega arith) in
    first_char _ x _ _ head t.0 rest

push_steps :
    (text : List ℕ) (vm : Machine) (e a : ℕ) (m : Memory) (r : Buffer)
    → Registers.get vm.reg 4 4 ≡ ok e
    → sub_ℕ e (length (text ++ 0 ∷ [])) ≡ pos a
    → Memory.set_bytes vm.mem (pos a) (text ++ 0 ∷ []) ≡ ok m
    → Registers.set vm.reg 4 4 (pos a) ≡ ok r
    → Registers.get r 4 4 ≡ ok a
    → push_string text vm ≡ done a (record vm { mem = m; reg = r })
unfolding push_string
push_steps text vm e a m r p q s t u = grind (arith, p, q, s, t, u)

-- A string of the arguments, of bytes that are not 0, with room below ESP, which lies in the memory or at
-- its end, and the segment base 0: it is stored, its address is
-- returned and is the new ESP, and a system call that reads a string there gets it back, whatever
-- the memory holds behind it.
pub push_string_lem :
    (text : List ℕ) (vm : Machine) (e : ℕ)
    → IsText text
    → Registers.get vm.reg 4 4 ≡ ok e
    → e < 2 ^ 32
    → length text < e
    → e ≤ vm.mem.size
    → vm.mem.segment_base ≡ 0
    → (a : ℕ) × (vm' : Machine) × (push_string text vm ≡ done a vm')
      × (a + length text + 1 ≡ e)
      × (Registers.get vm'.reg 4 4 ≡ ok a)
      × ((past : List ℕ) → c_string vm'.mem.cells a (vm'.mem.size - a) past ≡ text)
push_string_lem text vm e t esp small room inside flat =
    let a = e - (length text + 1) in
    let size = length-append text (0 ∷ []) in
    let here : vm.mem.segment_base + a ≡ a = omega (arith, flat) in
    let below : sub_ℕ e (length (text ++ 0 ∷ [])) ≡ pos a = grind (arith, size, room) in
    let stored =
      set_bytes_lem vm.mem a (text ++ 0 ∷ []) (omega (arith, size, flat, room, inside)) in
    let moved : Registers.set vm.reg 4 4 (pos a) ≡ ok (reg_stored vm.reg 4 4 a) =
      reg_set_lem vm.reg 4 4 (pos a) (inr (inr refl))
      ∙ ap (λ (w : ℕ). ok (reg_stored vm.reg 4 4 w)) (ground arith) in
    let top = get-reg_stored vm.reg 4 4 a (inr (inr refl)) (omega arith) in
    (
      a,
      _,
      push_steps text vm e a _ (reg_stored vm.reg 4 4 a) esp below stored moved top,
      omega arith,
      top,
      (λ past.
          ap
            (λ (i : ℕ).
              c_string (write_bytes vm.mem.cells i (text ++ 0 ∷ [])) a (vm.mem.size - a) past)
            here
          ∙ c_string-write_bytes vm.mem.cells a (vm.mem.size - a) text past t (omega arith)),
    )
