-- ===== src/Kernel/Ask.antt =====
-- The host and the table of file objects, as the calls of VM/kernel/kernel_filesystem.py and
-- VM/kernel/kernel_sys.py use them.
use py_vm.Prelude.{
  length, get_elem?, ℕ, zero, suc, ◌+◌, ◌-◌, Bool, true, false, Option, none, some, List, [], ◌∷◌,
  ltb, ◌==◌, if◌then◌else◌, ℤ, pos, negsuc,
}
use py_vm.Outcome.{
  Exn, index_error, attribute_error, unsupported_operation, unicode_error, Result, ok, err,
}
use py_vm.Host.{Event, Host}
use py_vm.Machine.{Machine, done, raised, Exec, pure, raise, ◌>>=◌, modify}
use py_vm.Bytes.{Buffer}
use py_vm.Prelude.Lists

abbrev pub record_event : Event → Machine → Machine
record_event ev vm = record vm { trace = ev ∷ vm.trace }

-- A request: it is noted, and its answer may be an exception.
abbrev pub ask : {A : Type 0} → (List Event → Event → Result A) → Event → Exec A
ask answer ev vm = elim (answer vm.trace ev) [
  | ok a ↦ done a (record_event ev vm)
  | err e ↦ raised e (record_event ev vm)
]

-- `try`: the exception, if there is one, as a value.
abbrev pub attempt : {A : Type 0} → Exec A → Exec (Result A)
attempt m vm = elim (m vm) [ done a vm' ↦ done (ok a) vm' | raised e vm' ↦ done (err e) vm' ]

-- `except (AttributeError, UnsupportedOperation)`
abbrev pub is_unsupported : Exn → Bool
is_unsupported attribute_error = true
is_unsupported unsupported_operation = true
is_unsupported e = false

-- Python's `xs[i]`, where a negative index counts from the end.
abbrev pub item : {A : Type 0} → List A → ℤ → Option A
item xs (pos n) = get_elem? xs n
item xs (negsuc n) = if ltb n (length xs) then get_elem? xs (length xs - suc n) else none

-- `descriptors[fd]`
unfoldable pub descriptor : ℤ → Exec (Option ℕ)
descriptor fd vm = elim (item vm.descriptors fd) [
  | some d ↦ done d vm
  | none ↦ raised index_error vm
]

-- A file object, where None has none of the attributes that are asked for.
unfoldable pub file_object : ℤ → Exec ℕ
unfolding descriptor
file_object fd = do d ← descriptor fd; elim d [ some h ↦ pure h | none ↦ raise attribute_error ]

-- `descriptors[fd] = value`
abbrev pub set_descriptor : ℕ → Option ℕ → Exec (Unit {0})
set_descriptor fd value =
    modify (λ vm. record vm { descriptors = Lists.set vm.descriptors fd value })

-- `string_at(base + address)`: up to a zero, at most `n` bytes of the RAM and then those behind it.
unfoldable pub c_string : Buffer → ℕ → ℕ → List ℕ → List ℕ
c_string b i zero past = past
c_string b i (suc n) past =
    let rest = c_string b (i + 1) n past in if b i == 0 then [] else b i ∷ rest

-- `kernel_read_string(address).decode()`
unfoldable pub read_path : Host → ℕ → Exec (List ℕ)
unfolding c_string
read_path host address vm =
    let path =
      c_string vm.mem.cells address (vm.mem.size - address)
        (host.bytes_past (if ltb address vm.mem.size then vm.mem.size else address)) in
    if host.is_utf8 path then done path vm else raised unicode_error vm
