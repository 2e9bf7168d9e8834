-- ===== src/Host.antt =====
-- What the virtual machine asks of the computer that it runs on: the methods of the file objects in
-- `descriptors` (VM/__init__.py), `open`, and the functions of `os` and `time`.
use py_vm.Prelude.{ℕ, Bool, Option, List}
use py_vm.Outcome.{Result}

-- A request; file objects have numbers, and text and paths are the bytes of their encodings.
pub data Event : Type 0 where
  fileno : ℕ → Event
  os_read : ℕ → ℕ → Event
  read_text : ℕ → ℕ → Event
  os_write : ℕ → List ℕ → Event
  write_text : ℕ → List ℕ → Event
  flush : ℕ → Event
  open_file : List ℕ → List ℕ → Event
  path_exists : List ℕ → Event
  unlink : List ℕ → Event
  lseek : ℕ → ℕ → ℕ → Event
  close : ℕ → Event
  is_closed : ℕ → Event
  clock : Event

-- The answers, each of which may depend on the requests before it (the latest first): a number (a
-- file descriptor, a file object, a count of nanoseconds; a truth value is 0 or 1), a string, or
-- what `write` returns. `is_utf8` and `is_ascii` say what `decode` accepts; `bytes_past` are the
-- bytes of the process from an address behind the RAM on, up to a zero.
pub record Host : Type 0 where
  pub number : List Event → Event → Result ℕ
  pub string : List Event → Event → Result (List ℕ)
  pub written : List Event → Event → Result (Option ℕ)
  pub is_utf8 : List ℕ → Bool
  pub is_ascii : List ℕ → Bool
  pub bytes_past : ℕ → List ℕ
