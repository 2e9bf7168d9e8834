-- ===== src/Main/Fresh.antt =====
-- VM/CPU.py, the machine as `CPU32.__init__` leaves it.
use py_vm.Prelude.{ℕ, ◌-◌, ◌^◌, ◌≤◌, ◌<◌, ◌≡◌, refl, inr, true, arith}
use py_vm.Bytes.{write32}
use py_vm.Outcome.{ok}
use py_vm.Machine.{Machine}
use py_vm.Stack.{stack_init}
use py_vm.Stack.RoundTrip.{CanPush}
use py_vm.FetchLoop.{goes_on}
use py_vm.Main.{blank_machine, new_machine}
use py_vm.Registers

-- The blank machine with ESP and EBP at the last address.
with_stack : ℕ → Machine
with_stack n = record (blank_machine n) { reg = write32 (write32 (λ _. 0) 16 (n - 1)) 20 (n - 1) }

-- A machine is built for every size but 0. Where the size has at most 32 bits and is 5 or more, ESP is
-- the last address, a value fits on the stack and the instruction cycle would run.
pub new_machine-CanPush :
    (n : ℕ)
    → 5 ≤ n
    → n < 2 ^ 32
    → (vm : Machine) × (new_machine n ≡ ok vm) × CanPush vm (n - 1) × (goes_on vm ≡ true)
unfolding with_stack Registers.get Registers.set write32 new_machine blank_machine stack_init
new_machine-CanPush n low high = (
  with_stack n,
  ground arith,
  record {
    esp_value = ground arith;
    esp_range = omega arith;
    wide_stack = refl;
    word = inr (inr refl);
    room = omega arith;
    above_break = ground arith;
    in_memory = omega arith;
  },
  ground arith,
)
