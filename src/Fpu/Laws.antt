-- ===== src/Fpu/Laws.antt =====
-- VM/FPU.py, the register stack of `FPU`.
use py_vm.Prelude.{ℕ, ◌+◌, ◌<◌, ◌≡◌, false, arith, ◌==◌}
use py_vm.Outcome.{index_error, ok, err}
use py_vm.Binary80.{Binary80}
use py_vm.Fpu.{Fpu, st, push, pop}
use py_vm.Fpu

-- Popping gives back the number that was pushed last. The stack pointer is then as before, and so is
-- every register but the one that received the number.
pub pop-push :
    (f : Fpu) (value : Binary80)
    → f.top < 8
    → ((pop (Fpu.push f value)).0 ≡ value)
      × ((pop (Fpu.push f value)).1.top ≡ f.top)
      × ((i : ℕ)
          → (i == (Fpu.push f value).top) ≡ false
          → (pop (Fpu.push f value)).1.data_registers i ≡ f.data_registers i)
unfolding pop Fpu.push
pop-push f value small = (ground arith, ground arith, λ i h. ground arith)

-- After a push, ST(0) is the number, and ST(i + 1) is what ST(i) was, as long as the stack pointer
-- was not 0. Where it was, the index does not wrap around: only ST(0) can be read.
pub st-push :
    (f : Fpu) (value : Binary80) (i : ℕ)
    → f.top < 8
    → (st (Fpu.push f value) 0 ≡ ok value)
      × ((0 < f.top) → i + f.top < 8 → st (Fpu.push f value) (i + 1) ≡ st f i)
      × ((f.top ≡ 0) → st (Fpu.push f value) (i + 1) ≡ err index_error)
unfolding st Fpu.push
st-push f value i small = (ground arith, (λ a b. ground arith), λ e. ground arith)
