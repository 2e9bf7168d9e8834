-- ===== src/Fpu.antt =====
-- VM/FPU.py, `FPU`: the eight registers, which TOP turns into a stack, the condition bits of the
-- status word and the control word. The other fields are never touched.
pub mod Laws
use py_vm.Prelude.{ℕ, ◌+◌, ◌%◌, false, not, ltb, ◌==◌, if◌then◌else◌, bit}
use py_vm.Outcome.{index_error, Result, ok, err}
use py_vm.Binary80.{Binary80}
use py_vm.Binary80

-- The fields TOP and the four condition flags belong to the status word; TOP has three bits.
pub record Fpu : Type 0 where
  pub data_registers : ℕ → Binary80
  pub top : ℕ
  pub c0 : ℕ
  pub c1 : ℕ
  pub c2 : ℕ
  pub c3 : ℕ
  pub control : ℕ

abbrev pub write_register : (ℕ → Binary80) → ℕ → Binary80 → ℕ → Binary80
write_register r i v j = if j == i then v else r j

-- `ST(index)`: the index does not wrap around, and the array has eight elements.
unfoldable pub st : Fpu → ℕ → Result Binary80
st f index =
    if ltb (f.top + index) 8 then ok (f.data_registers (f.top + index)) else err index_error

unfoldable pub store : Fpu → ℕ → Binary80 → Result Fpu
store f index value =
    if ltb (f.top + index) 8
    then ok (record f { data_registers = write_register f.data_registers (f.top + index) value })
    else err index_error

-- The condition flag 1 tells whether TOP went from 0 to 7.
unfoldable pub push : Fpu → Binary80 → Fpu
push f value =
    let top' = (f.top + 7) % 8 in
    record f {
      top = top';
      c1 = bit (top' == 7);
      data_registers = write_register f.data_registers top' value;
    }

unfoldable pub pop : Fpu → Binary80 × Fpu
pop f =
    let top' = (f.top + 1) % 8 in
    (f.data_registers f.top, record f { top = top'; c1 = bit (not (top' == 0)) })

-- `res = self.ST(a) <op> self.ST(b)` and `self.store(a, res)`.
abbrev pub bind_result : {A B : Type 0} → Result A → (A → Result B) → Result B
bind_result (ok a) k = k a
bind_result (err e) k = err e

abbrev pub combine : (Binary80 → Binary80 → Result Binary80) → Fpu → ℕ → ℕ → Result Fpu
combine op f a b =
    bind_result (st f a) (λ x. bind_result (st f b) (λ y. bind_result (op x y) (store f a)))

-- `add`, `sub`, `mul` and `div` of the class.
unfoldable pub fpu_add : Fpu → ℕ → ℕ → Result Fpu
unfolding st store
fpu_add f a b = combine (λ x y. ok (Binary80.add x y)) f a b

unfoldable pub fpu_sub : Fpu → ℕ → ℕ → Result Fpu
unfolding st store
fpu_sub f a b = combine (λ x y. ok (Binary80.sub x y)) f a b

unfoldable pub fpu_mul : Fpu → ℕ → ℕ → Result Fpu
unfolding st store
fpu_mul f a b = combine (λ x y. ok (Binary80.mul x y)) f a b

unfoldable pub fpu_div : Fpu → ℕ → ℕ → Result Fpu
unfolding st store
fpu_div f a b = combine Binary80.div f a b

-- `FPU()`: the buffer is zero.
abbrev pub initial_fpu : Fpu
initial_fpu = record {
  data_registers = λ i. record { significand = 0; exponent = 0; sign = false };
  top = 0;
  c0 = 0;
  c1 = 0;
  c2 = 0;
  c3 = 0;
  control = 0;
}
