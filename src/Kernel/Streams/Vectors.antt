-- ===== src/Kernel/Streams/Vectors.antt =====
-- VM/kernel/kernel_filesystem.py, the loop of `sys_writev`.
use py_vm.Prelude.{ℕ, zero, suc, ◌+◌, ◌*◌, ◌≡◌, refl, sym, ap, ap₂, ◌∙◌, arith, ℤ}
use py_vm.Host.{Host}
use py_vm.Machine.{Machine, Outcome, done, raised, Exec, ◌>>=◌}
use py_vm.Kernel.Streams.{write_vector, writev_loop}

after_eq :
    {A B : Type 0} (o : Outcome A) {f g : A → Exec B}
    → ((a : A) (vm : Machine) → f a vm ≡ g a vm)
    → Path
        (Outcome B)
        (elim o [ done a vm ↦ f a vm | raised e vm ↦ raised e vm ])
        (elim o [ done a vm ↦ g a vm | raised e vm ↦ raised e vm ])
after_eq (done a vm) h = h a vm
after_eq (raised e vm) h = refl

after_after :
    {A B C : Type 0} (o : Outcome A) (f : A → Exec B) (g : B → Exec C)
    → Path
        (Outcome C)
        (elim (elim o as (λ x. Outcome B) [ done a vm ↦ f a vm | raised e vm ↦ raised e vm ])
          as (λ x. Outcome C) [ done b vm ↦ g b vm | raised e vm ↦ raised e vm ])
        (elim o [ done a vm ↦ (f a >>= g) vm | raised e vm ↦ raised e vm ])
after_after (done a vm) f g = refl
after_after (raised e vm) f g = refl

one_more : (n m : ℕ) → suc n + m ≡ suc (n + m)
one_more n m = omega arith

next_address : (addr n : ℕ) → addr + 8 + n * 8 ≡ addr + suc n * 8
next_address addr n = omega arith

-- Writing `n + m` buffers is writing the first `n` and then the `m` that follow them, at the address
-- behind their structures and with the size so far: the same value, the same requests to the host
-- and the same exception, where there is one, with the buffers before it written.
pub writev_loop_split :
    (host : Host) (fd : ℤ) (n m addr size : ℕ) (vm : Machine)
    → writev_loop host fd (n + m) addr size vm
      ≡ (writev_loop host fd n addr size >>= writev_loop host fd m (addr + n * 8)) vm
unfolding writev_loop
writev_loop_split host fd zero m addr size vm =
    ap₂ (λ (k a : ℕ). writev_loop host fd k a size vm) (omega arith) (omega arith)
writev_loop_split host fd (suc n) m addr size vm =
    ap (λ (k : ℕ). writev_loop host fd k addr size vm) (one_more n m)
    ∙ after_eq (write_vector host fd addr vm) (λ ret vm₁.
      writev_loop_split host fd n m (addr + 8) (size + ret) vm₁
      ∙ ap
          (λ (a : ℕ).
            (writev_loop host fd n (addr + 8) (size + ret) >>= writev_loop host fd m a) vm₁)
          (next_address addr n))
    ∙ sym (
        after_after (write_vector host fd addr vm)
          (λ ret. writev_loop host fd n (addr + 8) (size + ret))
          (writev_loop host fd m (addr + suc n * 8)))
