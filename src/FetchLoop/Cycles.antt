-- ===== src/FetchLoop/Cycles.antt =====
-- VM/fetchLoop.py, the `while` loop of `run`.
use py_vm.Prelude.{
  ℕ, zero, suc, ◌+◌, ◌≡◌, refl, sym, ap, ◌∙◌, inl, inr, Bool, true, false, arith, Bool-cases,
}
use py_vm.Machine.{Machine, Outcome, done, raised, Exec}
use py_vm.FetchLoop.{goes_on, step, cycles}

-- The loop came to an end, or an exception ended it, before the fuel was used up.
abbrev pub ended : Outcome Bool → Bool
ended (done b vm) = b
ended (raised e vm) = true

shape : (n k : ℕ) → suc n + k ≡ suc (n + k)
shape n k = omega arith

module _ (exec : Exec (Unit {0})) where
  -- What follows a step with the outcome `o`.
  abbrev pub next : ℕ → Outcome (Unit {0}) → Outcome Bool
  next n o = elim o [ done _ vm' ↦ cycles exec n vm' | raised e vm' ↦ raised e vm' ]

  next_more :
      (n k : ℕ) (o : Outcome (Unit {0}))
      → ((vm : Machine)
          → ended (cycles exec n vm) ≡ true
          → cycles exec (n + k) vm ≡ cycles exec n vm)
      → ended (next n o) ≡ true
      → next (n + k) o ≡ next n o
  next_more n k (done a vm) ih h = ih vm h
  next_more n k (raised e vm) ih h = refl

  pub goes :
      (n : ℕ) (vm : Machine) → goes_on vm ≡ true → cycles exec (suc n) vm ≡ next n (step exec vm)
  unfolding cycles
  goes n vm h = ap (λ (b : Bool). elim b [ false ↦ done true vm | true ↦ next n (step exec vm) ]) h

  pub stops : (n : ℕ) (vm : Machine) → goes_on vm ≡ false → cycles exec (suc n) vm ≡ done true vm
  unfolding cycles
  stops n vm h = ap (λ (b : Bool). elim b [ false ↦ done true vm | true ↦ next n (step exec vm) ]) h

  none_left : (vm : Machine) → ended (cycles exec 0 vm) ≡ true → ⊥
  unfolding cycles
  none_left vm h = cc

  -- Once the loop has ended, more fuel changes nothing: the end, the machine and an exception are
  -- those of the loop of the source, which has no fuel.
  pub cycles_more :
      (n k : ℕ) (vm : Machine)
      → ended (cycles exec n vm) ≡ true
      → cycles exec (n + k) vm ≡ cycles exec n vm
  cycles_more zero k vm h = absurd (none_left vm h)
  cycles_more (suc n) k vm h = elim (Bool-cases (goes_on vm)) [
    | inr stop ↦
        ap (λ (m : ℕ). cycles exec m vm) (shape n k) ∙ stops (n + k) vm stop ∙ sym (stops n vm stop)
    | inl on ↦
        ap (λ (m : ℕ). cycles exec m vm) (shape n k)
        ∙ goes (n + k) vm on
        ∙ next_more n k (step exec vm) (cycles_more n k) (sym (ap ended (goes n vm on)) ∙ h)
        ∙ sym (goes n vm on)
  ]
