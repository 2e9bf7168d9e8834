-- ===== src/Instructions/Transfer/Scan.antt =====
-- VM/instructions/memory.py, the loop of `BitScan`.
use py_vm.Prelude.{
  ℕ, zero, suc, ◌+◌, ◌*◌, ◌/◌, ◌%◌, ◌^◌, ◌<◌, ◌≡◌, sym, ap, ◌∙◌, inl, inr, arith, ◌==◌, ==_iff,
  Bool-cases,
}
use py_vm.Instructions.Transfer.{scan}
use native.Mathlib.Nat.{div-div-eq-div-mul}

doubled : (k src : ℕ) → src / 2 / 2 ^ k ≡ src / 2 ^ suc k
doubled k src =
    let e : 2 ^ suc k ≡ 2 * 2 ^ k = omega arith in
    div-div-eq-div-mul src 2 (2 ^ k) ∙ sym (ap (λ x. src / x) e)

-- A later start moves the answer.
later : (f src t : ℕ) → scan f src t ≡ scan f src 0 + t
unfolding scan
later zero src t = omega arith
later (suc f) src t = ground (arith, later f (src / 2) (t + 1), later f (src / 2) 1)

-- The bits below `k` are zeros.
abbrev Zeros : ℕ → ℕ → Type 0
Zeros src k = (i : ℕ) → i < k → src / 2 ^ i % 2 ≡ 0

one_more : (src k : ℕ) → src % 2 ≡ 0 → Zeros (src / 2) k → Zeros src (suc k)
one_more src k e z zero h = grind arith
one_more src k e z (suc i) h = sym (ap (λ x. x % 2) (doubled i src)) ∙ z i (omega arith)

-- What one round adds to the answer `k` for the rest of the bits.
stepped :
    (f src k : ℕ)
    → src % 2 ≡ 0
    → (k < f) × (src / 2 / 2 ^ k % 2 ≡ 1) × Zeros (src / 2) k
    → (suc k < suc f) × (src / 2 ^ suc k % 2 ≡ 1) × Zeros src (suc k)
stepped f src k e (a, b, z) =
    (omega arith, sym (ap (λ x. x % 2) (doubled k src)) ∙ b, one_more src k e z)

-- Fuel for each bit of the operand is enough: for an operand that is not 0 the loop of BSF finds the
-- lowest one, past zeros only, below the width.
pub scan_lem :
    (f src : ℕ)
    → 0 < src
    → src < 2 ^ f
    → (scan f src 0 < f)
      × (src / 2 ^ scan f src 0 % 2 ≡ 1)
      × ((i : ℕ) → i < scan f src 0 → src / 2 ^ i % 2 ≡ 0)
unfolding scan
scan_lem zero src h b = absurd (omega arith)
scan_lem (suc f) src h b = elim (Bool-cases (src % 2 == 0)) [
  | inl e ↦
      let even : src % 2 ≡ 0 = (==_iff _ _).0 e in
      let r = scan_lem f (src / 2) (omega arith) (omega arith) in
      let at : scan (suc f) src 0 ≡ suc (scan f (src / 2) 0) =
        ground (arith, later f (src / 2) 1) in
      rw at (stepped f src (scan f (src / 2) 0) even r)
  | inr e ↦
      let at : scan (suc f) src 0 ≡ 0 = ground arith in
      rw at (omega arith, grind arith, λ i h. absurd (omega arith))
]
