-- ===== src/Elf/Analyze/Names.antt =====
-- VM/ELF/analyze.py, the dictionaries by names.
use py_vm.Prelude.{
  ℕ, ◌≡◌, refl, ap, ◌∙◌, inl, inr, true, false, some, List, [], ◌∷◌, arith, if◌then◌else◌,
  Bool-cases,
}
use py_vm.Outcome.{Result, ok}
use py_vm.Elf.Analyze.{Dict, same_name, lookup, insert}

pub some_same : {A : Type 0} (r : Result A) (a b : A) → r ≡ ok a → some a ≡ some b → r ≡ ok b
some_same r a b e h = cc

pub same_name_eq : (xs ys : List ℕ) → same_name xs ys ≡ true → xs ≡ ys
same_name_eq [] [] h = refl
same_name_eq (x ∷ xs) (y ∷ ys) h = let l = same_name_eq xs ys in grind (arith, l)
same_name_eq [] (y ∷ ys) h = cc
same_name_eq (x ∷ xs) [] h = cc

same_name_apart :
    (q name k : List ℕ) → same_name name k ≡ false → same_name q name ≡ true → same_name q k ≡ false
same_name_apart q name k other here =
    ap (λ (xs : List ℕ). same_name xs k) (same_name_eq q name here) ∙ other

-- A dictionary finds the value that was put into it last, and those of the other names.
pub lookup-insert :
    {V : Type 0} (q name : List ℕ) (v : V) (d : Dict V)
    → lookup q (insert name v d) ≡ (if same_name q name then some v else lookup q d)
unfolding lookup insert
lookup-insert q name v [] = refl
lookup-insert q name v ((k, w) ∷ d) =
    let l = lookup-insert q name v d in
    let s = same_name_eq name k in
    elim (Bool-cases (same_name name k)) [
      | inl same ↦ rw (same, ← s same) (ground arith)
      | inr other ↦ let n = same_name_apart q name k other in rw other (ground (arith, l, n))
    ]
