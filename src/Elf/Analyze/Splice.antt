-- ===== src/Elf/Analyze/Splice.antt =====
-- `xs[a:b] = ys` of VM/ELF/analyze.py, byte by byte.
use py_vm.Prelude.{
  length, length-append, ℕ, zero, suc, ◌+◌, ◌-◌, ◌≤◌, ◌<◌, ◌≡◌, refl, ap, ◌∙◌, Option, none, some,
  List, [], ◌∷◌, ◌++◌, arith, ltb, if◌then◌else◌,
}
use py_vm.Kernel.Blocks.{take}
use py_vm.Kernel.Process.{drop_first}
use py_vm.Elf.{field8}
use py_vm.Elf.Headers.{drop-item, take-item, length-drop, length-take}
use py_vm.Elf.Analyze.{splice}

-- A byte of a list that is put together, or replaced in part.
pub field8-append :
    (xs ys : List ℕ) (j : ℕ)
    → field8 (xs ++ ys) j ≡ (if ltb j (length xs) then field8 xs j else field8 ys (j - length xs))
field8-append [] ys j = ground arith
field8-append (x ∷ xs) ys zero = ground arith
field8-append (x ∷ xs) ys (suc j) = let l = field8-append xs ys j in ground (arith, l)

abbrev byte_of : Option ℕ → ℕ
byte_of o = elim o as (λ x. ℕ) [ some b ↦ b | none ↦ 0 ]

field8-take : (xs : List ℕ) (n j : ℕ) → j < n → field8 (take n xs) j ≡ field8 xs j
field8-take xs n j h = ap byte_of (take-item xs n j h)

field8-drop : (xs : List ℕ) (n j : ℕ) → field8 (drop_first n xs) j ≡ field8 xs (n + j)
field8-drop xs n j = ap byte_of (drop-item xs n j)

pub field8-past : (xs : List ℕ) (j : ℕ) → length xs ≤ j → field8 xs j ≡ 0
field8-past [] j h = refl
field8-past (x ∷ xs) zero h = absurd (omega arith)
field8-past (x ∷ xs) (suc j) h = field8-past xs j (omega arith)

-- A slice inside the list, replaced by one of the same length.
module _ (xs ys : List ℕ) (a b : ℕ) (same : a + length ys ≡ b) (inside : b ≤ length xs) where
  splice_lem : splice xs a b ys ≡ take a xs ++ ys ++ drop_first b xs
  unfolding splice
  splice_lem = ground arith

  length-before : length (take a xs) ≡ a
  length-before = let t = length-take xs a in ground (arith, t)

  length-front : length (take a xs ++ ys) ≡ b
  length-front =
      let l = length-append (take a xs) ys in let t = length-before in omega (arith, l, t, same)

  pub length-splice : length (splice xs a b ys) ≡ length xs
  length-splice =
      let l = length-append (take a xs ++ ys) (drop_first b xs) in
      let d = length-drop xs b in
      let f = length-front in ap length splice_lem ∙ omega (arith, l, d, f, inside)

  item : (j : ℕ) → field8 (splice xs a b ys) j ≡ field8 (take a xs ++ ys ++ drop_first b xs) j
  item j = ap (λ (zs : List ℕ). field8 zs j) splice_lem

  pub splice-before : (j : ℕ) → j < a → field8 (splice xs a b ys) j ≡ field8 xs j
  splice-before j h =
      let t = length-before in
      let f = length-front in
      let l = field8-append (take a xs ++ ys) (drop_first b xs) j in
      let l' = field8-append (take a xs) ys j in
      let k = field8-take xs a j h in item j ∙ ground (arith, t, f, l, l', k, same)

  pub splice-middle :
      (j i : ℕ) → j ≡ a + i → i < length ys → field8 (splice xs a b ys) j ≡ field8 ys i
  splice-middle j i e h =
      let t = length-before in
      let f = length-front in
      let l = field8-append (take a xs ++ ys) (drop_first b xs) j in
      let l' = field8-append (take a xs) ys j in
      let k : j - length (take a xs) ≡ i = omega (arith, t, e) in
      item j ∙ ground (arith, t, f, l, l', k, same)

  pub splice-behind : (j : ℕ) → b ≤ j → field8 (splice xs a b ys) j ≡ field8 xs j
  splice-behind j h =
      let f = length-front in
      let l = field8-append (take a xs ++ ys) (drop_first b xs) j in
      let k = field8-drop xs b (j - length (take a xs ++ ys)) in
      let e : b + (j - length (take a xs ++ ys)) ≡ j = omega (arith, f, h) in
      item j ∙ ground (arith, f, l, k, e)
